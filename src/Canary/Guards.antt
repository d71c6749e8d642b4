-- ===== src/Canary/Guards.antt =====
-- canary.go, canaryLayout.intact, against the zones of a layout said by their bounds.
use secmem.Prelude.{
  ℕ, zero, suc, ◌+◌, ◌-◌, ◌*◌, ◌≤◌, ◌<◌, ◌≡◌, ◌≢◌, refl, sym, ap, ◌∙◌, ◌⊎◌, inl, inr, ◌↔◌, true,
  false, if◌then◌else◌, ltb, leb, Bool, Bool-cases, some, List, [], ◌∷◌, ◌++◌, length, slice, arith,
}
use secmem.Canary.{
  CanaryLayout, pattern_bytes, canary_intact, in_bounds, visit, check_zone, strips, zones, intact,
}
use secmem.Canary.Check.{visit-check_zone, zone_iff}

-- The strip behind a slot, up to the next slot.
abbrev pub Strip : CanaryLayout → (lo hi : ℕ) → Type 0
Strip c lo hi =
    (i : ℕ) × (i < c.count) × (lo ≡ i * c.stride + c.slot_size) × (hi ≡ suc i * c.stride)

-- A range of guard bytes, not empty: a strip, or the tail of the layout.
abbrev pub Zone : CanaryLayout → (lo hi : ℕ) → Type 0
Zone c lo hi = (lo < hi) × (Strip c lo hi ⊎ ((lo ≡ c.tail_lo) × (hi ≡ c.tail_hi)))

-- A range that ends at or before the region's end and does not hold the pattern, which every range
-- begins anew.
abbrev pub Overwritten : (ℕ → ℕ) → List ℕ → (lo hi : ℕ) → Type 0
Overwritten p inner lo hi =
    (hi ≤ length inner) × (slice lo (hi - lo) inner ≢ pattern_bytes p 0 (hi - lo))

abbrev pub Violated : (ℕ → ℕ) → CanaryLayout → List ℕ → Type 0
Violated p c inner = (lo : ℕ) × (hi : ℕ) × Zone c lo hi × Overwritten p inner lo hi

abbrev Listed : (lo hi : ℕ) → List (ℕ × ℕ) → Type 0
Listed lo hi [] = ⊥
Listed lo hi ((a, b) ∷ zs) = ((lo ≡ a) × (hi ≡ b)) ⊎ Listed lo hi zs

Listed-append :
    (lo hi : ℕ) (xs ys : List (ℕ × ℕ)) → Listed lo hi (xs ++ ys) → Listed lo hi xs ⊎ Listed lo hi ys
Listed-append lo hi [] ys found = inr found
Listed-append lo hi ((a, b) ∷ xs) ys (inl here) = inl (inl here)
Listed-append lo hi ((a, b) ∷ xs) ys (inr later) = elim (Listed-append lo hi xs ys later) [
  | inl one ↦ inl (inr one)
  | inr other ↦ inr other
]

append-Listed :
    (lo hi : ℕ) (xs ys : List (ℕ × ℕ)) → Listed lo hi xs ⊎ Listed lo hi ys → Listed lo hi (xs ++ ys)
append-Listed lo hi [] ys (inl bad) = absurd bad
append-Listed lo hi [] ys (inr found) = found
append-Listed lo hi ((a, b) ∷ xs) ys (inl (inl here)) = inl here
append-Listed lo hi ((a, b) ∷ xs) ys (inl (inr later)) = inr (append-Listed lo hi xs ys (inl later))
append-Listed lo hi ((a, b) ∷ xs) ys (inr found) = inr (append-Listed lo hi xs ys (inr found))

Listed-if :
    (lo hi : ℕ) (t : Bool) (xs ys : List (ℕ × ℕ))
    → Listed lo hi (if t then xs else ys)
    → ((t ≡ true) × Listed lo hi xs) ⊎ ((t ≡ false) × Listed lo hi ys)
Listed-if lo hi true xs ys found = inl (refl, found)
Listed-if lo hi false xs ys found = inr (refl, found)

if-Listed :
    (lo hi : ℕ) (t : Bool) (xs ys : List (ℕ × ℕ))
    → ((t ≡ true) × Listed lo hi xs) ⊎ ((t ≡ false) × Listed lo hi ys)
    → Listed lo hi (if t then xs else ys)
if-Listed lo hi true xs ys (inl (e, found)) = found
if-Listed lo hi true xs ys (inr (e, found)) = absurd cc
if-Listed lo hi false xs ys (inl (e, found)) = absurd cc
if-Listed lo hi false xs ys (inr (e, found)) = found

-- A strip of the rounds from slot i on.
abbrev From : (stride slot_size k i lo hi : ℕ) → Type 0
From stride slot_size k i lo hi =
    (j : ℕ) × (i ≤ j)
    × (j < i + k)
    × (lo ≡ j * stride + slot_size)
    × (hi ≡ suc j * stride)
    × (lo < hi)

From-next :
    (stride slot_size k i lo hi : ℕ)
    → From stride slot_size k (suc i) lo hi
    → From stride slot_size (suc k) i lo hi
From-next stride slot_size k i lo hi (j, le, lt, at, to, some_bytes) =
    (j, omega arith, omega arith, at, to, some_bytes)

Listed-From :
    (stride slot_size k i lo hi : ℕ)
    → Listed lo hi (strips stride slot_size k i)
    → From stride slot_size k i lo hi
unfolding strips
Listed-From stride slot_size zero i lo hi found = absurd found
Listed-From stride slot_size (suc k) i lo hi found =
    let skip = From-next stride slot_size k i lo hi in
    elim (Listed-if lo hi (leb (suc i * stride) (i * stride + slot_size)) _ _ found) [
      | inl (empty, later) ↦ skip (Listed-From stride slot_size k (suc i) lo hi later)
      | inr (filled, inr later) ↦ skip (Listed-From stride slot_size k (suc i) lo hi later)
      | inr (filled, inl (at, to)) ↦
          (i, omega arith, omega arith, at, to, ground (arith, filled, at, to))
    ]

here_or_later : (i j : ℕ) → i ≤ j → (i ≡ j) ⊎ (i < j)
here_or_later i j le = ground arith

From-Listed :
    (stride slot_size k i lo hi : ℕ)
    → From stride slot_size k i lo hi
    → Listed lo hi (strips stride slot_size k i)
unfolding strips
From-Listed stride slot_size zero i lo hi (j, le, lt, at, to, some_bytes) = absurd (omega arith)
From-Listed stride slot_size (suc k) i lo hi (j, le, lt, at, to, some_bytes) =
    let past = suc i * stride in
    let start = i * stride + slot_size in
    let later : i < j → Listed lo hi (strips stride slot_size k (suc i)) = λ beyond.
      From-Listed stride slot_size k (suc i) lo hi
        (j, omega arith, omega arith, at, to, some_bytes) in
    if-Listed lo hi (leb past start) _ _ (elim (Bool-cases (leb past start)) [
      | inl empty ↦ elim (here_or_later i j le) [
        | inl same ↦ absurd (
            ground (
              arith,
              empty,
              at ∙ ap (λ n. n * stride + slot_size) (sym same),
              to ∙ ap (λ n. suc n * stride) (sym same),
              some_bytes,
            ))
        | inr beyond ↦ inl (empty, later beyond)
      ]
      | inr filled ↦ elim (here_or_later i j le) [
        | inl same ↦ inr (
          filled,
          inl (
            at ∙ ap (λ n. n * stride + slot_size) (sym same),
            to ∙ ap (λ n. suc n * stride) (sym same),
          ),
        )
        | inr beyond ↦ inr (filled, inr (later beyond))
      ]
    ])

-- The walk that fails, and what it met.
visit-Overwritten :
    (p : ℕ → ℕ) (inner : List ℕ) (zs : List (ℕ × ℕ))
    → visit (check_zone (some p) inner) zs true ≡ false
    → (lo : ℕ) × (hi : ℕ) × Listed lo hi zs × (lo < hi) × Overwritten p inner lo hi
unfolding visit
visit-Overwritten p inner [] h = absurd cc
visit-Overwritten p inner ((lo, hi) ∷ zs) h =
    let round = visit-check_zone p inner lo hi zs in
    elim (Bool-cases (visit (check_zone (some p) inner) zs true)) [
      | inr off ↦
          let (a, b, found, some_bytes, bad) = visit-Overwritten p inner zs off in
          (a, b, inr found, some_bytes, bad)
      | inl fine ↦
          let within : in_bounds lo hi (length inner) ≡ true = ground (arith, h, round, fine) in
          let off : canary_intact (some p) (slice lo (hi - lo) inner) ≡ false =
            ground (arith, h, round, fine, within) in
          let differs : slice lo (hi - lo) inner ≢ pattern_bytes p 0 (hi - lo) =
            λ same. absurd (ground (arith, off, (zone_iff p inner lo hi within).1 same)) in
          (lo, hi, inl (refl, refl), ground (arith, within), (ground (arith, within), differs))
    ]

Overwritten-visit :
    (p : ℕ → ℕ) (inner : List ℕ) (lo hi : ℕ) (zs : List (ℕ × ℕ))
    → Listed lo hi zs
    → lo < hi
    → Overwritten p inner lo hi
    → visit (check_zone (some p) inner) zs true ≡ false
unfolding visit
Overwritten-visit p inner lo hi [] found some_bytes bad = absurd found
Overwritten-visit p inner lo hi ((a, b) ∷ zs) (inl (at, to)) some_bytes (le, bad) =
    let within : in_bounds lo hi (length inner) ≡ true = ground arith in
    let off : canary_intact (some p) (slice lo (hi - lo) inner) ≡ false =
      elim (Bool-cases (canary_intact (some p) (slice lo (hi - lo) inner))) [
        | inl same ↦ absurd (bad ((zone_iff p inner lo hi within).0 same))
        | inr off ↦ off
      ] in
    let round = visit-check_zone p inner lo hi zs in
    let there : (a, b) ≡ (lo, hi) = cc (at, to) in
    ap (λ z. visit (check_zone (some p) inner) (z ∷ zs) true) there
    ∙ ground (arith, round, within, off)
Overwritten-visit p inner lo hi ((a, b) ∷ zs) (inr later) some_bytes bad =
    let rest = Overwritten-visit p inner lo hi zs later some_bytes bad in
    ground (arith, visit-check_zone p inner a b zs, rest)

Zone-Listed : (c : CanaryLayout) (lo hi : ℕ) → Zone c lo hi → Listed lo hi (zones c)
unfolding zones
Zone-Listed c lo hi (some_bytes, inl (i, lt, at, to)) =
    append-Listed lo hi (strips c.stride c.slot_size c.count 0) _ (
      inl (
        From-Listed c.stride c.slot_size c.count 0 lo hi
          (i, omega arith, omega arith, at, to, some_bytes)))
Zone-Listed c lo hi (some_bytes, inr (at, to)) =
    append-Listed lo hi (strips c.stride c.slot_size c.count 0) _ (
      inr (
        if-Listed lo hi (ltb c.tail_lo c.tail_hi) ((c.tail_lo, c.tail_hi) ∷ []) []
          (inl (ground arith, inl (at, to)))))

Listed-Zone : (c : CanaryLayout) (lo hi : ℕ) → Listed lo hi (zones c) → Zone c lo hi
unfolding zones
Listed-Zone c lo hi found = elim (Listed-append lo hi _ _ found) [
  | inl strip ↦
      let (j, le, lt, at, to, some_bytes) =
        Listed-From c.stride c.slot_size c.count 0 lo hi strip in
      (some_bytes, inl (j, omega arith, at, to))
  | inr tail ↦ elim (Listed-if lo hi (ltb c.tail_lo c.tail_hi) _ _ tail) [
    | inl (filled, inl (at, to)) ↦ (ground (arith, filled, at, to), inr (at, to))
    | inl (filled, inr bad) ↦ absurd bad
    | inr (empty, bad) ↦ absurd bad
  ]
]

-- The check of a region fails exactly when some zone that ends at or before the region's end does not
-- hold the pattern: a strip behind a slot, up to the next slot, or the tail of the layout.
pub intact_iff :
    (p : ℕ → ℕ) (c : CanaryLayout) (inner : List ℕ)
    → (intact (some p) c inner ≡ false) ↔ Violated p c inner
unfolding intact
intact_iff p c inner = (
  λ h.
      let (lo, hi, found, some_bytes, bad) = visit-Overwritten p inner (zones c) h in
      (lo, hi, Listed-Zone c lo hi found, bad),
  λ (lo, hi, zone, bad).
      Overwritten-visit p inner lo hi (zones c) (Zone-Listed c lo hi zone) zone.0 bad,
)
