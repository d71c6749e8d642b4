-- ===== src/Quarantine/Fifo.antt =====
-- quarantine.go: the limits hold after every operation, the byte count is the total of what is held,
-- and reservations leave oldest first, each to exactly one unmap.
use secmem.Prelude.{
  ℕ, ◌+◌, ◌^◌, ◌≤◌, ◌<◌, ◌≡◌, ◌≢◌, refl, sym, subst, ◌∙◌, ap, ◌⊎◌, true, false, inl, inr, not, ◌||◌,
  ◌==◌, Bool-cases, List, [], ◌∷◌, ◌++◌, length, length-append, arith,
}
use mathlib.Core.List.{append-nil}
use secmem.Errors.{Err}
use secmem.Quarantine.{
  ℤ, Range, Limits, Quarantine, Calls, sub_u64, add_u64, over, trim_loop, trim_locked, clamp,
  set_quarantine_limits, enqueue, admits, replaced, retire_secret_mem,
}

unfoldable pub total : List Range → ℕ
total [] = 0
total (r ∷ rs) = r.size + total rs

total-append : (rs ss : List Range) → total (rs ++ ss) ≡ total rs + total ss
unfolding total
total-append [] ss = omega arith
total-append (r ∷ rs) ss = omega (arith, total-append rs ss)

-- The byte count is right and the limits hold.
pub record Valid (q : Quarantine) : Type 0 where
  pub counted : q.bytes ≡ total q.held
  pub few : length q.held ≤ q.limits.regions
  pub small : q.bytes ≤ q.limits.bytes

sub_u64_lem : (size rest : ℕ) → size + rest < 2 ^ 64 → sub_u64 (size + rest) size ≡ rest
unfolding sub_u64
sub_u64_lem size rest h = omega arith

add_u64_lem : (n size : ℕ) → n + size < 2 ^ 64 → add_u64 n size ≡ n + size
unfolding add_u64
add_u64_lem n size h = omega arith

-- More than the limits allow.
abbrev pub Exceeds : Limits → List Range → Type 0
Exceeds l rs = (l.regions < length rs) ⊎ (l.bytes < total rs)

-- No more was evicted than had to be: nothing, or what was kept would exceed the limits with the newest
-- of the evicted ranges before it.
abbrev pub Forced : Limits → (evicted kept : List Range) → Type 0
Forced l evicted kept =
    (evicted ≡ [])
    ⊎ ((older : List Range) × (newest : Range) × (evicted ≡ older ++ newest ∷ [])
        × Exceeds l (newest ∷ kept))

Forced-cons :
    (l : Limits) (r : Range) (evicted kept rs : List Range)
    → evicted ++ kept ≡ rs
    → Exceeds l (r ∷ rs)
    → Forced l evicted kept
    → Forced l (r ∷ evicted) kept
Forced-cons l r evicted kept rs whole more (inl none_left) = inr (
  [],
  r,
  ap (λ xs. r ∷ xs) none_left,
  subst (λ xs. Exceeds l (r ∷ xs)) (sym (sym (ap (λ xs. xs ++ kept) none_left) ∙ whole)) more,
)
Forced-cons l r evicted kept rs whole more (inr (older, newest, e, last)) =
    inr (r ∷ older, newest, ap (λ xs. r ∷ xs) e, last)

-- What the loop does to a list whose total is the byte count.
record Trims (l : Limits) (rs : List Range) (t : List Range × List Range × ℕ) : Type 0 where
  split : t.0 ++ t.1 ≡ rs
  counted : t.2 ≡ total t.1
  few : length t.1 ≤ l.regions
  small : t.2 ≤ l.bytes
  forced : Forced l t.0 t.1

over-Exceeds :
    (l : Limits) (rs : List Range) (bytes : ℕ)
    → bytes ≡ total rs
    → over l rs bytes ≡ true
    → Exceeds l rs
unfolding over
over-Exceeds l rs bytes e h = ground (arith, e, h)

trim_loop_lem :
    (l : Limits) (rs : List Range) (bytes : ℕ)
    → bytes ≡ total rs
    → total rs < 2 ^ 64
    → Trims l rs (trim_loop l rs bytes)
unfolding trim_loop total
trim_loop_lem l [] bytes e h = record {
  split = refl;
  counted = e;
  few = omega arith;
  small = omega arith;
  forced = inl refl;
}
trim_loop_lem l (r ∷ rs) bytes e h = elim (Bool-cases (over l (r ∷ rs) bytes)) [
  | inl more ↦
      let next : sub_u64 bytes r.size ≡ total rs = rw e (sub_u64_lem r.size (total rs) h) in
      let t = trim_loop_lem l rs (sub_u64 bytes r.size) next (omega arith) in
      rw more (record {
        split = ap (λ xs. r ∷ xs) t.split;
        counted = t.counted;
        few = t.few;
        small = t.small;
        forced = Forced-cons l r _ _ rs t.split (over-Exceeds l (r ∷ rs) bytes e more) t.forced;
      })
  | inr less ↦ rw less (record {
    split = refl;
    counted = e;
    few = unfold over in ground arith;
    small = unfold over in ground arith;
    forced = inl refl;
  })
]

-- trimLocked, from a right count.
pub record Trimmed (q : Quarantine) (r : Quarantine × List Range) : Type 0 where
  pub valid : Valid r.0
  pub fifo : r.1 ++ r.0.held ≡ q.held
  pub same_limits : r.0.limits ≡ q.limits
  pub forced : Forced q.limits r.1 r.0.held

trim_locked_lem :
    (q : Quarantine) → q.bytes ≡ total q.held → total q.held < 2 ^ 64 → Trimmed q (trim_locked q)
unfolding trim_locked
trim_locked_lem q e h =
    let t = trim_loop_lem q.limits q.held q.bytes e h in
    record {
      valid = record { counted = t.counted; few = t.few; small = t.small };
      fifo = t.split;
      same_limits = refl;
      forced = t.forced;
    }

-- What SetQuarantineLimits leaves: the clamped limits in force, and held by what is left of the queue.
pub record Limited (regions : ℤ) (bytes : ℕ) (q : Quarantine) (r : Quarantine × Limits × List Range)
    : Type 0 where
  pub valid : Valid r.0
  pub in_force : r.0.limits ≡ record { regions = clamp regions; bytes = bytes }
  pub previous : r.1 ≡ q.limits
  pub fifo : r.2 ++ r.0.held ≡ q.held

-- From a right byte count, and while the held ranges fit one 64-bit address space, SetQuarantineLimits
-- puts the new limits in force with a negative Regions as 0, returns the previous ones, and unmaps
-- oldest ranges first until the limits hold; every other range stays held, in order, and the byte
-- count is their total.
pub set_quarantine_limits-Limited :
    (regions : ℤ) (bytes : ℕ) (q : Quarantine)
    → q.bytes ≡ total q.held
    → total q.held < 2 ^ 64
    → Limited regions bytes q (set_quarantine_limits regions bytes q)
unfolding set_quarantine_limits
set_quarantine_limits-Limited regions bytes q e h =
    let t =
      trim_locked_lem (record q { limits = record { regions = clamp regions; bytes = bytes } }) e
        h in
    record { valid = t.valid; in_force = t.same_limits; previous = refl; fifo = t.fifo }

-- The queue takes a range at its end.
enqueue_lem :
    (r : Range) (q : Quarantine)
    → Valid q
    → total q.held + r.size < 2 ^ 64
    → Trimmed (record q { held = q.held ++ r ∷ []; bytes = add_u64 q.bytes r.size }) (enqueue r q)
unfolding enqueue total
enqueue_lem r q v h =
    trim_locked_lem _
      (rw (v.counted, add_u64_lem (total q.held) r.size h, total-append q.held (r ∷ []))
        (omega arith))
      (rw (total-append q.held (r ∷ [])) (omega arith))

-- A range that is held as the newest: the limits are as they were, what was unmapped are the oldest
-- ranges that were held, in their order and no more than had to be, and the rest is held as before.
abbrev pub HeldNewest : Range → Quarantine → Quarantine × List Range → Type 0
HeldNewest r q t =
    (rest : List Range) × (t.0.held ≡ rest ++ r ∷ [])
    × (t.1 ++ rest ≡ q.held)
    × (t.0.limits ≡ q.limits)
    × Forced q.limits t.1 t.0.held

-- Whether a range is to be held: the platform can, the range is not empty, and the limits have room for
-- it alone.
abbrev pub Suitable : Calls → Range → Quarantine → Type 0
Suitable os r q =
    (os.supported ≡ true) × (0 < r.size) × (0 < q.limits.regions) × (r.size ≤ q.limits.bytes)

abbrev pub Unsuitable : Calls → Range → Quarantine → Type 0
Unsuitable os r q =
    (os.supported ≡ false) ⊎ ((r.size ≡ 0) ⊎ ((q.limits.regions ≡ 0) ⊎ (q.limits.bytes < r.size)))

-- Where a retired range goes: to the unmap at once, if it is not to be held, or if its replacement
-- failed on a platform that keeps the range then; nowhere, with the error, if the replacement failed on
-- another platform; behind what is held, if it was replaced.
abbrev pub Retired : Calls → Range → Quarantine → Quarantine × List Range × Err → Type 0
Retired os r q t =
    ((Unsuitable os r q ⊎ ((os.quarantine r ≢ []) × (os.keeps_range ≡ true)))
      × (t.0 ≡ q)
      × (t.1 ≡ r ∷ []))
    ⊎ ((Suitable os r q
          × (os.quarantine r ≢ [])
          × (os.keeps_range ≡ false)
          × (t.0 ≡ q)
          × (t.1 ≡ [])
          × (t.2 ≢ []))
        ⊎ (Suitable os r q × (os.quarantine r ≡ []) × HeldNewest r q (t.0, t.1)))

-- Two ways to cut a list: the second part is empty, or it has the list's last element.
cut_at_end :
    (r : Range) (xs ys before : List Range)
    → xs ++ ys ≡ before ++ r ∷ []
    → (ys ≡ []) ⊎ ((rest : List Range) × (ys ≡ rest ++ r ∷ []) × (xs ++ rest ≡ before))
cut_at_end r [] ys before h = inr (before, h, refl)
cut_at_end r (x ∷ xs) [] [] h = inl refl
cut_at_end r (x ∷ xs) (y ∷ ys) [] h =
    absurd (ground (arith, ap length h, length-append xs (y ∷ ys)))
cut_at_end r (x ∷ xs) ys (b ∷ before) h =
    let first : x ≡ b = cc h in
    let later : xs ++ ys ≡ before ++ r ∷ [] = cc h in
    elim (cut_at_end r xs ys before later) [
      | inl empty ↦ inl empty
      | inr (rest, e, older) ↦ inr (rest, e, cc (first, older))
    ]

same_last :
    (newest r : Range) (older before : List Range)
    → older ++ newest ∷ [] ≡ before ++ r ∷ []
    → newest ≡ r
same_last newest r older before h = elim (cut_at_end r older (newest ∷ []) before h) [
  | inl bad ↦ absurd cc
  | inr ([], e, whole) ↦ cc e
  | inr (x ∷ rest, e, whole) ↦ absurd (ground (arith, ap length e, length-append rest (r ∷ [])))
]

no_last :
    (l : Limits) (r : Range) (before evicted : List Range)
    → 0 < l.regions
    → r.size ≤ l.bytes
    → evicted ≡ before ++ r ∷ []
    → Forced l evicted []
    → ⊥
unfolding total
no_last l r before evicted some_room fits whole (inl none_left) =
    ground (arith, ap length (sym none_left ∙ whole), length-append before (r ∷ []))
no_last l r before evicted some_room fits whole (inr (older, newest, e, inl many)) = omega arith
no_last l r before evicted some_room fits whole (inr (older, newest, e, inr much)) =
    let same = same_last newest r older before (sym e ∙ whole) in
    omega (arith, ap (λ (x : Range). x.size) same)

-- A range alone does not exceed limits that admit it, so the eviction stops before it.
last_kept :
    (l : Limits) (r : Range) (before evicted kept : List Range)
    → 0 < l.regions
    → r.size ≤ l.bytes
    → evicted ++ kept ≡ before ++ r ∷ []
    → Forced l evicted kept
    → (rest : List Range) × (kept ≡ rest ++ r ∷ []) × (evicted ++ rest ≡ before)
last_kept l r before evicted kept some_room fits whole forced =
    elim (cut_at_end r evicted kept before whole) [
      | inr found ↦ found
      | inl empty ↦
          absurd (no_last l r before evicted some_room fits (all_of empty) (left_of empty))
    ]
  where
    all_of : kept ≡ [] → evicted ≡ before ++ r ∷ []
    all_of empty = sym (append-nil evicted) ∙ ap (λ k. evicted ++ k) (sym empty) ∙ whole

    left_of : kept ≡ [] → Forced l evicted []
    left_of empty = subst (Forced l evicted) empty forced

replaced_lem :
    (os : Calls) (r : Range) (q : Quarantine) (e : Err)
    → os.quarantine r ≡ e
    → Valid q
    → total q.held + r.size < 2 ^ 64
    → Suitable os r q
    → Valid (replaced os r q e).0 × Retired os r q (replaced os r q e)
unfolding replaced
replaced_lem os r q [] answer v h suits =
    let t = enqueue_lem r q v h in
    let (rest, newest, older) = last_kept q.limits r q.held _ _ suits.2 suits.3 t.fifo t.forced in
    (t.valid, inr (inr (suits, answer, (rest, newest, older, t.same_limits, t.forced))))
replaced_lem os r q (e ∷ es) answer v h suits =
    let failed : os.quarantine r ≢ [] = λ none_failed. cc (answer, none_failed) in
    elim (Bool-cases os.keeps_range) [
      | inl keeps ↦ rw keeps (v, inl (inr (failed, refl), refl, refl))
      | inr lost ↦ rw lost (v, inr (inl (suits, failed, refl, refl, refl, λ q. ground arith)))
    ]

-- While the held ranges and the new one fit one 64-bit address space, retireSecretMem keeps the
-- quarantine valid: the limits hold and the byte count is the total of what is held. A range that the
-- platform cannot hold, that is empty or that the limits have no room for is unmapped at once. Any other
-- is held as the newest if its replacement succeeds, with the oldest held ranges unmapped in their
-- order, only as many as the limits demand; if it fails, the range is unmapped where the platform keeps
-- it then, and left with an error where not.
pub retire_secret_mem-Valid :
    (os : Calls) (r : Range) (q : Quarantine)
    → Valid q
    → total q.held + r.size < 2 ^ 64
    → Valid (retire_secret_mem os r q).0 × Retired os r q (retire_secret_mem os r q)
unfolding retire_secret_mem admits
retire_secret_mem-Valid os r q v h = elim (Bool-cases (not os.supported || (r.size == 0))) [
  | inl off ↦
      let why : Unsuitable os r q = ground (arith, off) in rw off (v, inl (inl why, refl, refl))
  | inr on ↦ elim (Bool-cases (admits q r)) [
    | inr less ↦
        let why : Unsuitable os r q = ground (arith, less) in
        rw (on, less) (v, inl (inl why, refl, refl))
    | inl more ↦
        let suits : Suitable os r q =
          (ground (arith, on), ground (arith, on), ground (arith, more), ground (arith, more)) in
        rw (on, more) (replaced_lem os r q (os.quarantine r) refl v h suits)
  ]
]
