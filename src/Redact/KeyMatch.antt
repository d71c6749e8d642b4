-- ===== src/Redact/KeyMatch.antt =====
-- redact/handler.go: keySet.match against the paths that it stands for.
use secmem.Prelude.{
  append-take-drop, take-append, drop-append, Some, ℕ, zero, suc, ◌+◌, ◌-◌, ◌≤◌, ◌<◌, Bool, true,
  ltb, List, [], ◌∷◌, ◌++◌, length, length-append, length-take, length-drop, take, drop, Bool-cases,
  ltb→lt, equal_bytes→eq, equal_bytes_self, ◌≡◌, ◌↔◌, inl, inr, refl, sym, ap, subst, ◌∙◌, arith,
}
use secmem.Redact.{equal_comps, scan, match_entries, match}

equal_comps→eq :
    (xs bs : List (List ℕ)) → length xs ≡ length bs → equal_comps xs bs ≡ true → xs ≡ bs
unfolding equal_comps
equal_comps→eq [] [] h e = refl
equal_comps→eq [] (b ∷ bs) h e = absurd (omega arith)
equal_comps→eq (a ∷ xs) [] h e = absurd (omega arith)
equal_comps→eq (a ∷ xs) (b ∷ bs) h e = ground (arith, equal_bytes→eq a b, equal_comps→eq xs bs)

equal_comps_self : (xs : List (List ℕ)) → equal_comps xs xs ≡ true
unfolding equal_comps
equal_comps_self [] = refl
equal_comps_self (a ∷ xs) = ground (arith, equal_bytes_self a, equal_comps_self xs)

-- A run of components in a path, with fewer than k behind it.
abbrev pub Reaches : (path : List (List ℕ)) (k : ℕ) (e : List (List ℕ)) → Type 0
Reaches path k e =
    (before : List (List ℕ)) × (after : List (List ℕ)) × (path ≡ before ++ (e ++ after))
    × (length after < k)

-- A place that the scan finds.
scan-place :
    (n i : ℕ) (path e : List (List ℕ))
    → scan n i path e ≡ true
    → (j : ℕ) × (i ≤ j) × (j < i + n) × (equal_comps (take (length e) (drop j path)) e ≡ true)
unfolding scan
scan-place zero i path e h = absurd cc
scan-place (suc n) i path e h = elim (Bool-cases (equal_comps (take (length e) (drop i path)) e)) [
  | inl found ↦ (i, omega arith, omega arith, found)
  | inr missed ↦
      let (j, low, high, found) = scan-place n (suc i) path e (ground (arith, h, missed)) in
      (j, omega arith, omega arith, found)
]

place-scan :
    (n i j : ℕ) (path e : List (List ℕ))
    → i ≤ j
    → j < i + n
    → equal_comps (take (length e) (drop j path)) e ≡ true
    → scan n i path e ≡ true
unfolding scan
place-scan zero i j path e low high found = absurd (omega arith)
place-scan (suc n) i j path e low high found = elim (Bool-cases (ltb i j)) [
  | inl later ↦
      let rest = place-scan n (suc i) j path e (ltb→lt i j later) (omega arith) found in
      ground (arith, rest)
  | inr here ↦
      let same : i ≡ j = ground (arith, here) in
      let at : equal_comps (take (length e) (drop i path)) e ≡ true =
        subst (λ k. equal_comps (take (length e) (drop k path)) e ≡ true) (sym same) found in
      ground (arith, at)
]

-- A run that starts at place j.
place-Reaches :
    (path e : List (List ℕ)) (k j : ℕ)
    → j + length e ≤ length path
    → length path < j + length e + k
    → equal_comps (take (length e) (drop j path)) e ≡ true
    → Reaches path k e
place-Reaches path e k j fits deep found =
    let mid = drop j path in
    let sizes = length-drop j path in
    let eq : take (length e) mid ≡ e =
      equal_comps→eq (take (length e) mid) e (omega (arith, length-take (length e) mid, sizes))
        found in
    (
      take j path,
      drop (length e) mid,
      append-take-drop j path
          ∙ ap (λ r. take j path ++ r)
              (append-take-drop (length e) mid ∙ ap (λ r. r ++ drop (length e) mid) eq),
      omega (arith, length-drop (length e) mid, sizes),
    )

Reaches-place :
    (path e : List (List ℕ)) (k : ℕ)
    → Reaches path k e
    → (j : ℕ) × (j + length e ≤ length path)
      × (length path < j + length e + k)
      × (equal_comps (take (length e) (drop j path)) e ≡ true)
Reaches-place path e k (before, after, whole, deep) =
    let sizes = ap length whole in
    let one = length-append before (e ++ after) in
    let two = length-append e after in
    let cut : take (length e) (drop (length before) path) ≡ e =
      ap (λ p. take (length e) (drop (length before) p)) whole
      ∙ ap (take (length e)) (drop-append before (e ++ after))
      ∙ take-append e after in
    (
      length before,
      omega (arith, sizes, one, two),
      omega (arith, sizes, one, two, deep),
      ap (λ xs. equal_comps xs e) cut ∙ equal_comps_self e,
    )

-- The places that the loop of match goes over.
entry_scan : (path e : List (List ℕ)) (k : ℕ) → Bool
entry_scan path e k =
    let first = length path - k + 1 - length e in
    scan (length path - length e + 1 - first) first path e

scan-Reaches :
    (path e : List (List ℕ)) (k : ℕ)
    → k ≤ length path
    → length e ≤ length path
    → (entry_scan path e k ≡ true) ↔ Reaches path k e
unfolding entry_scan
scan-Reaches path e k h fits =
    let first = length path - k + 1 - length e in
    let n = length path - length e + 1 - first in
    (
      λ found.
          let (j, low, high, at) = scan-place n first path e found in
          place-Reaches path e k j (omega arith) (omega arith) at,
      λ r.
          let (j, inside, deep, at) = Reaches-place path e k r in
          place-scan n first j path e (omega arith) (omega arith) at,
    )

Reaches-length : (path e : List (List ℕ)) (k : ℕ) → Reaches path k e → length e ≤ length path
Reaches-length path e k r = let (j, inside, _, _) = Reaches-place path e k r in omega arith

match_entries_iff :
    (path : List (List ℕ)) (k : ℕ) (es : List (List (List ℕ)))
    → k ≤ length path
    → (match_entries path k es ≡ true) ↔ Some (Reaches path k) es
unfolding match_entries entry_scan
match_entries_iff path k [] h = ground arith
match_entries_iff path k (e ∷ es) h =
    let (there, back) = match_entries_iff path k es h in
    elim (Bool-cases (ltb (length path) (length e))) [
      | inl long ↦ (
        λ m. inr (there (ground (arith, m, long))),
        λ (s : Some (Reaches path k) (e ∷ es)). elim s [
          | inl here ↦ absurd (omega (arith, Reaches-length path e k here, ltb→lt _ _ long))
          | inr later ↦ ground (arith, long, back later)
        ],
      )
      | inr short ↦
          let (inward, outward) = scan-Reaches path e k h (ground (arith, short)) in
          (
            λ m. elim (Bool-cases (entry_scan path e k)) [
              | inl found ↦ inl (inward found)
              | inr missed ↦ inr (there (ground (arith, m, short, missed)))
            ],
            λ (s : Some (Reaches path k) (e ∷ es)). elim s [
              | inl here ↦ let found = outward here in ground (arith, short, found)
              | inr later ↦ let rest = back later in ground (arith, short, rest)
            ],
          )
    ]

-- keySet.match: some entry stands in the path as a run of whole components that ends within the last
-- k, the key's own.
pub match_iff :
    (entries : List (List (List ℕ))) (path : List (List ℕ)) (k : ℕ)
    → k ≤ length path
    → (match entries path k ≡ true) ↔ ((0 < k) × Some (Reaches path k) entries)
unfolding match
match_iff entries path k h =
    let (there, back) = match_entries_iff path k entries h in
    (
      λ m. (ground (arith, m), there (ground (arith, m))),
      λ (pos, s). let found = back s in ground (arith, pos, found),
    )
