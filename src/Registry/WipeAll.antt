-- ===== src/Registry/WipeAll.antt =====
-- registry.go, wipeAllInPlace: the two passes together clear every region that is registered when they
-- start and can be made writable, whichever locks are held and in whatever order they are freed.
use secmem.Prelude.{
  ℕ, ◌≡◌, refl, sym, subst, ◌⊎◌, inl, inr, Bool, true, false, ◌||◌, if◌then◌else◌, ◌==◌, ==_iff,
  Bool-cases, Option-cases, some, List, [], ◌∷◌, ◌++◌, arith,
}
use secmem.Canary.{Pattern}
use secmem.KeyMap.{lookup, keys}
use secmem.Registry.{peek_any}
use secmem.Registry.Sets.{Apart, id_of}
use secmem.Registry.Memory.{
  System, World, wipe_in_place, try_wipe_in_place, first_pass, second_pass, wipe_all_in_place,
}
use secmem.Registry.Wipe.{
  Cleared, Tracks, wipe_in_place-Cleared, wipe_in_place-Tracks, wipe_in_place-stays,
}

unfoldable pub listed : ℕ → List ℕ → Bool
listed k [] = false
listed k (x ∷ xs) = (x == k) || listed k xs

listed-append : (k : ℕ) (xs ys : List ℕ) → listed k (xs ++ ys) ≡ (listed k xs || listed k ys)
unfolding listed
listed-append k [] ys = refl
listed-append k (x ∷ xs) ys = ground (arith, listed-append k xs ys)

listed-keys :
    {V : Type 0} (k : ℕ) (m : List (ℕ × V)) {v : V} → lookup k m ≡ some v → listed k (keys m) ≡ true
unfolding listed lookup
listed-keys k [] e = absurd (ground arith)
listed-keys k ((j, x) ∷ m) {v} e = elim (Bool-cases (j == k)) [
  | inl same ↦ rw same refl
  | inr ne ↦
      let rest : listed k (keys m) ≡ true = listed-keys k m {v = v} (ground arith) in rw ne rest
]

registered-listed :
    (key id : ℕ) (w : World)
    → id_of key w.janitor ≡ some id
    → listed key (keys w.janitor.regions ++ keys w.janitor.wiped) ≡ true
unfolding peek_any
registered-listed key id w e = elim (Option-cases (lookup key w.janitor.regions)) [
  | inr (r, p) ↦ ground (
    arith,
    listed-append key (keys w.janitor.regions) (keys w.janitor.wiped),
    listed-keys key w.janitor.regions p,
  )
  | inl n ↦ elim (Option-cases (lookup key w.janitor.wiped)) [
    | inl n' ↦ absurd (ground arith)
    | inr (r, p) ↦ ground (
      arith,
      listed-append key (keys w.janitor.regions) (keys w.janitor.wiped),
      listed-keys key w.janitor.wiped p,
    )
  ]
]

-- A try is a wipe in place, or does nothing and says so.
try_lem :
    (os : System) (pat : Pattern) (locked : ℕ → Bool) (key : ℕ) (w : World)
    → (((try_wipe_in_place os pat locked key w).0 ≡ (wipe_in_place os pat key w).0)
        × ((try_wipe_in_place os pat locked key w).1 ≡ true))
      ⊎ (((try_wipe_in_place os pat locked key w).0 ≡ w)
          × ((try_wipe_in_place os pat locked key w).1 ≡ false))
unfolding try_wipe_in_place wipe_in_place
try_lem os pat locked key w = elim (Option-cases (peek_any key w.janitor)) [
  | inl n ↦ inl (ground arith, ground arith)
  | inr (r, e) ↦ elim (Bool-cases (locked r.id)) [
    | inl busy ↦ inr (ground arith, ground arith)
    | inr free ↦ inl (ground arith, ground arith)
  ]
]

-- What every step keeps, both passes keep.
module _ (os : System) (pat : Pattern) (P : World → Type 0)
    (step : (key : ℕ) (w : World) → P w → P (wipe_in_place os pat key w).0) where
  try_keeps :
      (locked : ℕ → Bool) (key : ℕ) (w : World) → P w → P (try_wipe_in_place os pat locked key w).0
  try_keeps locked key w p = elim (try_lem os pat locked key w) [
    | inl (same, _) ↦ subst P (sym same) (step key w p)
    | inr (same, _) ↦ subst P (sym same) p
  ]

  first_keeps :
      (locked : ℕ → Bool) (ks : List ℕ) (w : World) → P w → P (first_pass os pat locked ks w).0
  unfolding first_pass
  first_keeps locked [] w p = p
  first_keeps locked (k ∷ ks) w p =
      first_keeps locked ks (try_wipe_in_place os pat locked k w).0 (try_keeps locked k w p)

  second_keeps : (ks : List ℕ) (w : World) → P w → P (second_pass os pat ks w).0
  unfolding second_pass
  second_keeps [] w p = p
  second_keeps (k ∷ ks) w p = second_keeps ks (wipe_in_place os pat k w).0 (step k w p)

module _ (os : System) (pat : Pattern) (key id : ℕ) (grant : os.restore id ≡ []) where
  stays : (k : ℕ) (w : World) → Cleared w id → Cleared (wipe_in_place os pat k w).0 id
  stays k w c = wipe_in_place-stays os pat k id w c

  tracked : (k : ℕ) (w : World) → Tracks key id w → Tracks key id (wipe_in_place os pat k w).0
  tracked k w t = wipe_in_place-Tracks os pat k key id w t

  -- The blocking pass clears what is in its list.
  second_clears :
      (ks : List ℕ) (w : World)
      → listed key ks ≡ true
      → Tracks key id w
      → Cleared (second_pass os pat ks w).0 id
  unfolding second_pass listed
  second_clears [] w e t = absurd (ground arith)
  second_clears (k ∷ ks) w e t = elim (Bool-cases (k == key)) [
    | inl same ↦
        second_keeps os pat (λ x. Cleared x id) stays ks (wipe_in_place os pat k w).0
          (wipe_in_place-Cleared os pat k id w (rw ((==_iff k key).0 same) t.filed) grant)
    | inr ne ↦ second_clears ks (wipe_in_place os pat k w).0 (ground arith) (tracked k w t)
  ]

  -- The first pass clears what is in its list, or leaves its key to the second.
  first_clears :
      (locked : ℕ → Bool) (ks : List ℕ) (w : World)
      → listed key ks ≡ true
      → Tracks key id w
      → Cleared (first_pass os pat locked ks w).0 id
        ⊎ (listed key (first_pass os pat locked ks w).1 ≡ true)
  unfolding first_pass listed
  first_clears locked [] w e t = absurd (ground arith)
  first_clears locked (k ∷ ks) w e t = elim (Bool-cases (k == key)) [
    | inr ne ↦
        later _ (try_wipe_in_place os pat locked k w).1
          (first_clears locked ks (try_wipe_in_place os pat locked k w).0 (ground arith) after)
    | inl same ↦ elim (try_lem os pat locked k w) [
      | inl (world, _) ↦ inl (kept ks (subst (λ x. Cleared x id) (sym world) (wiped same)))
      | inr (_, busy) ↦ inr (ground arith)
    ]
  ]
    where
      after : Tracks key id (try_wipe_in_place os pat locked k w).0
      after = try_keeps os pat (Tracks key id) tracked locked k w t

      wiped : (k == key) ≡ true → Cleared (wipe_in_place os pat k w).0 id
      wiped same = wipe_in_place-Cleared os pat k id w (rw ((==_iff k key).0 same) t.filed) grant

      kept :
          (xs : List ℕ)
          → Cleared (try_wipe_in_place os pat locked k w).0 id
          → Cleared (first_pass os pat locked xs (try_wipe_in_place os pat locked k w).0).0 id
      kept xs c = first_keeps os pat (λ x. Cleared x id) stays locked xs _ c

      later :
          {A : Type 0} (xs : List ℕ) (done : Bool)
          → A ⊎ (listed key xs ≡ true)
          → A ⊎ (listed key (if done then xs else k ∷ xs) ≡ true)
      later xs done (inl a) = inl a
      later xs true (inr h) = inr h
      later xs false (inr h) = inr (ground arith)

-- Where no key is in both sets: for every region that is registered when WipeAllSecrets starts, under
-- whatever key, and whose write access can be restored, it ends with the region zeroed and its owner
-- flagged, whichever locks are held at the first pass, if the deferred keys all get their turn.
pub wipe_all_in_place-Cleared :
    (os : System) (pat : Pattern) (locked : ℕ → Bool) (order : List ℕ → List ℕ) (key id : ℕ)
    (w : World)
    → ((ks : List ℕ) → listed key ks ≡ true → listed key (order ks) ≡ true)
    → Apart w.janitor
    → id_of key w.janitor ≡ some id
    → os.restore id ≡ []
    → Cleared (wipe_all_in_place os pat locked order w).0 id
unfolding wipe_all_in_place
wipe_all_in_place-Cleared os pat locked order key id w fair sets filed grant =
    elim (first_clears os pat key id grant locked ks w (registered-listed key id w filed) t) [
      | inl c ↦ second_keeps os pat (λ x. Cleared x id) (stays os pat key id grant) _ _ c
      | inr left ↦
          second_clears os pat key id grant _ _ (fair _ left)
            (first_keeps os pat (Tracks key id) (tracked os pat key id grant) locked ks w t)
    ]
  where
    ks : List ℕ
    ks = keys w.janitor.regions ++ keys w.janitor.wiped

    t : Tracks key id w
    t = record { filed = filed; sets = sets }

-- Where no key is in both sets, WipeAllSecrets loses no registration: every key that was registered is
-- in one of the sets under the identity that it had, and no key is in both.
pub wipe_all_in_place-Tracks :
    (os : System) (pat : Pattern) (locked : ℕ → Bool) (order : List ℕ → List ℕ) (key id : ℕ)
    (w : World)
    → Tracks key id w
    → Tracks key id (wipe_all_in_place os pat locked order w).0
unfolding wipe_all_in_place
wipe_all_in_place-Tracks os pat locked order key id w t =
    second_keeps os pat (Tracks key id) step _ _
      (first_keeps os pat (Tracks key id) step locked _ w t)
  where
    step : (k : ℕ) (x : World) → Tracks key id x → Tracks key id (wipe_in_place os pat k x).0
    step k x = wipe_in_place-Tracks os pat k key id x
