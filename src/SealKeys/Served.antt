-- ===== src/SealKeys/Served.antt =====
-- sealauth.go, withPrekey: a generation has one prekey.
use secmem.Prelude.{
  ℕ, ◌+◌, ◌≡◌, refl, sym, ap, ◌∙◌, ◌⊎◌, inl, inr, Bool-cases, Option-cases, false, none, some, List,
  [], write, arith,
}
use secmem.Errors.{Result, ok, err}
use secmem.Registry.{u64}
use secmem.Registry.Memory.{World, set_mem}
use secmem.SealKeys.{
  Keyring, Source, reclaim, fill_prekey, make_prekey, init_locked, lend, lend_made, with_prekey,
}

-- What other goroutines do to a prekey is to wipe it: where its flag is down, its bytes stand, and a
-- flag that is up stays up.
pub record WipesOnly (others : World → World) : Type 0 where
  pub untouched :
      (w : World) (id : ℕ)
      → ((others w).mem id).wiped ≡ false
      → ((w.mem id).wiped ≡ false) × (((others w).mem id).inner ≡ (w.mem id).inner)

-- The keyring's region, while its flag is down, holds `prekey`.
pub record Keeps (prekey : List ℕ) (k : Keyring) (w : World) : Type 0 where
  pub kept : (id : ℕ) → k.region ≡ some id → (w.mem id).wiped ≡ false → (w.mem id).inner ≡ prekey

-- The bytes of a prekey made out of a source.
abbrev pub drawn : Source → List ℕ
drawn s = elim s.alloc [ none ↦ [] | some (id, m, size) ↦ write 0 s.random.0 m.inner ]

-- What initLocked leaves when it succeeds.
make_prekey-ok :
    (s : Source) (k : Keyring) (w : World) {k' : Keyring} {w' : World} {id : ℕ}
    → make_prekey s k w ≡ (k', w', ok id)
    → (k'.region ≡ some id) × (k'.gen ≡ u64 (k.gen + 1)) × ((w'.mem id).inner ≡ drawn s)
unfolding make_prekey fill_prekey set_mem
make_prekey-ok s k w {k'} {w'} {id} e = (ground arith, ground arith, ground arith)

-- A prekey that was lent, and the keyring after it.
pub record Lent (p : List ℕ) (s : Source) (k k' : Keyring) (w' : World) (q : List ℕ) (g : ℕ)
    : Type 0 where
  -- Of the generation that was, or of the next.
  pub origin : ((k' ≡ k) × (q ≡ p)) ⊎ ((k'.gen ≡ u64 (k.gen + 1)) × (q ≡ drawn s))
  pub current : g ≡ k'.gen
  pub not_wiped : (id : ℕ) → k'.region ≡ some id → (w'.mem id).wiped ≡ false
  pub again : Keeps q k' w'

pub lend_made-ok :
    (others : World → World) (made : Keyring × World × Result ℕ) {k' : Keyring} {w' : World}
    {q : List ℕ} {g : ℕ}
    → lend_made others made ≡ (k', w', ok (q, g))
    → (id : ℕ) × (made.2 ≡ ok id)
      × (k' ≡ made.0)
      × (w' ≡ others made.1)
      × (((others made.1).mem id).wiped ≡ false)
      × (q ≡ ((others made.1).mem id).inner)
      × (g ≡ made.0.gen)
unfolding lend_made lend
lend_made-ok others (k, w, err x) e = absurd (ground arith)
lend_made-ok others (k, w, ok id) e =
    (id, refl, ground arith, ground arith, ground arith, ground arith, ground arith)

pub init_locked-ok :
    (s : Source) (k : Keyring) (w : World) {id : ℕ}
    → (init_locked s k w).2 ≡ ok id
    → ((init_locked s k w).0.region ≡ some id)
      × ((init_locked s k w).0.gen ≡ u64 (k.gen + 1))
      × (((init_locked s k w).1.mem id).inner ≡ drawn s)
unfolding init_locked reclaim
init_locked-ok s k w {id} e =
    ground (arith, make_prekey-ok s (reclaim s k w).0 (reclaim s k w).1 {id = id})

module _ (s : Source) (others : World → World) (k : Keyring) (w : World) (only : WipesOnly others)
    (p : List ℕ) {k' : Keyring} {w' : World} {q : List ℕ} {g : ℕ} where
  from_new : lend_made others (init_locked s k w) ≡ (k', w', ok (q, g)) → Lent p s k k' w' q g
  from_new e =
      let (id, made, ring, world, down, bytes, gen) =
        lend_made-ok others (init_locked s k w) {k' = k'} {w' = w'} {q = q} {g = g} e in
      let (region, next, contents) = init_locked-ok s k w {id = id} made in
      let (_, still) = only.untouched (init_locked s k w).1 id down in
      let here : k'.region ≡ some id = ap (λ (x : Keyring). x.region) ring ∙ region in
      record {
        origin = inr (ap (λ (x : Keyring). x.gen) ring ∙ next, bytes ∙ still ∙ contents);
        current = gen ∙ ap (λ (x : Keyring). x.gen) (sym ring);
        not_wiped = λ i f. ground arith;
        again = record { kept = λ i f d. ground arith };
      }

  from_old :
      (id : ℕ)
      → k.region ≡ some id
      → (w.mem id).wiped ≡ false
      → Keeps p k w
      → lend_made others (k, w, ok id) ≡ (k', w', ok (q, g))
      → Lent p s k k' w' q g
  from_old id here up keeps e =
      let (i, made, ring, world, down, bytes, gen) =
        lend_made-ok others (k, w, ok id) {k' = k'} {w' = w'} {q = q} {g = g} e in
      let same : i ≡ id = ground arith in
      let (_, still) = only.untouched w i down in
      let prekey : q ≡ p = bytes ∙ still ∙ keeps.kept i (ground arith) (ground arith) in
      record {
        origin = inl (ring, prekey);
        current = gen ∙ ap (λ (x : Keyring). x.gen) (sym ring);
        not_wiped = λ j f. ground arith;
        again = record { kept = λ j f d. ground arith };
      }

-- While other goroutines do nothing to a prekey but wipe it, and the keyring's region holds `p` unless
-- it is wiped: a prekey that withPrekey lends is `p` under an unchanged keyring, or what rand.Read
-- gave for a new region under the next generation; the generation lent with it is the keyring's, its
-- region is not wiped when it is lent, and the keyring's region holds it again unless it is wiped.
pub with_prekey-Lent :
    (s : Source) (others : World → World) (k : Keyring) (w : World) (p : List ℕ) {k' : Keyring}
    {w' : World} {q : List ℕ} {g : ℕ}
    → WipesOnly others
    → Keeps p k w
    → with_prekey s others k w ≡ (k', w', ok (q, g))
    → Lent p s k k' w' q g
unfolding with_prekey
with_prekey-Lent s others k w p {k'} {w'} {q} {g} only keeps e = elim (Option-cases k.region) [
  | inl n ↦ from_new s others k w only p {k' = k'} {w' = w'} {q = q} {g = g} (ground arith)
  | inr (id, here) ↦ elim (Bool-cases (w.mem id).wiped) [
    | inl up ↦ from_new s others k w only p {k' = k'} {w' = w'} {q = q} {g = g} (ground arith)
    | inr down ↦
        from_old s others k w only p {k' = k'} {w' = w'} {q = q} {g = g} id here down keeps
          (ground arith)
  ]
]
