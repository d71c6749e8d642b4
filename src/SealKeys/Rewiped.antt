-- ===== src/SealKeys/Rewiped.antt =====
-- sealauth.go and registry.go: after WipeAllSecrets no tag of the old prekey verifies.
use secmem.Prelude.{ℕ, ◌+◌, ◌≡◌, ◌≢◌, sym, ◌∙◌, ◌⊎◌, inl, inr, Bool, true, some, List, [], arith}
use secmem.Errors.{Error, ok, err, fail, wiped}
use secmem.Canary.{Pattern}
use secmem.Registry.{u64}
use secmem.Registry.Sets.{Apart, id_of}
use secmem.Registry.Memory.{World, wipe_all_in_place}
use secmem.Registry.Wipe.{Cleared}
use secmem.Registry.WipeAll.{listed, wipe_all_in_place-Cleared}
use secmem.Buffer.{Buffer}
use secmem.Buffer.Seal.{Auth, seal_verify}
use secmem.Buffer.Sealed.{prekey_cases}
use secmem.SealKeys.{Keyring, Source, init_locked, lend_made, with_prekey}
use secmem.SealKeys.Served.{lend_made-ok, init_locked-ok}

next_gen : (g : ℕ) → u64 (g + 1) ≢ g
next_gen g e = omega arith

-- A keyring whose region is wiped lends the next generation or none.
stale_gen :
    (s : Source) (others : World → World) (k : Keyring) (w : World) (id : ℕ) {q : List ℕ} {g : ℕ}
    → k.region ≡ some id
    → (w.mem id).wiped ≡ true
    → (with_prekey s others k w).2 ≡ ok (q, g)
    → g ≡ u64 (k.gen + 1)
unfolding with_prekey
stale_gen s others k w id {q} {g} here up e =
    let r = lend_made others (init_locked s k w) in
    let same : with_prekey s others k w ≡ r = ground arith in
    let (i, made, ring, world, down, bytes, gen) =
      lend_made-ok others (init_locked s k w) {k' = r.0} {w' = r.1} {q = q} {g = g}
        (ground arith) in
    let (region, next, contents) = init_locked-ok s k w {id = i} made in gen ∙ next

-- What sealVerify of a buffer of generation `g` says to a prekey of another, or to none.
verify-other_gen :
    (a : Auth) (inner : List ℕ) (b : Buffer)
    → ((q : List ℕ) (g : ℕ) → a.prekey ≡ ok (q, g) → g ≢ b.seal_gen)
    → (seal_verify a inner b ≡ fail wiped)
      ⊎ ((x : Error) × (a.prekey ≡ err x) × (seal_verify a inner b ≡ fail x))
unfolding seal_verify
verify-other_gen a inner b other = elim (prekey_cases a.prekey) [
  | inl (x, e) ↦ inr (x, e, ground arith)
  | inr ((q, g), e) ↦ let ne = other q g e in inl (ground arith)
]

-- Where no key is in both sets: after a WipeAllSecrets in which every deferred key gets its turn, and
-- which could make the registered prekey's region writable, sealVerify of a buffer whose tag was taken
-- under that prekey reports ErrWiped whatever the buffer holds, or the error for which withPrekey
-- could not lend another prekey; whatever other goroutines do while it is lent.
pub seal_verify-after_wipe :
    (s : Source) (pat : Pattern) (others : World → World) (locked : ℕ → Bool)
    (order : List ℕ → List ℕ) (k : Keyring) (id : ℕ) (w : World) (a : Auth) (inner : List ℕ)
    (b : Buffer)
    → ((ks : List ℕ) → listed k.key ks ≡ true → listed k.key (order ks) ≡ true)
    → Apart w.janitor
    → k.region ≡ some id
    → id_of k.key w.janitor ≡ some id
    → s.os.restore id ≡ []
    → b.seal_gen ≡ k.gen
    → a.prekey ≡ (with_prekey s others k (wipe_all_in_place s.os pat locked order w).0).2
    → (seal_verify a inner b ≡ fail wiped)
      ⊎ ((x : Error) × (a.prekey ≡ err x) × (seal_verify a inner b ≡ fail x))
seal_verify-after_wipe s pat others locked order k id w a inner b fair sets here filed grant tagged
      answer =
    let w1 : World = (wipe_all_in_place s.os pat locked order w).0 in
    let c : Cleared w1 id =
      wipe_all_in_place-Cleared s.os pat locked order k.key id w fair sets filed grant in
    verify-other_gen a inner b (λ q g e same. next_gen k.gen (
      sym (stale_gen s others k w1 id {q = q} {g = g} here c.flagged (sym answer ∙ e))
      ∙ same
      ∙ tagged))
