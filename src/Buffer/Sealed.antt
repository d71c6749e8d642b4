-- ===== src/Buffer/Sealed.antt =====
-- securebuf.go, Seal: what it leaves when it reports no error, and the tag that it takes.
use secmem.Prelude.{
  ℕ, ◌≡◌, refl, ap, ◌∙◌, ◌≢◌, ◌⊎◌, inl, inr, Bool-cases, Bool, true, false, not, ◌&&◌, ◌||◌, List,
  [], ◌∷◌, arith,
}
use secmem.Errors.{Error, Err, Result, ok, err}
use secmem.Region.{Mapping, Prot, prot_none, prot_rw}
use secmem.Buffer.{Buffer, Calls}
use secmem.Buffer.Seal.{
  Auth, constant_time_compare, take_tag, seal_authenticate, seal_verify, rollback_seal, seal_close,
  seal_tagging, seal_bytes, seal_lift, seal,
}

abbrev pub is_empty : Err → Bool
is_empty [] = true
is_empty (e ∷ es) = false

pub prekey_cases :
    (r : Result (List ℕ × ℕ)) → ((e : Error) × (r ≡ err e)) ⊎ ((p : List ℕ × ℕ) × (r ≡ ok p))
prekey_cases (ok p) = inr (p, refl)
prekey_cases (err e) = inl (e, refl)

-- What a Seal that reports no error leaves of a buffer that was not sealed.
pub record SealedAs (a : Auth) (c : Calls) (b : Buffer) (m : Mapping) (b1 : Buffer) (m1 : Mapping)
    : Type 0 where
  pub closed : (b1.sealed ≡ true) × (m1.prot ≡ prot_none)
  pub enciphered :
      (m1.inner ≡ (c.encrypt m.inner).0.0)
      × (m1.cipher ≡ (c.encrypt m.inner).0.1)
      × ((c.encrypt m.inner).1 ≡ [])
  pub tagged : b1.seal_tagged ≡ b.seal_auth
  pub verifies : (b1.seal_tagged && not (is_empty (seal_verify a m1.inner b1))) ≡ false
  pub modes : (b1.read_only ≡ b.read_only) × (b1.closed_at_rest ≡ b.closed_at_rest)
  pub alive : (b1.present ≡ b.present) × (m1.wiped ≡ m.wiped)

compare_refl : (xs : List ℕ) → constant_time_compare xs xs ≡ true
unfolding constant_time_compare
compare_refl [] = refl
compare_refl (x ∷ xs) = ground (arith, compare_refl xs)

-- A tag that was taken verifies.
taken_verifies :
    (a : Auth) (inner : List ℕ) (b : Buffer) {b' : Buffer}
    → seal_authenticate a inner b ≡ (b', [])
    → (b'.seal_tagged ≡ true) × (seal_verify a inner b' ≡ [])
unfolding seal_authenticate take_tag seal_verify
taken_verifies a inner b {b'} e = elim (prekey_cases a.prekey) [
  | inl (x, p) ↦ absurd (ground arith)
  | inr ((prekey, gen), p) ↦ (ground arith, ground (arith, compare_refl b'.seal_tag))
]

-- A rollback reports its cause.
rollback_fails :
    (c : Calls) (applied : Bool) (cause : Err) (b : Buffer) (m : Mapping)
    → cause ≢ []
    → (rollback_seal c applied cause b m).2 ≢ []
unfolding rollback_seal
rollback_fails c applied [] b m ne q = ne refl
rollback_fails c applied (e ∷ es) b m ne q = ground arith

seal_close-ok :
    (c : Calls) (applied : Bool) (b : Buffer) (m : Mapping) {b1 : Buffer} {m1 : Mapping}
    → seal_close c applied b m ≡ (b1, m1, [])
    → (b1 ≡ record b { sealed = true }) × (m1 ≡ record m { prot = prot_none })
unfolding seal_close
seal_close-ok c applied b m e = (
  ground (arith, rollback_fails c applied c.protect_none b m),
  ground (arith, rollback_fails c applied c.protect_none b m),
)

-- The tag touches nothing but the fields of the tag, and does not look at `sealed`.
authenticate_same :
    (a : Auth) (inner : List ℕ) (b : Buffer)
    → ((seal_authenticate a inner b).0.read_only ≡ b.read_only)
      × ((seal_authenticate a inner b).0.closed_at_rest ≡ b.closed_at_rest)
      × ((seal_authenticate a inner b).0.present ≡ b.present)
unfolding seal_authenticate take_tag
authenticate_same a inner b = (ground arith, ground arith, ground arith)

verify-closed :
    (a : Auth) (inner : List ℕ) (b : Buffer)
    → seal_verify a inner (record b { sealed = true }) ≡ seal_verify a inner b
unfolding seal_verify
verify-closed a inner b = refl

-- The tagging step, when it succeeds.
tagging-ok :
    (a : Auth) (c : Calls) (applied : Bool) (b : Buffer) (m : Mapping) {b1 : Buffer} {m1 : Mapping}
    → b.seal_tagged ≡ false
    → seal_tagging a c applied b m ≡ (b1, m1, [])
    → (m1 ≡ record m { prot = prot_none })
      × (b1.sealed ≡ true)
      × (b1.seal_tagged ≡ b.seal_auth)
      × ((b1.seal_tagged && not (is_empty (seal_verify a m1.inner b1))) ≡ false)
      × (b1.read_only ≡ b.read_only)
      × (b1.closed_at_rest ≡ b.closed_at_rest)
      × (b1.present ≡ b.present)
unfolding seal_tagging
tagging-ok a c applied b m {b1} {m1} fresh e = elim (Bool-cases b.seal_auth) [
  | inr off ↦
      let (same, same') = seal_close-ok c applied b m {b1 = b1} {m1 = m1} (ground arith) in
      (same', ground arith, ground arith, ground arith, ground arith, ground arith, ground arith)
  | inl on ↦
      let took : (seal_authenticate a m.inner b).1 ≡ [] = ground (
        arith,
        rollback_fails c applied (seal_authenticate a m.inner b).1 (seal_authenticate a m.inner b).0
            m,
      ) in
      let (same, same') =
        seal_close-ok c applied (seal_authenticate a m.inner b).0 m {b1 = b1} {m1 = m1}
          (ground arith) in
      let (tagged, verified) =
        taken_verifies a m.inner b {b' = (seal_authenticate a m.inner b).0} (ground arith) in
      let (ro, rest, there) = authenticate_same a m.inner b in
      let verified' : seal_verify a m1.inner b1 ≡ [] =
        rw (same, same') (verify-closed a m.inner (seal_authenticate a m.inner b).0 ∙ verified) in
      (same', ground arith, ground arith, ground arith, ground arith, ground arith, ground arith)
]

-- Past the refusals and the lift of the protection.
seal-bytes :
    (a : Auth) (c : Calls) (b : Buffer) (m : Mapping) {b1 : Buffer} {m1 : Mapping}
    → b.present ≡ true
    → m.wiped ≡ false
    → b.sealed ≡ false
    → m.cipher ≡ false
    → seal a c b m ≡ (b1, m1, [])
    → (p : Prot) × (seal_bytes a c b (record m { prot = p }) ≡ (b1, m1, []))
unfolding seal seal_lift
seal-bytes a c b m here clean up plain e = elim (Bool-cases (b.read_only || b.closed_at_rest)) [
  | inl lift ↦ (prot_rw, ground arith)
  | inr keep ↦ (m.prot, ground arith)
]

bytes-SealedAs :
    (a : Auth) (c : Calls) (b : Buffer) (m : Mapping) (p : Prot) {b1 : Buffer} {m1 : Mapping}
    → m.cipher ≡ false
    → seal_bytes a c b (record m { prot = p }) ≡ (b1, m1, [])
    → SealedAs a c b m b1 m1
unfolding seal_bytes
bytes-SealedAs a c b m p {b1} {m1} plain e =
    let (same, up, tagged, verified, ro, rest, there) =
      tagging-ok a c (c.encrypt m.inner).0.1 (record b { seal_tagged = false })
        (record m {
          prot = p;
          inner = (c.encrypt m.inner).0.0;
          cipher = (c.encrypt m.inner).0.1 || m.cipher;
        })
        {b1 = b1} {m1 = m1} refl (ground arith) in
    record {
      closed = (up, ap (λ (x : Mapping). x.prot) same);
      enciphered = (ap (λ (x : Mapping). x.inner) same, ground arith, ground arith);
      tagged = tagged;
      verifies = verified;
      modes = (ro, rest);
      alive = (there, ap (λ (x : Mapping). x.wiped) same);
    }

-- A Seal that reports no error, on a live buffer with plaintext that was not sealed and not
-- emergency-wiped, leaves the buffer sealed and its region without access, its bytes what the cipher
-- made of them with the cipher flag set exactly when it applied, and, with authentication, a tag that
-- verifies; the read-only and the closed-at-rest mode are kept.
pub seal-SealedAs :
    (a : Auth) (c : Calls) (b : Buffer) (m : Mapping) {b1 : Buffer} {m1 : Mapping}
    → b.present ≡ true
    → m.wiped ≡ false
    → b.sealed ≡ false
    → m.cipher ≡ false
    → seal a c b m ≡ (b1, m1, [])
    → SealedAs a c b m b1 m1
seal-SealedAs a c b m {b1} {m1} here clean up plain e =
    let (mode, e') = seal-bytes a c b m {b1 = b1} {m1 = m1} here clean up plain e in
    bytes-SealedAs a c b m mode {b1 = b1} {m1 = m1} plain e'
