-- ===== src/Buffer/Unsealed.antt =====
-- securebuf.go, Unseal: it opens a buffer exactly when it reports no error, never without the tag's
-- consent, and gives back what Seal closed.
use secmem.Prelude.{◌≡◌, refl, true, false, not, Bool-cases, inl, inr, [], arith}
use secmem.Errors.{Err}
use secmem.Region.{Mapping, prot_rw}
use secmem.Buffer.{Buffer, Calls, rest_protection}
use secmem.Buffer.Seal.{
  Auth, seal_verify, seal, unsealed, reseal, reseal_bytes, unseal_restore, stay_sealed,
  unseal_decrypt, unseal_verify, unseal_lift, unseal,
}
use secmem.Buffer.Plain.{authenticate_sealed}
use secmem.Buffer.Sealed.{is_empty, SealedAs, seal-SealedAs}

reseal_sealed :
    (a : Auth) (c : Calls) (cause : Err) (b : Buffer) (m : Mapping)
    → ((reseal a c cause b m).0.sealed ≡ b.sealed) × ((reseal a c cause b m).2 ≡ cause)
unfolding reseal
reseal_sealed a c cause b m = (
  ground (arith, authenticate_sealed a (reseal_bytes c m).inner (record b { seal_tagged = false })),
  refl,
)

restore-opens :
    (a : Auth) (c : Calls) (b : Buffer) (m : Mapping)
    → b.sealed ≡ true
    → (unseal_restore a c b m).0.sealed ≡ not (is_empty (unseal_restore a c b m).2)
unfolding unseal_restore unsealed
restore-opens a c b m h = ground (arith, reseal_sealed a c c.restore b m)

decrypt-opens :
    (a : Auth) (c : Calls) (b : Buffer) (m : Mapping)
    → b.sealed ≡ true
    → (unseal_decrypt a c b m).0.sealed ≡ not (is_empty (unseal_decrypt a c b m).2)
unfolding unseal_decrypt stay_sealed
decrypt-opens a c b m h = ground (
  arith,
  restore-opens a c b m h,
  restore-opens a c b (record m { inner = (c.decrypt m.inner).0; cipher = false }) h,
)

-- On a live sealed buffer that was not emergency-wiped, Unseal leaves the buffer sealed exactly when it
-- reports an error, whatever the system, the cipher and the tag answer.
pub unseal-opens :
    (a : Auth) (c : Calls) (b : Buffer) (m : Mapping)
    → b.present ≡ true
    → m.wiped ≡ false
    → b.sealed ≡ true
    → (unseal a c b m).0.sealed ≡ not (is_empty (unseal a c b m).2)
unfolding unseal unseal_lift unseal_verify stay_sealed
unseal-opens a c b m here clean h =
    ground (arith, decrypt-opens a c b (record m { prot = prot_rw }) h)

-- Unseal opens a live, tagged buffer that was not emergency-wiped only when the tag over its bytes as
-- they are verifies: the prekey is of the generation that Seal used, and the tags are equal.
pub unseal-verified :
    (a : Auth) (c : Calls) (b : Buffer) (m : Mapping) {b1 : Buffer} {m1 : Mapping}
    → b.present ≡ true
    → m.wiped ≡ false
    → b.sealed ≡ true
    → b.seal_tagged ≡ true
    → unseal a c b m ≡ (b1, m1, [])
    → seal_verify a m.inner b ≡ []
unfolding unseal unseal_lift unseal_verify stay_sealed
unseal-verified a c b m here clean h tag e = ground arith

restore-ok :
    (a : Auth) (c : Calls) (b : Buffer) (m : Mapping)
    → c.restore ≡ []
    → m.prot ≡ prot_rw
    → unseal_restore a c b m ≡ (unsealed b, record m { prot = rest_protection b }, [])
unfolding unseal_restore rest_protection
restore-ok a c b m g w = ground arith

rest-same :
    (b b1 : Buffer)
    → b1.read_only ≡ b.read_only
    → b1.closed_at_rest ≡ b.closed_at_rest
    → rest_protection b1 ≡ rest_protection b
unfolding rest_protection
rest-same b b1 ro closed = ground arith

module _ (a : Auth) (c c' : Calls) (b : Buffer) (m : Mapping) (b1 : Buffer) (m1 : Mapping)
    (s : SealedAs a c b m b1 m1) where
  -- Past the verification, with the region writable.
  decrypted :
      c'.restore ≡ []
      → c'.decrypt (c.encrypt m.inner).0.0 ≡ (m.inner, [])
      → ((c.encrypt m.inner).0.1 ≡ false → (c.encrypt m.inner).0.0 ≡ m.inner)
      → unseal_decrypt a c' b1 (record m1 { prot = prot_rw })
        ≡ (unsealed b1, record m1 { inner = m.inner; cipher = false; prot = rest_protection b }, [])
  unfolding unseal_decrypt
  decrypted restore undo still =
      let rest = rest-same b b1 s.modes.0 s.modes.1 in
      elim (Bool-cases m1.cipher) [
        | inr off ↦
            let same : m1.inner ≡ m.inner = ground (arith, s.enciphered) in
            ground (arith, restore-ok a c' b1 (record m1 { prot = prot_rw }) restore refl)
        | inl on ↦
            let back : c'.decrypt m1.inner ≡ (m.inner, []) = rw (s.enciphered.0) undo in
            ground (
              arith,
              restore-ok a c' b1 (record m1 { inner = m.inner; prot = prot_rw; cipher = false })
                  restore refl,
            )
      ]

-- After a Seal that reported no error, with the same prekey and a cipher whose decryption undoes what
-- its encryption did, an Unseal to whose calls the system agrees reports no error and gives back the
-- bytes that the buffer had before Seal, unsealed, with the cipher flag down and the protection that
-- the buffer has at rest.
pub unseal-seal :
    (a : Auth) (c c' : Calls) (b : Buffer) (m : Mapping) {b1 : Buffer} {m1 : Mapping}
    → b.present ≡ true
    → m.wiped ≡ false
    → b.sealed ≡ false
    → m.cipher ≡ false
    → seal a c b m ≡ (b1, m1, [])
    → c'.lift ≡ []
    → c'.relock ≡ []
    → c'.restore ≡ []
    → c'.decrypt (c.encrypt m.inner).0.0 ≡ (m.inner, [])
    → ((c.encrypt m.inner).0.1 ≡ false → (c.encrypt m.inner).0.0 ≡ m.inner)
    → unseal a c' b1 m1
      ≡ (unsealed b1, record m1 { inner = m.inner; cipher = false; prot = rest_protection b }, [])
unfolding unseal unseal_lift unseal_verify
unseal-seal a c c' b m {b1} {m1} here clean up plain e lift relock restore undo still =
    let s = seal-SealedAs a c b m {b1 = b1} {m1 = m1} here clean up plain e in
    ground (arith, s.alive, s.closed, s.verifies, decrypted a c c' b m b1 m1 s restore undo still)
