-- ===== src/Buffer/Plain.antt =====
-- securebuf.go, Seal and Unseal: what is in the memory of a buffer that either leaves not sealed.
use secmem.Prelude.{
  ℕ, ◌≡◌, Bool, true, false, not, ◌&&◌, ◌||◌, ◌≢◌, ◌⊎◌, inl, inr, ◌∙◌, List, [], arith,
}
use secmem.Errors.{Err}
use secmem.Region.{Mapping, prot_rw}
use secmem.Buffer.{Buffer, Calls}
use secmem.Buffer.Seal.{
  Auth, take_tag, seal_authenticate, reapply_read_only, rollback_seal, seal_close, seal_tagging,
  seal_bytes, seal_lift, seal, unsealed, reseal_bytes, reseal, unseal_restore, stay_sealed,
  unseal_decrypt, unseal_verify, unseal_lift, unseal,
}

reapply_cipher :
    (c : Calls) (b : Buffer) (m : Mapping) → (reapply_read_only c b m).cipher ≡ m.cipher
unfolding reapply_read_only
reapply_cipher c b m = ground arith

-- A buffer that is sealed over given bytes, or that is not sealed and has the plaintext, which is not
-- marked as ciphertext.
abbrev pub Holds : (plain cipher : List ℕ) → Buffer × Mapping × Err → Type 0
Holds plain cipher r =
    ((r.0.sealed ≡ true) × (r.1.inner ≡ cipher))
    ⊎ ((r.0.sealed ≡ false) × (r.1.cipher ≡ false) × (r.1.inner ≡ plain))

reapply_inner : (c : Calls) (b : Buffer) (m : Mapping) → (reapply_read_only c b m).inner ≡ m.inner
unfolding reapply_read_only
reapply_inner c b m = ground arith

-- The bytes as they are, or as an encryption that can be undone left them.
abbrev Undoable : Calls → (applied : Bool) → List ℕ → Mapping → Type 0
Undoable c applied bytes m =
    ((applied ≡ false) × (m.cipher ≡ false) × (m.inner ≡ bytes))
    ⊎ ((applied ≡ true) × (((c.decrypt m.inner).1 ≢ []) ⊎ ((c.decrypt m.inner).0 ≡ bytes)))

rollback-Holds :
    (c : Calls) (applied : Bool) (cause : Err) (bytes : List ℕ) (b : Buffer) (m : Mapping)
    → b.sealed ≡ false
    → Undoable c applied bytes m
    → Holds bytes m.inner (rollback_seal c applied cause b m)
unfolding rollback_seal
rollback-Holds c applied cause bytes b m shut (inl (off, clean, same)) =
    ground (arith, off, clean, same, reapply_cipher c b m, reapply_inner c b m)
rollback-Holds c applied cause bytes b m shut (inr (on, inl fails)) =
    ground (arith, on, fails, reapply_inner c b m)
rollback-Holds c applied cause bytes b m shut (inr (on, inr same)) =
    let back = record m { inner = (c.decrypt m.inner).0; cipher = false } in
    ground
      (arith, shut, on, same, reapply_cipher c b back, reapply_inner c b back, reapply_inner c b m)

close-Holds :
    (c : Calls) (applied : Bool) (bytes : List ℕ) (b : Buffer) (m : Mapping)
    → b.sealed ≡ false
    → Undoable c applied bytes m
    → Holds bytes m.inner (seal_close c applied b m)
unfolding seal_close
close-Holds c applied bytes b m shut h =
    ground (arith, rollback-Holds c applied c.protect_none bytes b m shut h)

pub authenticate_sealed :
    (a : Auth) (inner : List ℕ) (b : Buffer) → (seal_authenticate a inner b).0.sealed ≡ b.sealed
unfolding seal_authenticate take_tag
authenticate_sealed a inner b = ground arith

tagging-Holds :
    (a : Auth) (c : Calls) (applied : Bool) (bytes : List ℕ) (b : Buffer) (m : Mapping)
    → b.sealed ≡ false
    → Undoable c applied bytes m
    → Holds bytes m.inner (seal_tagging a c applied b m)
unfolding seal_tagging
tagging-Holds a c applied bytes b m shut h =
    let tagged = seal_authenticate a m.inner b in
    let same : tagged.0.sealed ≡ false = authenticate_sealed a m.inner b ∙ shut in
    ground (
      arith,
      shut,
      close-Holds c applied bytes b m shut h,
      close-Holds c applied bytes tagged.0 m same h,
      rollback-Holds c applied tagged.1 bytes tagged.0 m same h,
    )

-- What Seal needs of the cipher on these bytes: an encryption that is not applied leaves them, and a
-- decryption that reports no error undoes one that is.
abbrev pub Reversible : Calls → List ℕ → Type 0
Reversible c bytes =
    let enc = c.encrypt bytes in
    ((enc.0.1 ≡ false) × (enc.0.0 ≡ bytes))
    ⊎ ((enc.0.1 ≡ true) × (((c.decrypt enc.0.0).1 ≢ []) ⊎ ((c.decrypt enc.0.0).0 ≡ bytes)))

bytes-Holds :
    (a : Auth) (c : Calls) (b : Buffer) (m : Mapping)
    → b.sealed ≡ false
    → m.cipher ≡ false
    → Reversible c m.inner
    → Holds m.inner (c.encrypt m.inner).0.0 (seal_bytes a c b m)
unfolding seal_bytes
bytes-Holds a c b m shut clean back =
    let enc = c.encrypt m.inner in
    let next = record m { inner = enc.0.0; cipher = enc.0.1 || m.cipher } in
    let kept : Undoable c enc.0.1 m.inner next = elim back [
      | inl (off, same) ↦ inl (off, ground (arith, off, clean), same)
      | inr more ↦ inr more
    ] in
    let ended =
      tagging-Holds a c enc.0.1 m.inner (record b { seal_tagged = false }) next shut kept in
    ground (arith, shut, clean, ended, reapply_cipher c b m, reapply_inner c b m)

-- Whatever the system and the tag answer, Seal of a buffer that is not sealed, in whose memory plaintext
-- is, seals it over what the cipher made of that plaintext, or leaves it not sealed with exactly that
-- plaintext in it, not marked as ciphertext: given a cipher that leaves the bytes when it reports that it
-- was not applied, and whose decryption, when it reports no error, gives back what was encrypted.
pub seal-Holds :
    (a : Auth) (c : Calls) (b : Buffer) (m : Mapping)
    → b.sealed ≡ false
    → m.cipher ≡ false
    → Reversible c m.inner
    → Holds m.inner (c.encrypt m.inner).0.0 (seal a c b m)
unfolding seal seal_lift
seal-Holds a c b m shut clean back = ground (
  arith,
  shut,
  clean,
  bytes-Holds a c b m shut clean back,
  bytes-Holds a c b (record m { prot = prot_rw }) shut clean back,
)

-- A buffer that is not sealed does not have its memory marked as ciphertext.
abbrev Plain : Buffer × Mapping × Err → Type 0
Plain r = (not r.0.sealed && r.1.cipher) ≡ false

restore-Plain :
    (a : Auth) (c : Calls) (b : Buffer) (m : Mapping)
    → b.sealed ≡ true
    → m.cipher ≡ false
    → Plain (unseal_restore a c b m)
unfolding unseal_restore reseal unsealed
restore-Plain a c b m h clean =
    ground
      (arith, authenticate_sealed a (reseal_bytes c m).inner (record b { seal_tagged = false }))

decrypt-Plain :
    (a : Auth) (c : Calls) (b : Buffer) (m : Mapping)
    → b.sealed ≡ true
    → Plain (unseal_decrypt a c b m)
unfolding unseal_decrypt stay_sealed
decrypt-Plain a c b m h = ground (
  arith,
  restore-Plain a c b m h,
  restore-Plain a c b (record m { inner = (c.decrypt m.inner).0; cipher = false }) h,
)

-- Whatever the system, the cipher and the tag answer, Unseal leaves no buffer that is not sealed with its
-- memory marked as ciphertext, if it was so before.
unseal-Plain :
    (a : Auth) (c : Calls) (b : Buffer) (m : Mapping)
    → (not b.sealed && m.cipher) ≡ false
    → Plain (unseal a c b m)
unfolding unseal unseal_lift unseal_verify stay_sealed
unseal-Plain a c b m h = ground (arith, decrypt-Plain a c b (record m { prot = prot_rw }))
