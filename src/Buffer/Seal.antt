-- ===== src/Buffer/Seal.antt =====
-- securebuf.go, Seal and Unseal, with the tag of sealauth.go that they take and verify.
use secmem.Prelude.{ℕ, Bool, true, false, not, ◌&&◌, ◌||◌, if◌then◌else◌, ◌==◌, List, [], ◌∷◌, ◌++◌}
use secmem.Errors.{Err, Result, ok, err, fail, destroyed, wiped, integrity, invalid_argument}
use secmem.Region.{Mapping, Prot, prot_none, prot_read, prot_rw}
use secmem.Buffer.{Buffer, Calls, mprotect, rest_protection}

-- What the tag rests on: sealComputeTag over a prekey, a key, a nonce and the bytes, the answer of
-- withPrekey (the live prekey with its generation), and that of rand.Read for the nonce.
pub record Auth : Type 0 where
  pub compute_tag : List ℕ → ℕ → List ℕ → List ℕ → List ℕ
  pub prekey : Result (List ℕ × ℕ)
  pub nonce : Result (List ℕ)

unfoldable pub constant_time_compare : List ℕ → List ℕ → Bool
constant_time_compare [] [] = true
constant_time_compare (x ∷ xs) (y ∷ ys) = (x == y) && constant_time_compare xs ys
constant_time_compare _ _ = false

unfoldable pub take_tag : Auth → List ℕ → Buffer → Buffer × Err
take_tag a inner b = elim a.prekey [
  | err e ↦ (b, fail e)
  | ok (prekey, gen) ↦ (
    record b {
      seal_gen = gen;
      seal_tag = a.compute_tag prekey b.janitor_key b.seal_nonce inner;
      seal_tagged = true;
    },
    [],
  )
]

-- sealAuthenticate.
unfoldable pub seal_authenticate : Auth → List ℕ → Buffer → Buffer × Err
unfolding take_tag
seal_authenticate a inner b = elim a.nonce [
  | err e ↦ (b, fail e)
  | ok nonce ↦ take_tag a inner (record b { seal_nonce = nonce })
]

-- sealVerify.
unfoldable pub seal_verify : Auth → List ℕ → Buffer → Err
seal_verify a inner b = elim a.prekey [
  | err e ↦ fail e
  | ok (prekey, gen) ↦
      if not (gen == b.seal_gen)
      then fail wiped
      else if constant_time_compare (a.compute_tag prekey b.janitor_key b.seal_nonce inner)
          b.seal_tag
      then []
      else fail integrity
]

unfoldable pub reapply_read_only : Calls → Buffer → Mapping → Mapping
unfolding rest_protection
reapply_read_only c b m = elim (rest_protection b) [
  | prot_rw ↦ m
  | prot_read ↦ mprotect c.reapply prot_read m
  | prot_none ↦ mprotect c.reapply prot_none m
]

-- rollbackSeal.
unfoldable pub rollback_seal : Calls → Bool → Err → Buffer → Mapping → Buffer × Mapping × Err
rollback_seal c applied cause b m =
    if not applied
    then (record b { seal_tagged = false }, reapply_read_only c b m, cause)
    else let (bytes, failure) = c.decrypt m.inner in
      elim failure [
        | e ∷ es ↦ (record b { sealed = true }, reapply_read_only c b m, cause ++ (e ∷ es))
        | [] ↦ (
          record b { seal_tagged = false },
          reapply_read_only c b (record m { inner = bytes; cipher = false }),
          cause,
        )
      ]

-- The last step of Seal: the no-access protection.
unfoldable pub seal_close : Calls → Bool → Buffer → Mapping → Buffer × Mapping × Err
seal_close c applied b m = elim c.protect_none [
  | e ∷ es ↦ rollback_seal c applied (e ∷ es) b m
  | [] ↦ (record b { sealed = true }, record m { prot = prot_none }, [])
]

-- Seal from the tag on; `applied` is the cipher's answer, which the flag follows.
unfoldable pub seal_tagging : Auth → Calls → Bool → Buffer → Mapping → Buffer × Mapping × Err
seal_tagging a c applied b m =
    if not b.seal_auth
    then seal_close c applied b m
    else let (b', failure) = seal_authenticate a m.inner b in
      elim failure [
        | e ∷ es ↦ rollback_seal c applied (e ∷ es) b' m
        | [] ↦ seal_close c applied b' m
      ]

-- Seal from the encryption on.
unfoldable pub seal_bytes : Auth → Calls → Buffer → Mapping → Buffer × Mapping × Err
seal_bytes a c b m =
    let ((bytes, applied), failure) = c.encrypt m.inner in
    elim failure [
      | e ∷ es ↦ (record b { seal_tagged = false }, reapply_read_only c b m, e ∷ es)
      | [] ↦
          seal_tagging a c applied (record b { seal_tagged = false })
            (record m { inner = bytes; cipher = applied || m.cipher })
    ]

unfoldable pub seal_lift : Auth → Calls → Buffer → Mapping → Buffer × Mapping × Err
seal_lift a c b m =
    if b.read_only || b.closed_at_rest
    then elim c.lift [
      | e ∷ es ↦ (b, m, e ∷ es)
      | [] ↦ seal_bytes a c b (record m { prot = prot_rw })
    ]
    else seal_bytes a c b m

unfoldable pub seal : Auth → Calls → Buffer → Mapping → Buffer × Mapping × Err
seal a c b m =
    if not b.present
    then (b, m, fail destroyed)
    else if m.wiped
    then (b, m, fail wiped)
    else if b.sealed
    then (b, m, [])
    else if m.cipher
    then (record b { sealed = true }, m, fail invalid_argument)
    else seal_lift a c b m

-- The end of Unseal once the rest protection stands.
unfoldable pub unsealed : Buffer → Buffer
unsealed b = record b { sealed = false; seal_tagged = false }

-- Unseal's way back after the rest protection was refused: sealed again, as far as that goes.
unfoldable pub reseal_bytes : Calls → Mapping → Mapping
reseal_bytes c m =
    let ((bytes, applied), failure) = c.encrypt m.inner in
    elim failure [ e ∷ es ↦ m | [] ↦ record m { inner = bytes; cipher = applied || m.cipher } ]

unfoldable pub reseal : Auth → Calls → Err → Buffer → Mapping → Buffer × Mapping × Err
reseal a c cause b m = (tagged, mprotect c.protect_none prot_none again, cause)
  where
    again : Mapping
    again = reseal_bytes c m

    tagged : Buffer
    tagged =
        if b.seal_auth
        then (seal_authenticate a again.inner (record b { seal_tagged = false })).0
        else record b { seal_tagged = false }

-- The restored rest protection.
unfoldable pub unseal_restore : Auth → Calls → Buffer → Mapping → Buffer × Mapping × Err
unfolding rest_protection
unseal_restore a c b m = elim (rest_protection b) [
  | prot_rw ↦ (unsealed b, m, [])
  | prot_read ↦ restored prot_read c.restore
  | prot_none ↦ restored prot_none c.restore
]
  where
    restored : Prot → Err → Buffer × Mapping × Err
    restored p [] = (unsealed b, record m { prot = p }, [])
    restored p (e ∷ es) = reseal a c (e ∷ es) b m

-- A failure of Unseal that leaves the buffer sealed: no access again, if the system grants it.
unfoldable pub stay_sealed : Calls → Err → Buffer → Mapping → Buffer × Mapping × Err
stay_sealed c cause b m = (b, mprotect c.back prot_none m, cause)

unfoldable pub unseal_decrypt : Auth → Calls → Buffer → Mapping → Buffer × Mapping × Err
unseal_decrypt a c b m =
    if not m.cipher
    then unseal_restore a c b m
    else let (bytes, failure) = c.decrypt m.inner in
      elim failure [
        | e ∷ es ↦ stay_sealed c (e ∷ es) b m
        | [] ↦ unseal_restore a c b (record m { inner = bytes; cipher = false })
      ]

unfoldable pub unseal_verify : Auth → Calls → Buffer → Mapping → Buffer × Mapping × Err
unseal_verify a c b m =
    if not b.seal_tagged then unseal_decrypt a c b m else elim (seal_verify a m.inner b) [
      | e ∷ es ↦ stay_sealed c (e ∷ es) b m
      | [] ↦ unseal_decrypt a c b m
    ]

unfoldable pub unseal_lift : Auth → Calls → Buffer → Mapping → Buffer × Mapping × Err
unseal_lift a c b m = elim c.lift [
  | e ∷ es ↦ (b, m, e ∷ es)
  | [] ↦ elim c.relock [
    | e ∷ es ↦ stay_sealed c (e ∷ es) b (record m { prot = prot_rw })
    | [] ↦ unseal_verify a c b (record m { prot = prot_rw })
  ]
]

unfoldable pub unseal : Auth → Calls → Buffer → Mapping → Buffer × Mapping × Err
unseal a c b m =
    if not b.present
    then (b, m, fail destroyed)
    else if m.wiped
    then (b, m, fail wiped)
    else if not b.sealed
    then (b, m, [])
    else unseal_lift a c b m
