-- ===== src/Buffer/Accessed.antt =====
-- securebuf_access.go: what an access leaves of the buffer, and the round trip of a copy in and out.
use secmem.Prelude.{[], ◌∷◌, ◌≡◌, ◌≢◌, ◌⊎◌, inl, inr, refl, arith, Bool-cases}
use secmem.Errors.{Err}
use secmem.Region.{Mapping}
use secmem.Buffer.{Buffer, Calls, open_use, close_use, first_open}
use secmem.Buffer.Access.{Step, step_closed, step_open, access}

open_use-frame :
    (c : Calls) (b : Buffer) (m : Mapping)
    → ((open_use c b m).1.inner ≡ m.inner)
      × ((open_use c b m).0.size ≡ b.size)
      × ((open_use c b m).1.wiped ≡ m.wiped)
unfolding open_use first_open
open_use-frame c b m = (ground arith, ground arith, ground arith)

close_use-frame :
    (c : Calls) (b : Buffer) (m : Mapping)
    → ((close_use c b m).1.inner ≡ m.inner) × ((close_use c b m).1.wiped ≡ m.wiped)
unfolding close_use
close_use-frame c b m = (ground arith, ground arith)

-- An open that succeeds and the close after it leave the buffer's own fields as they were.
open_close :
    (c : Calls) (b : Buffer) (m m1 : Mapping)
    → (open_use c b m).2 ≡ []
    → (close_use c (open_use c b m).0 m1).0 ≡ b
unfolding open_use close_use first_open
open_close c b m m1 h = ground arith

open_failed_same :
    (c : Calls) (b : Buffer) (m : Mapping) → (open_use c b m).2 ≢ [] → (open_use c b m).0 ≡ b
unfolding open_use first_open
open_failed_same c b m h = ground arith

Err-cases : (e : Err) → (e ≡ []) ⊎ (e ≢ [])
Err-cases [] = inl refl
Err-cases (x ∷ xs) = inr λ h. cc

module _ {ℓ} {A : Type ℓ} (c : Calls) (nothing : A) (step : Step A) (b : Buffer) (m : Mapping) where
  pub step_closed-same : (step_closed c nothing step b m).0 ≡ b
  unfolding step_closed
  step_closed-same =
      ground (arith, open_close c b m (step (open_use c b m).1).0, open_failed_same c b m)

  pub access-same : (access c nothing step b m).0 ≡ b
  unfolding access step_open
  access-same = ground (arith, step_closed-same)

  -- The memory after an access: as it was when it could not be opened, else as the step left it.
  pub access-inner :
      ((access c nothing step b m).1.inner ≡ m.inner)
      ⊎ ((m1 : Mapping) × (m1.inner ≡ m.inner)
          × ((access c nothing step b m).1.inner ≡ (step m1).0.inner))
  unfolding access step_open step_closed
  access-inner = elim (Bool-cases b.closed_at_rest) [
    | inl closed ↦
        let opened = (open_use c b m).1 in
        let (bytes, _, _) = open_use-frame c b m in
        let (kept, _) = close_use-frame c (open_use c b m).0 (step opened).0 in
        elim (Err-cases (open_use c b m).2) [
          | inl fine ↦ inr (opened, bytes, ground (arith, closed, fine, kept))
          | inr bad ↦ inl (ground (arith, closed, bad, bytes))
        ]
    | inr plain ↦ inr (m, refl, ground (arith, plain))
  ]

  -- An access without an error ran its step, on the memory as it was.
  pub access-ok :
      {b1 : Buffer} {m1 : Mapping} {out : A}
      → access c nothing step b m ≡ (b1, m1, out, [])
      → (m0 : Mapping) × (m0.inner ≡ m.inner) × (m1.inner ≡ (step m0).0.inner) × (out ≡ (step m0).1)
  unfolding access step_open step_closed
  access-ok {b1} {m1} {out} h = elim (Bool-cases b.closed_at_rest) [
    | inl closed ↦
        let opened = (open_use c b m).1 in
        let (bytes, _, _) = open_use-frame c b m in
        let (kept, _) = close_use-frame c (open_use c b m).0 (step opened).0 in
        elim (Err-cases (open_use c b m).2) [
          | inl fine ↦
              (opened, bytes, ground (arith, closed, fine, kept), ground (arith, closed, fine))
          | inr bad ↦ absurd (ground (arith, closed, bad))
        ]
    | inr plain ↦ (m, refl, ground (arith, plain), ground (arith, plain))
  ]
