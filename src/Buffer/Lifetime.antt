-- ===== src/Buffer/Lifetime.antt =====
-- securebuf.go: NewBuffer wipes the caller's copy on every path, and Destroy leaves zeros in a region
-- that it gives up.
use secmem.Prelude.{ℕ, ◌≡◌, refl, subst, true, false, some, List, [], ◌∷◌, length, arith}
use secmem.Errors.{Err}
use secmem.Region.{zeros}
use secmem.Registry.{JanitorRegion, peek_any}
use secmem.Registry.Memory.{World, set_mem, release}
use secmem.Registry.Release.{Wiped, Freed-Wiped, release-Freed}
use secmem.Arena.New.{Config, Platform}
use secmem.Buffer.{Buffer}
use secmem.Buffer.Lifecycle.{Env, inspect, destroy, new_buffer}

-- NewBuffer leaves zeros in the caller's slice on every path, its errors included.
pub new_buffer-wipes :
    (pf : Platform) (v : Env) (cfg : Config) (raw : List ℕ) (w : World)
    → (new_buffer pf v cfg raw w).1 ≡ zeros (length raw)
unfolding new_buffer
new_buffer-wipes pf v cfg [] w = refl
new_buffer-wipes pf v cfg (x ∷ raw) w = ground arith

-- What Destroy leaves of a buffer and its region.
pub record Destroyed (b : Buffer) (r : World × Buffer × Err) : Type 0 where
  pub zeroed : (r.0.mem b.id).inner ≡ zeros (length (r.0.mem b.id).inner)
  pub given_up : (r.0.mem b.id).mapped ≡ false
  pub gone : (r.1.present ≡ false) × (r.1.size ≡ 0)

-- Destroy of a buffer whose registration is in either set, and whose region can be made writable,
-- leaves every byte of the region zero, the region given up and the buffer destroyed, whatever the
-- tag, the decryption and the canary check find.
pub destroy-Destroyed :
    (v : Env) (b : Buffer) (w : World) (r : JanitorRegion)
    → b.present ≡ true
    → peek_any b.janitor_key w.janitor ≡ some r
    → r.id ≡ b.id
    → v.os.restore b.id ≡ []
    → Destroyed b (destroy v b w)
unfolding destroy inspect
destroy-Destroyed v b w r here filed same grant =
    let w1 = set_mem b.id (inspect v b (w.mem b.id)).0 w in
    let f =
      subst (λ id. Wiped id (release v.os v.pattern b.janitor_key true w1).0) same
        (Freed-Wiped r w1 (
          release-Freed v.os v.pattern b.janitor_key true w1 r (unfold set_mem in filed)
            (rw same grant))) in
    rw here (record { zeroed = f.zeroed; given_up = f.given_up; gone = (refl, refl) })

-- Destroy is idempotent: a second one changes nothing and reports nothing.
pub destroy-destroy :
    (v v' : Env) (b : Buffer) (w : World)
    → destroy v' (destroy v b w).1 (destroy v b w).0 ≡ ((destroy v b w).0, (destroy v b w).1, [])
unfolding destroy
destroy-destroy v v' b w = ground arith
