-- ===== src/Registry/Release.antt =====
-- registry.go, janitor.release: a registration is given back once, wiped before if that is possible.
use secmem.Prelude.{
  ℕ, ◌≡◌, refl, sym, ap, subst, ◌∙◌, Bool, true, false, if◌then◌else◌, ◌==◌, Option-cases, inl, inr,
  none, some, [], length, length-replicate, arith,
}
use secmem.Errors.{Err}
use secmem.Canary.{Pattern}
use secmem.Region.{zeros}
use secmem.Registry.{Janitor, JanitorRegion, take_any, peek_any}
use secmem.Registry.Sets.{Apart, take_any_lem, take_any_if_lem, take_any_other, take_any-Apart}
use secmem.Registry.Memory.{
  System, World, set_mem, wiped_mapping, retire_region, wipe_refused, wipe_granted, wipe_and_free,
  finish_release, release, with_janitor,
}

-- Both forms of release do the same to a registered key.
release-takes :
    (os : System) (pat : Pattern) (key : ℕ) (b : Bool) (w : World) (r : JanitorRegion)
    → peek_any key w.janitor ≡ some r
    → release os pat key b w
      ≡ wipe_and_free os pat r true (with_janitor (take_any key w.janitor).0 w)
unfolding release finish_release
release-takes os pat key true w r e = ground (arith, (take_any_lem key w.janitor).0)
release-takes os pat key false w r e =
    ground (arith, (take_any_lem key w.janitor).0, (take_any_if_lem key r.id w.janitor).0 r e refl)

-- A key that is in neither set: release does nothing and reports nothing.
pub release-gone :
    (os : System) (pat : Pattern) (key : ℕ) (b : Bool) (w : World)
    → peek_any key w.janitor ≡ none
    → release os pat key b w ≡ (w, [])
unfolding release finish_release
release-gone os pat key true w e = ground (arith, (take_any_lem key w.janitor).0)
release-gone os pat key false w e = ground arith

free_janitor :
    (os : System) (pat : Pattern) (r : JanitorRegion) (w : World)
    → (wipe_and_free os pat r true w).0.janitor ≡ w.janitor
unfolding wipe_and_free wipe_refused wipe_granted retire_region set_mem
free_janitor os pat r w = ground arith

-- Where no key is in both sets, release takes its own key out of both and leaves every other key's
-- registration, and the sets are as apart after it.
pub peek_any-release :
    (os : System) (pat : Pattern) (key k : ℕ) (b : Bool) (w : World)
    → Apart w.janitor
    → peek_any k (release os pat key b w).0.janitor
      ≡ (if key == k then none else peek_any k w.janitor)
peek_any-release os pat key k b w a = elim (Option-cases (peek_any key w.janitor)) [
  | inl n ↦ ground (arith, release-gone os pat key b w n)
  | inr (r, e) ↦ ground (
    arith,
    ap (λ (x : World × Err). peek_any k x.0.janitor) (release-takes os pat key b w r e),
    free_janitor os pat r (with_janitor (take_any key w.janitor).0 w),
    (take_any_lem key w.janitor).1 a,
    take_any_other key k w.janitor,
  )
]

pub release-Apart :
    (os : System) (pat : Pattern) (key : ℕ) (b : Bool) (w : World)
    → Apart w.janitor
    → Apart (release os pat key b w).0.janitor
release-Apart os pat key b w a = elim (Option-cases (peek_any key w.janitor)) [
  | inl n ↦ subst (λ (x : World × Err). Apart x.0.janitor) (sym (release-gone os pat key b w n)) a
  | inr (r, e) ↦
      subst (λ (x : World × Err). Apart x.0.janitor) (sym (release-takes os pat key b w r e))
        (subst Apart (sym (free_janitor os pat r _)) (take_any-Apart key w.janitor a))
]

-- Where no key is in both sets, a second release of a key does nothing, whoever calls it, whichever of
-- the two ways the first took, and whatever that one reported.
pub release-once :
    (os os' : System) (pat : Pattern) (key : ℕ) (b b' : Bool) (w : World)
    → Apart w.janitor
    → release os' pat key b' (release os pat key b w).0 ≡ ((release os pat key b w).0, [])
release-once os os' pat key b b' w a =
    release-gone os' pat key b' (release os pat key b w).0
      (elim (Option-cases (peek_any key w.janitor)) [
        | inl n ↦
            ap (λ (x : World × Err). peek_any key x.0.janitor) (release-gone os pat key b w n) ∙ n
        | inr (r, e) ↦
            ap (λ (x : World × Err). peek_any key x.0.janitor) (release-takes os pat key b w r e)
            ∙ ap (peek_any key) (free_janitor os pat r _)
            ∙ (take_any_lem key w.janitor).1 a
      ])

-- What the release of region r leaves of it: given up, and all zeros.
pub record Freed (w : World) (r : JanitorRegion) (w' : World) : Type 0 where
  pub zeroed : (w'.mem r.id).inner ≡ zeros (length (w.mem r.id).inner)
  pub given_up : (w'.mem r.id).mapped ≡ false

free_granted :
    (os : System) (pat : Pattern) (r : JanitorRegion) (j : Janitor) (w : World)
    → os.restore r.id ≡ []
    → Freed w r (wipe_and_free os pat r true (with_janitor j w)).0
unfolding wipe_and_free wipe_granted retire_region set_mem wiped_mapping
free_granted os pat r j w g = record { zeroed = ground arith; given_up = ground arith }

-- The release of a registered key whose region can be made writable leaves every byte of the region
-- zero and the region given up, whatever the canary check finds and whatever giving it up reports.
pub release-Freed :
    (os : System) (pat : Pattern) (key : ℕ) (b : Bool) (w : World) (r : JanitorRegion)
    → peek_any key w.janitor ≡ some r
    → os.restore r.id ≡ []
    → Freed w r (release os pat key b w).0
release-Freed os pat key b w r e g =
    subst (λ (x : World × Err). Freed w r x.0) (sym (release-takes os pat key b w r e))
      (free_granted os pat r _ w g)

-- The same of the region alone, without its former length.
pub record Wiped (id : ℕ) (w : World) : Type 0 where
  pub zeroed : (w.mem id).inner ≡ zeros (length (w.mem id).inner)
  pub given_up : (w.mem id).mapped ≡ false

pub Freed-Wiped : (r : JanitorRegion) (w : World) {w' : World} → Freed w r w' → Wiped r.id w'
Freed-Wiped r w f = record {
  zeroed =
      f.zeroed
      ∙ ap zeros
          (sym (ap length f.zeroed ∙ length-replicate {A = ℕ} (length (w.mem r.id).inner) 0));
  given_up = f.given_up;
}
