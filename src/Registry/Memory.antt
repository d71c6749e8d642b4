-- ===== src/Registry/Memory.antt =====
-- registry.go: the operations of the janitor that wipe a region and give it back. Every one of them
-- holds the region's exclusive lock from its own re-resolution of the key on, so each is one step on
-- the sets, the mappings and the quarantine.
use secmem.Prelude.{
  ℕ, Bool, true, false, not, ◌&&◌, if◌then◌else◌, ◌==◌, Option, none, some, List, [], ◌∷◌, ◌++◌,
  length,
}
use secmem.Errors.{Err, fail, is, wipe_skipped, canary_violation}
use secmem.Canary.{Pattern, intact}
use secmem.KeyMap.{keys}
use secmem.Region.{Mapping, prot_rw, zeros}
use secmem.Quarantine.{Quarantine, Range, Calls, retire_secret_mem}
use secmem.Registry.{
  Janitor, JanitorRegion, take_any, peek_any, take_any_if, move_to_wiped_if, return_to_live,
}

-- The answers of the system for the region of an identity: mprotect to read-write, madviseBeforeFree,
-- the calls that give a range back, and the length of its outer range.
pub record System : Type 0 where
  pub restore : ℕ → Err
  pub advise : ℕ → Err
  pub calls : Calls
  pub outer : ℕ → ℕ

-- The janitor, the mapping of every identity, and the quarantine.
pub record World : Type 0 where
  pub janitor : Janitor
  pub mem : ℕ → Mapping
  pub quarantine : Quarantine

unfoldable pub set_mem : ℕ → Mapping → World → World
set_mem id m w = record w { mem = λ k. if id == k then m else w.mem k }

abbrev pub with_janitor : Janitor → World → World
with_janitor j w = record w { janitor = j }

abbrev pub range_of : System → ℕ → Range
range_of os id = record { id = id; size = os.outer id }

-- The canary check of wipeAndFree, which skips ciphertext.
unfoldable pub canary_err : Pattern → JanitorRegion → Mapping → Err
canary_err pat r m =
    if r.has_cipher && m.cipher
    then []
    else if intact pat r.canary m.inner
    then []
    else fail canary_violation

-- The region once it is writable and wiped, its seal-cipher flag cleared where it has one.
unfoldable pub wiped_mapping : JanitorRegion → Mapping → Mapping
wiped_mapping r m = record m {
  inner = zeros (length m.inner);
  prot = prot_rw;
  cipher = if r.has_cipher then false else m.cipher;
}

-- The end of a release: the region is retired, and its owner has given it up.
unfoldable pub retire_region : System → JanitorRegion → Mapping → World → World × Err
unfolding set_mem
retire_region os r m w =
    (record (set_mem r.id (record m { mapped = false }) w) { quarantine = t.0 }, t.2)
  where
    t : Quarantine × List Range × Err
    t = retire_secret_mem os.calls (range_of os r.id) w.quarantine

-- wipeAndFree without write access. What is not unmapped is left as it was.
unfoldable pub wipe_refused : System → JanitorRegion → Bool → Err → World → World × Err
unfolding set_mem
wipe_refused os r unmap e w = if not unmap then (w, wipe_skipped ∷ e) else (
  set_mem r.id (record (w.mem r.id) { mapped = false }) w,
  e ++ os.advise r.id ++ os.calls.free (range_of os r.id),
)

-- wipeAndFree with write access.
unfoldable pub wipe_granted : System → Pattern → JanitorRegion → Bool → World → World × Err
unfolding set_mem
wipe_granted os pat r unmap w =
    if not unmap
    then (set_mem r.id (wiped_mapping r (w.mem r.id)) w, canary_err pat r (w.mem r.id))
    else (retired.0, canary_err pat r (w.mem r.id) ++ retired.1)
  where
    retired : World × Err
    retired = retire_region os r (wiped_mapping r (w.mem r.id)) w

-- wipeAndFree with the lock held.
unfoldable pub wipe_and_free : System → Pattern → JanitorRegion → Bool → World → World × Err
wipe_and_free os pat r unmap w = elim (os.restore r.id) [
  | e ∷ es ↦ wipe_refused os r unmap (e ∷ es) w
  | [] ↦ wipe_granted os pat r unmap w
]

unfoldable pub mark_wiped : JanitorRegion → World → World
unfolding set_mem
mark_wiped r w = set_mem r.id (record (w.mem r.id) { wiped = true }) w

-- A taken registration is wiped and given back.
unfoldable pub finish_release :
    System → Pattern → Janitor × Option JanitorRegion → World → World × Err
finish_release os pat (j, none) w = (w, [])
finish_release os pat (j, some r) w = wipe_and_free os pat r true (with_janitor j w)

-- janitor.release.
unfoldable pub release : System → Pattern → ℕ → Bool → World → World × Err
release os pat key lock_held w =
    if lock_held
    then finish_release os pat (take_any key w.janitor) w
    else elim (peek_any key w.janitor) [
      | none ↦ (w, [])
      | some peeked ↦ finish_release os pat (take_any_if key peeked.id w.janitor) w
    ]

-- What follows the wipe of a moved registration: it is marked, or goes back to the live set.
unfoldable pub settle : ℕ → JanitorRegion → Bool → World × Err → World × Err
settle key r was_live (w, e) =
    if not (is e wipe_skipped)
    then (mark_wiped r w, e)
    else if was_live
    then (with_janitor (return_to_live key r w.janitor) w, e)
    else (w, e)

unfoldable pub wipe_moved :
    System → Pattern → ℕ → Janitor × Option (JanitorRegion × Bool) → World → World × Err
wipe_moved os pat key (j, none) w = (w, [])
wipe_moved os pat key (j, some (r, was_live)) w =
    settle key r was_live (wipe_and_free os pat r false (with_janitor j w))

unfoldable pub wipe_in_place : System → Pattern → ℕ → World → World × Err
wipe_in_place os pat key w = elim (peek_any key w.janitor) [
  | none ↦ (w, [])
  | some peeked ↦ wipe_moved os pat key (move_to_wiped_if key peeked.id w.janitor) w
]

-- tryWipeInPlace; `locked` says whether another goroutine holds the region's lock.
unfoldable pub try_wipe_in_place : System → Pattern → (ℕ → Bool) → ℕ → World → World × Bool × Err
try_wipe_in_place os pat locked key w = elim (peek_any key w.janitor) [
  | none ↦ (w, true, [])
  | some peeked ↦ if locked peeked.id then (w, false, []) else (
    (wipe_moved os pat key (move_to_wiped_if key peeked.id w.janitor) w).0,
    true,
    (wipe_moved os pat key (move_to_wiped_if key peeked.id w.janitor) w).1,
  )
]

-- The first pass of wipeAllInPlace: the keys that it leaves, and the errors.
unfoldable pub first_pass : System → Pattern → (ℕ → Bool) → List ℕ → World → World × List ℕ × Err
first_pass os pat locked [] w = (w, [], [])
first_pass os pat locked (key ∷ ks) w =
    let (w1, done, e) = try_wipe_in_place os pat locked key w in
    let (w2, deferred, es) = first_pass os pat locked ks w1 in
    (w2, if done then deferred else key ∷ deferred, e ++ es)

-- The second pass, in the order in which its goroutines get their locks.
unfoldable pub second_pass : System → Pattern → List ℕ → World → World × Err
second_pass os pat [] w = (w, [])
second_pass os pat (key ∷ ks) w =
    let (w1, e) = wipe_in_place os pat key w in
    let (w2, es) = second_pass os pat ks w1 in (w2, e ++ es)

-- wipeAllInPlace over the keys of both sets; `order` is what the scheduler makes of the deferred keys.
unfoldable pub wipe_all_in_place :
    System → Pattern → (ℕ → Bool) → (List ℕ → List ℕ) → World → World × Err
wipe_all_in_place os pat locked order w =
    let (w1, deferred, e) =
      first_pass os pat locked (keys w.janitor.regions ++ keys w.janitor.wiped) w in
    let (w2, es) = second_pass os pat (order deferred) w1 in (w2, e ++ es)
