-- ===== src/Registry/Wipe.antt =====
-- registry.go, wipeInPlace, tryWipeInPlace and wipeAllInPlace: every registered region that can be
-- made writable is zeroed and flagged, and no registration is lost on the way.
use secmem.Prelude.{
  ℕ, ◌≡◌, ◌≢◌, refl, sym, ap, subst, ◌∙◌, ◌⊎◌, inl, inr, Bool, true, false, if◌then◌else◌, ◌==◌,
  Bool-cases, ==_iff, Option-cases, none, some, [], ◌∷◌, length, length-replicate, arith,
}
use secmem.Errors.{Err, is, matches, wipe_skipped}
use secmem.Canary.{Pattern}
use secmem.KeyMap.{lookup}
use secmem.Region.{Mapping, zeros}
use secmem.Registry.{Janitor, JanitorRegion, peek_any, move_to_wiped_if, return_to_live}
use secmem.Registry.Sets.{
  Apart, id_of, id_of-move_to_wiped, id_of-return_to_live, move_to_wiped_if-Apart,
  return_to_live-Apart,
}
use secmem.Registry.Memory.{
  System, World, set_mem, canary_err, wiped_mapping, wipe_refused, wipe_granted, wipe_and_free,
  mark_wiped, settle, wipe_moved, wipe_in_place,
}

-- The region of an identity reads zeros and its owner is told so.
pub record Cleared (w : World) (id : ℕ) : Type 0 where
  pub zeroed : (w.mem id).inner ≡ zeros (length (w.mem id).inner)
  pub flagged : (w.mem id).wiped ≡ true

canary_err_lem :
    (pat : Pattern) (r : JanitorRegion) (m : Mapping) → is (canary_err pat r m) wipe_skipped ≡ false
unfolding canary_err is matches
canary_err_lem pat r m = ground arith

-- A moved region that can be made writable.
moved_granted :
    (os : System) (pat : Pattern) (key : ℕ) (j : Janitor) (r : JanitorRegion) (b : Bool) (w : World)
    → os.restore r.id ≡ []
    → (wipe_moved os pat key (j, some (r, b)) w).0
      ≡ mark_wiped r (set_mem r.id (wiped_mapping r (w.mem r.id)) (record w { janitor = j }))
unfolding wipe_moved wipe_and_free wipe_granted settle
moved_granted os pat key j r b w e = ground (arith, canary_err_lem pat r (w.mem r.id))

-- One that cannot is left as it was, in the set it came from.
moved_refused :
    (os : System) (pat : Pattern) (key : ℕ) (j : Janitor) (r : JanitorRegion) (b : Bool) (w : World)
    → os.restore r.id ≢ []
    → (wipe_moved os pat key (j, some (r, b)) w).0
      ≡ record w { janitor = if b then return_to_live key r j else j }
unfolding wipe_moved wipe_and_free wipe_refused settle is matches
moved_refused os pat key j r b w e = ground arith

zeros-zeros : (n : ℕ) → zeros n ≡ zeros (length (zeros n))
zeros-zeros n = ap zeros (sym (length-replicate {A = ℕ} n 0))

marked-Cleared :
    (r : JanitorRegion) (w : World) (m : Mapping)
    → Cleared (mark_wiped r (set_mem r.id (wiped_mapping r m) w)) r.id
unfolding mark_wiped set_mem wiped_mapping
marked-Cleared r w m = record {
  zeroed = ground (arith, zeros-zeros (length m.inner));
  flagged = ground arith;
}

marked-other :
    (r : JanitorRegion) (w : World) (m : Mapping) (k : ℕ)
    → r.id ≢ k
    → (mark_wiped r (set_mem r.id (wiped_mapping r m) w)).mem k ≡ w.mem k
unfolding mark_wiped set_mem
marked-other r w m k ne = ground arith

moved :
    (key : ℕ) (j : Janitor) (r : JanitorRegion)
    → peek_any key j ≡ some r
    → (b : Bool) × (move_to_wiped_if key r.id j ≡ ((move_to_wiped_if key r.id j).0, some (r, b)))
unfolding peek_any move_to_wiped_if
moved key j r e = elim (Option-cases (lookup key j.regions)) [
  | inl n ↦ (false, ground arith)
  | inr (x, f) ↦ (true, ground arith)
]

-- The sets after the move.
abbrev parked : ℕ → JanitorRegion → World → Janitor
parked key r w = (move_to_wiped_if key r.id w.janitor).0

-- The three outcomes of a wipe in place.
pub data Outcome (os : System) (key : ℕ) (w : World) : World → Type 0 where
  gone : peek_any key w.janitor ≡ none → Outcome os key w w
  cleared :
      (r : JanitorRegion)
      → peek_any key w.janitor ≡ some r
      → Outcome os key w (
          mark_wiped r
            (set_mem r.id (wiped_mapping r (w.mem r.id)) (record w { janitor = parked key r w })))
  refused :
      (r : JanitorRegion) (b : Bool)
      → peek_any key w.janitor ≡ some r
      → os.restore r.id ≢ []
      → Outcome os key w (record w {
        janitor = if b then return_to_live key r (parked key r w) else parked key r w;
      })

outcome_granted :
    (os : System) (pat : Pattern) (key : ℕ) (w : World) (r : JanitorRegion)
    → peek_any key w.janitor ≡ some r
    → os.restore r.id ≡ []
    → (wipe_in_place os pat key w).0
      ≡ mark_wiped r
          (set_mem r.id (wiped_mapping r (w.mem r.id)) (record w { janitor = parked key r w }))
unfolding wipe_in_place
outcome_granted os pat key w r e g =
    let (b, m) = moved key w.janitor r e in
    ground (arith, moved_granted os pat key (parked key r w) r b w g)

outcome_refused :
    (os : System) (pat : Pattern) (key : ℕ) (w : World) (r : JanitorRegion)
    → peek_any key w.janitor ≡ some r
    → os.restore r.id ≢ []
    → (b : Bool) × ((wipe_in_place os pat key w).0 ≡ record w {
      janitor = if b then return_to_live key r (parked key r w) else parked key r w;
    })
unfolding wipe_in_place
outcome_refused os pat key w r e g =
    let (b, m) = moved key w.janitor r e in
    (b, ground (arith, moved_refused os pat key (parked key r w) r b w g))

outcome_gone :
    (os : System) (pat : Pattern) (key : ℕ) (w : World)
    → peek_any key w.janitor ≡ none
    → (wipe_in_place os pat key w).0 ≡ w
unfolding wipe_in_place
outcome_gone os pat key w e = ground arith

granted_or_not : (e : Err) → (e ≡ []) ⊎ (e ≢ [])
granted_or_not [] = inl refl
granted_or_not (x ∷ e) = inr (λ q. ground arith)

outcome :
    (os : System) (pat : Pattern) (key : ℕ) (w : World)
    → Outcome os key w (wipe_in_place os pat key w).0
outcome os pat key w = elim (Option-cases (peek_any key w.janitor)) [
  | inl n ↦ subst (Outcome os key w) (sym (outcome_gone os pat key w n)) (gone n)
  | inr (r, e) ↦ elim (granted_or_not (os.restore r.id)) [
    | inl g ↦ subst (Outcome os key w) (sym (outcome_granted os pat key w r e g)) (cleared r e)
    | inr g ↦
        let (b, q) = outcome_refused os pat key w r e g in
        subst (Outcome os key w) (sym q) (refused r b e g)
  ]
]

-- A wipe moves registrations between the sets only.
ids_kept :
    (os : System) (key k : ℕ) (w : World) {w' : World}
    → Apart w.janitor
    → Outcome os key w w'
    → (id_of k w'.janitor ≡ id_of k w.janitor) × Apart w'.janitor
unfolding mark_wiped set_mem
ids_kept os key k w a (gone e) = (refl, a)
ids_kept os key k w a (cleared r e) =
    (id_of-move_to_wiped key r.id k w.janitor, move_to_wiped_if-Apart key r.id w.janitor a)
ids_kept os key k w a (refused r false e g) =
    (id_of-move_to_wiped key r.id k w.janitor, move_to_wiped_if-Apart key r.id w.janitor a)
ids_kept os key k w a (refused r true e g) =
    let apart = move_to_wiped_if-Apart key r.id w.janitor a in
    (
      id_of-return_to_live key k r (parked key r w) apart
          ∙ id_of-move_to_wiped key r.id k w.janitor,
      return_to_live-Apart key r (parked key r w) apart,
    )

-- A region that was cleared stays so, whatever key is wiped next.
Cleared-kept :
    (os : System) (key id : ℕ) (w : World) {w' : World}
    → Cleared w id
    → Outcome os key w w'
    → Cleared w' id
Cleared-kept os key id w c (gone e) = c
Cleared-kept os key id w c (cleared r e) = elim (Bool-cases (r.id == id)) [
  | inl same ↦ subst (Cleared _) ((==_iff r.id id).0 same) (marked-Cleared r _ (w.mem r.id))
  | inr ne ↦
      let other =
        marked-other r (record w { janitor = parked key r w }) (w.mem r.id) id
          (λ q. ground arith) in
      record {
        zeroed = subst (λ (m : Mapping). m.inner ≡ zeros (length m.inner)) (sym other) c.zeroed;
        flagged = subst (λ (m : Mapping). m.wiped ≡ true) (sym other) c.flagged;
      }
]
Cleared-kept os key id w c (refused r b e g) = record { zeroed = c.zeroed; flagged = c.flagged }

-- The wipe of a key clears its region if this can be made writable.
clears :
    (os : System) (key id : ℕ) (w : World) {w' : World}
    → id_of key w.janitor ≡ some id
    → os.restore id ≡ []
    → Outcome os key w w'
    → Cleared w' id
clears os key id w e g (gone n) = absurd (ground arith)
clears os key id w e g (cleared r p) =
    let same : r.id ≡ id = ground arith in subst (Cleared _) same (marked-Cleared r _ (w.mem r.id))
clears os key id w e g (refused r b p no_way) =
    let same : r.id ≡ id = ground arith in absurd (no_way (rw same g))

-- The wipe in place of a registered key zeroes its region and sets the flag that makes its owner
-- refuse, if write access to the region can be restored.
pub wipe_in_place-Cleared :
    (os : System) (pat : Pattern) (key id : ℕ) (w : World)
    → id_of key w.janitor ≡ some id
    → os.restore id ≡ []
    → Cleared (wipe_in_place os pat key w).0 id
wipe_in_place-Cleared os pat key id w e g = clears os key id w e g (outcome os pat key w)

-- What one wipe in place keeps of a key and of a region.
pub record Tracks (key id : ℕ) (w : World) : Type 0 where
  pub filed : id_of key w.janitor ≡ some id
  pub sets : Apart w.janitor

pub wipe_in_place-Tracks :
    (os : System) (pat : Pattern) (key k id : ℕ) (w : World)
    → Tracks k id w
    → Tracks k id (wipe_in_place os pat key w).0
wipe_in_place-Tracks os pat key k id w t =
    let (same, sets) = ids_kept os key k w t.sets (outcome os pat key w) in
    record { filed = same ∙ t.filed; sets = sets }

pub wipe_in_place-stays :
    (os : System) (pat : Pattern) (key id : ℕ) (w : World)
    → Cleared w id
    → Cleared (wipe_in_place os pat key w).0 id
wipe_in_place-stays os pat key id w c = Cleared-kept os key id w c (outcome os pat key w)
