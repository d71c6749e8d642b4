-- ===== src/Registry/Sets.antt =====
-- registry.go: the janitor's two sets. A key is in one of them at most, a new key was in neither, and
-- a registration leaves them only by being taken.
use secmem.Prelude.{
  ℕ, ◌+◌, ◌≡◌, refl, ◌≢◌, ◌⊎◌, inl, inr, true, false, if◌then◌else◌, ◌==◌, Option-cases, Option,
  none, some, arith,
}
use secmem.KeyMap.{lookup, lookup-insert, lookup-delete}
use secmem.Registry.{
  Janitor, JanitorRegion, u64, register, take, take_wiped, take_any, peek_any, take_any_if,
  retained, move_to_wiped_if, return_to_live, empty_janitor,
}

-- No key is in both sets.
pub record Apart (j : Janitor) : Type 0 where
  pub apart : (k : ℕ) → (lookup k j.regions ≡ none) ⊎ (lookup k j.wiped ≡ none)

-- What a registration that is not refused does.
pub record Registers (r : JanitorRegion) (j j' : Janitor) (key : ℕ) : Type 0 where
  pub filed : lookup key j'.regions ≡ some r
  pub nonzero : key ≢ 0
  pub new_key : peek_any key j ≡ none
  pub live_set : (k : ℕ) → lookup k j'.regions ≡ (if key == k then some r else lookup k j.regions)
  pub same_wiped : j'.wiped ≡ j.wiped

-- A registration that is not refused files the region in the live set under a nonzero key that
-- neither set had, and changes no other entry of either set.
pub register-Registers :
    (r : JanitorRegion) (j : Janitor) {j' : Janitor} {key : ℕ}
    → register r j ≡ (j', some key)
    → Registers r j j' key
unfolding register peek_any
register-Registers r j {j'} {key} h = record {
  filed = ground (arith, lookup-insert (u64 (j.next_key + 1)) key r j.regions);
  nonzero = ground arith;
  new_key = ground arith;
  live_set = λ k. ground (arith, lookup-insert (u64 (j.next_key + 1)) k r j.regions);
  same_wiped = ground arith;
}

-- Each operation on the sets, seen from the two lookups that it changes.
pub take_any_lem :
    (key : ℕ) (j : Janitor)
    → ((take_any key j).1 ≡ peek_any key j) × (Apart j → peek_any key (take_any key j).0 ≡ none)
unfolding take_any take take_wiped peek_any
take_any_lem key j = (
  ground arith,
  λ a. ground (arith, a.apart key, lookup-delete key key j.regions, lookup-delete key key j.wiped),
)

-- Another key's registration is not touched.
pub take_any_other :
    (key k : ℕ) (j : Janitor) → k ≢ key → peek_any k (take_any key j).0 ≡ peek_any k j
unfolding take_any take take_wiped peek_any
take_any_other key k j ne =
    ground (arith, lookup-delete key k j.regions, lookup-delete key k j.wiped)

-- takeAnyIf takes what takeAny takes, if the caller holds its lock, and nothing otherwise.
pub take_any_if_lem :
    (key id : ℕ) (j : Janitor)
    → ((r : JanitorRegion)
        → peek_any key j ≡ some r
        → r.id ≡ id
        → take_any_if key id j ≡ take_any key j)
      × ((r : JanitorRegion)
          → peek_any key j ≡ some r
          → r.id ≢ id
          → take_any_if key id j ≡ (j, none))
      × (peek_any key j ≡ none → take_any_if key id j ≡ (j, none))
unfolding take_any_if take_any take take_wiped peek_any
take_any_if_lem key id j = (λ r e same. ground arith, λ r e ne. ground arith, λ e. ground arith)

-- The identity that a key is filed under, in either set.
abbrev pub id_of : ℕ → Janitor → Option ℕ
id_of key j = elim (peek_any key j) [ some r ↦ some r.id | none ↦ none ]

-- moveToWipedIf of a live key by the holder of its lock returns the registration as it was, takes it
-- out of the live set, and files it in the wiped set with no canary zones and no seal-cipher flag.
pub move_to_wiped_live :
    (key id : ℕ) (j : Janitor) (r : JanitorRegion)
    → lookup key j.regions ≡ some r
    → r.id ≡ id
    → ((move_to_wiped_if key id j).1 ≡ some (r, true))
      × (lookup key (move_to_wiped_if key id j).0.regions ≡ none)
      × (lookup key (move_to_wiped_if key id j).0.wiped ≡ some (retained r))
unfolding move_to_wiped_if
move_to_wiped_live key id j r e same = (
  ground arith,
  ground (arith, lookup-delete key key j.regions),
  ground (arith, lookup-insert key key (retained r) j.wiped),
)

-- From the wiped set nothing moves.
pub move_to_wiped_again :
    (key id : ℕ) (j : Janitor) (r : JanitorRegion)
    → lookup key j.regions ≡ none
    → lookup key j.wiped ≡ some r
    → r.id ≡ id
    → move_to_wiped_if key id j ≡ (j, some (r, false))
unfolding move_to_wiped_if
move_to_wiped_again key id j r n e same = ground arith

-- moveToWipedIf loses no registration: every key is in one of the sets under the identity that it had
-- before.
pub id_of-move_to_wiped :
    (key id k : ℕ) (j : Janitor) → id_of k (move_to_wiped_if key id j).0 ≡ id_of k j
unfolding move_to_wiped_if peek_any
id_of-move_to_wiped key id k j = elim (Option-cases (lookup key j.regions)) [
  | inl n ↦ ground arith
  | inr (r, e) ↦
      ground (arith, lookup-delete key k j.regions, lookup-insert key k (retained r) j.wiped)
]

-- While no key is in both sets, returnToLive loses no registration: every key is in one of the sets
-- under the identity that it had before.
pub id_of-return_to_live :
    (key k : ℕ) (r : JanitorRegion) (j : Janitor)
    → Apart j
    → id_of k (return_to_live key r j) ≡ id_of k j
unfolding return_to_live peek_any
id_of-return_to_live key k r j a =
    ground
      (arith, a.apart key, a.apart k, lookup-delete key k j.wiped, lookup-insert key k r j.regions)

-- moveToWipedIf keeps the two sets apart: no key comes to be in both.
pub move_to_wiped_if-Apart :
    (key id : ℕ) (j : Janitor) → Apart j → Apart (move_to_wiped_if key id j).0
unfolding move_to_wiped_if
move_to_wiped_if-Apart key id j a = record {
  apart = λ k. elim (Option-cases (lookup key j.regions)) [
    | inl n ↦ ground (arith, a.apart k)
    | inr (r, e) ↦
        ground (
          arith,
          a.apart k,
          lookup-delete key k j.regions,
          lookup-insert key k (retained r) j.wiped,
        )
  ];
}

-- returnToLive keeps the two sets apart: no key comes to be in both.
pub return_to_live-Apart :
    (key : ℕ) (r : JanitorRegion) (j : Janitor) → Apart j → Apart (return_to_live key r j)
unfolding return_to_live
return_to_live-Apart key r j a = record {
  apart =
      λ k. ground (arith, a.apart k, lookup-delete key k j.wiped, lookup-insert key k r j.regions);
}

pub take_any-Apart : (key : ℕ) (j : Janitor) → Apart j → Apart (take_any key j).0
unfolding take_any take take_wiped
take_any-Apart key j a = record {
  apart =
      λ k. ground (arith, a.apart k, lookup-delete key k j.regions, lookup-delete key k j.wiped);
}

pub register-Apart : (r : JanitorRegion) (j : Janitor) → Apart j → Apart (register r j).0
unfolding register
register-Apart r j a = record {
  apart = λ k. ground (arith, a.apart k, lookup-insert (u64 (j.next_key + 1)) k r j.regions);
}

pub empty-Apart : Apart empty_janitor
unfolding lookup
empty-Apart = record { apart = λ k. inl refl }
