-- ===== src/SealKeys/Cleanup.antt =====
-- sealauth.go, initLocked: a failure leaves no registration behind.
use secmem.Prelude.{
  ℕ, ◌≡◌, ap, ◌∙◌, inl, inr, Bool-cases, Option-cases, false, if◌then◌else◌, ◌==◌, Option, none,
  some, length, write, arith,
}
use secmem.Errors.{Error, err}
use secmem.Region.{Mapping}
use secmem.Registry.{Janitor, JanitorRegion, register, peek_any}
use secmem.Registry.Sets.{Apart, register-Registers, register-Apart}
use secmem.Registry.Memory.{World, set_mem, release}
use secmem.Registry.Release.{peek_any-release, release-Apart}
use secmem.SealKeys.{Keyring, Source, reclaim, prekey_entry, fill_prekey, make_prekey, init_locked}

-- What is registered under key j once the keyring has given its region up.
abbrev pub remaining : Keyring → World → ℕ → Option JanitorRegion
remaining k w j = elim k.region [
  | none ↦ peek_any j w.janitor
  | some id ↦ if k.key == j then none else peek_any j w.janitor
]

-- A registration, seen by every key.
peek_any-register :
    (r : JanitorRegion) (j : Janitor) (key i : ℕ)
    → (register r j).1 ≡ some key
    → peek_any i (register r j).0 ≡ (if key == i then some r else peek_any i j)
unfolding peek_any
peek_any-register r j key i e =
    let reg =
      register-Registers r j {j' = (register r j).0} {key = key}
        (ap (λ (o : Option ℕ). ((register r j).0, o)) e) in
    ground (arith, reg.live_set i, reg.same_wiped)

new_key :
    (r : JanitorRegion) (j : Janitor) (key : ℕ)
    → (register r j).1 ≡ some key
    → peek_any key j ≡ none
new_key r j key e =
    (register-Registers r j {j' = (register r j).0} {key = key}
      (ap (λ (o : Option ℕ). ((register r j).0, o)) e)).new_key

-- A refused registration changes no entry.
register-refused :
    (r : JanitorRegion) (j : Janitor) (i : ℕ)
    → (register r j).1 ≡ none
    → peek_any i (register r j).0 ≡ peek_any i j
unfolding register peek_any
register-refused r j i e = ground arith

fill_prekey-fails :
    (s : Source) (id key : ℕ) (m : Mapping) (k : Keyring) (w : World) {k' : Keyring} {w' : World}
    {x : Error}
    → Apart w.janitor
    → fill_prekey s id key m k w ≡ (k', w', err x)
    → (k' ≡ k)
      × ((i : ℕ) → peek_any i w'.janitor ≡ (if key == i then none else peek_any i w.janitor))
unfolding fill_prekey set_mem
fill_prekey-fails s id key m k w {k'} {w'} a e =
    let filled : World = set_mem id (record m { inner = write 0 s.random.0 m.inner }) w in
    let undone : w' ≡ (release s.os s.pattern key false filled).0 = ground arith in
    (
      ground arith,
      λ i.
          ap (λ (v : World). peek_any i v.janitor) undone
          ∙ peek_any-release s.os s.pattern key i false filled a,
    )

make_prekey-fails :
    (s : Source) (k : Keyring) (w : World) {k' : Keyring} {w' : World} {x : Error}
    → Apart w.janitor
    → make_prekey s k w ≡ (k', w', err x)
    → (k' ≡ k) × ((i : ℕ) → peek_any i w'.janitor ≡ peek_any i w.janitor)
unfolding make_prekey set_mem
make_prekey-fails s k w {k'} {w'} {x} a e = elim (Option-cases s.alloc) [
  | inl n ↦ (ground arith, λ i. ground arith)
  | inr ((id, m, size), f) ↦ elim (Bool-cases (size == length m.inner)) [
    | inr odd ↦ (ground arith, λ i. ground arith)
    | inl exact ↦ elim (Option-cases (register (prekey_entry id) w.janitor).1) [
      | inl n ↦
          (ground arith, λ i. ground (arith, register-refused (prekey_entry id) w.janitor i n))
      | inr (key, r) ↦
          let (ring, peeked) =
            fill_prekey-fails s id key m k
              (record (set_mem id m w) { janitor = (register (prekey_entry id) w.janitor).0 })
              {k' = k'} {w' = w'} {x = x} (register-Apart (prekey_entry id) w.janitor a)
              (ground arith) in
          (
            ring,
            λ i. ground (
              arith,
              peeked i,
              peek_any-register (prekey_entry id) w.janitor key i r,
              new_key (prekey_entry id) w.janitor key r,
            ),
          )
    ]
  ]
]

reclaim-Apart :
    (s : Source) (k : Keyring) (w : World) → Apart w.janitor → Apart (reclaim s k w).1.janitor
unfolding reclaim
reclaim-Apart s k w a = elim (Option-cases k.region) [
  | inl n ↦ rw n a
  | inr (id, f) ↦ rw f (release-Apart s.os s.pattern k.key false w a)
]

reclaim-remaining :
    (s : Source) (k : Keyring) (w : World)
    → Apart w.janitor
    → ((reclaim s k w).0.region ≡ none)
      × ((reclaim s k w).0.gen ≡ k.gen)
      × ((i : ℕ) → peek_any i (reclaim s k w).1.janitor ≡ remaining k w i)
unfolding reclaim
reclaim-remaining s k w a = elim (Option-cases k.region) [
  | inl n ↦ (ground arith, ground arith, λ i. ground arith)
  | inr (id, f) ↦ (
    ground arith,
    ground arith,
    λ i. ground (arith, peek_any-release s.os s.pattern k.key i false w a),
  )
]

-- Where no key is in both sets: an initLocked that fails, wherever it fails, leaves the keyring without
-- a region and its generation as it was, and the janitor with the registrations that it had, less the
-- one that the keyring had before.
pub init_locked-fails :
    (s : Source) (k : Keyring) (w : World) {k' : Keyring} {w' : World} {x : Error}
    → Apart w.janitor
    → init_locked s k w ≡ (k', w', err x)
    → (k'.region ≡ none) × (k'.gen ≡ k.gen) × ((i : ℕ) → peek_any i w'.janitor ≡ remaining k w i)
unfolding init_locked
init_locked-fails s k w {k'} {w'} {x} a e =
    let (region, gen, left) = reclaim-remaining s k w a in
    let (ring, same) =
      make_prekey-fails s (reclaim s k w).0 (reclaim s k w).1 {k' = k'} {w' = w'} {x = x}
        (reclaim-Apart s k w a) e in
    (
      ap (λ (r : Keyring). r.region) ring ∙ region,
      ap (λ (r : Keyring). r.gen) ring ∙ gen,
      λ i. same i ∙ left i,
    )
