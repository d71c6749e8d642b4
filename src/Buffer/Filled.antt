-- ===== src/Buffer/Filled.antt =====
-- securebuf.go, NewBuffer: a buffer that is returned holds the secret and is registered.
use secmem.Prelude.{
  ℕ, ◌≤◌, ◌≡◌, refl, sym, ap, ◌∙◌, Option-cases, inl, inr, some, List, [], ◌∷◌, length, slice,
  write, arith,
}
use secmem.Prelude.Lists
use secmem.Prelude.Slices.{slice-write_self, length-write}
use secmem.Errors.{Err, Result, ok, err, wiped}
use secmem.KeyMap.{lookup}
use secmem.Canary.{fill_canary}
use secmem.Region.{Mapping}
use secmem.Registry.{Janitor, JanitorRegion, register, peek_any}
use secmem.Registry.Sets.{register-Registers}
use secmem.Registry.Memory.{World, set_mem}
use secmem.Arena.New.{Config, Platform}
use secmem.Buffer.{Buffer, open_use, close_use, first_open}
use secmem.Buffer.Lifecycle.{
  Env, abandon, close_at_birth, fresh_buffer, buffer_entry, new_secure_buffer, allocate, copy_in,
  fill_initial, filled, new_buffer,
}

-- The same buffer in the same registry.
record Same (b : Buffer) (w : World) (b1 : Buffer) (w1 : World) : Type 0 where
  id : b1.id ≡ b.id
  size : b1.size ≡ b.size
  key : b1.janitor_key ≡ b.janitor_key
  janitor : w1.janitor ≡ w.janitor

abandon-ok :
    (v : Env) (e : Err) (b : Buffer) (w : World) {w1 : World} {b1 : Buffer}
    → abandon v e b w ≡ (w1, ok b1)
    → (e ≡ []) × (w1 ≡ w) × (b1 ≡ b)
unfolding abandon
abandon-ok v [] b w h = (refl, ground arith, ground arith)
abandon-ok v (e ∷ es) b w h = absurd (ground arith)

birth-ok :
    (v : Env) (cfg : Config) (b : Buffer) (w : World) {w1 : World} {b1 : Buffer}
    → close_at_birth v cfg b w ≡ (w1, ok b1)
    → Same b w b1 w1 × ((w1.mem b.id).inner ≡ (w.mem b.id).inner)
unfolding close_at_birth set_mem abandon
birth-ok v cfg b w h = (
  record { id = ground arith; size = ground arith; key = ground arith; janitor = ground arith },
  ground arith,
)

open-same :
    (v : Env) (b : Buffer) (m : Mapping)
    → ((open_use v.calls b m).0.id ≡ b.id)
      × ((open_use v.calls b m).0.size ≡ b.size)
      × ((open_use v.calls b m).0.janitor_key ≡ b.janitor_key)
      × ((open_use v.calls b m).1.inner ≡ m.inner)
unfolding open_use first_open
open-same v b m = (ground arith, ground arith, ground arith, ground arith)

close-same :
    (v : Env) (b : Buffer) (m : Mapping)
    → ((close_use v.calls b m).0.id ≡ b.id)
      × ((close_use v.calls b m).0.size ≡ b.size)
      × ((close_use v.calls b m).0.janitor_key ≡ b.janitor_key)
      × ((close_use v.calls b m).1.inner ≡ m.inner)
unfolding close_use
close-same v b m = (ground arith, ground arith, ground arith, ground arith)

copy-ok :
    (v : Env) (raw : List ℕ) (b : Buffer) (m : Mapping) (w : World) {w1 : World} {b1 : Buffer}
    → copy_in v raw b m w ≡ (w1, ok b1)
    → Same b w b1 w1 × ((w1.mem b.id).inner ≡ write 0 raw m.inner)
unfolding copy_in set_mem
copy-ok v raw b m w {w1} {b1} h =
    let (id, size, key, bytes) = close-same v b (record m { inner = write 0 raw m.inner }) in
    let (_, ws, bs) =
      abandon-ok v _ (close_use v.calls b (record m { inner = write 0 raw m.inner })).0 _ {w1 = w1}
        {b1 = b1} h in
    (
      record {
        id = rw bs id;
        size = rw bs size;
        key = rw bs key;
        janitor = ap (λ (x : World). x.janitor) ws;
      },
      ap (λ (x : World). (x.mem b.id).inner) ws ∙ ground arith,
    )

fill-ok :
    (v : Env) (raw : List ℕ) (b : Buffer) (w : World) {w1 : World} {b1 : Buffer}
    → fill_initial v raw b w ≡ (w1, ok b1)
    → Same b w b1 w1 × ((w1.mem b.id).inner ≡ write 0 raw (w.mem b.id).inner)
unfolding fill_initial
fill-ok v raw b w {w1} {b1} h =
    let (id, size, key, bytes) = open-same v b (w.mem b.id) in
    let opened = (open_use v.calls b (w.mem b.id)).0 in
    let copied : copy_in v raw opened (open_use v.calls b (w.mem b.id)).1 w ≡ (w1, ok b1) = ground (
      arith,
      abandon-ok v (open_use v.calls b (w.mem b.id)).2 opened
          (set_mem b.id (open_use v.calls b (w.mem b.id)).1 w) {w1 = w1} {b1 = b1},
      abandon-ok v (wiped ∷ []) b w {w1 = w1} {b1 = b1},
    ) in
    let (same, stored) =
      copy-ok v raw opened (open_use v.calls b (w.mem b.id)).1 w {w1 = w1} {b1 = b1} copied in
    (
      record {
        id = same.id ∙ id;
        size = same.size ∙ size;
        key = same.key ∙ key;
        janitor = same.janitor;
      },
      ap (λ i. (w1.mem i).inner) (sym id) ∙ stored ∙ ap (write 0 raw) bytes,
    )

-- A new buffer over a region, registered.
record Made (size id : ℕ) (m : Mapping) (b : Buffer) (w : World) : Type 0 where
  ids : b.id ≡ id
  sizes : b.size ≡ size
  bytes : (w.mem id).inner ≡ m.inner
  filed : peek_any b.janitor_key w.janitor ≡ some (buffer_entry size id m)

found :
    (k : ℕ) (j : Janitor) {r : JanitorRegion} → lookup k j.regions ≡ some r → peek_any k j ≡ some r
unfolding peek_any
found k j e = ground arith

secure-ok :
    (v : Env) (cfg : Config) (size id : ℕ) (m : Mapping) (w : World) {w1 : World} {b1 : Buffer}
    → new_secure_buffer v cfg size id m w ≡ (w1, ok b1)
    → Made size id m b1 w1
unfolding new_secure_buffer
secure-ok v cfg size id m w {w1} {b1} h =
    elim (Option-cases (register (buffer_entry size id m) w.janitor).1) [
      | inl n ↦ absurd (ground arith)
      | inr (key, e) ↦
          let j = (register (buffer_entry size id m) w.janitor).0 in
          let at = set_mem id m w in
          let (same, bytes) =
            birth-ok v cfg (fresh_buffer cfg size id key) (record at { janitor = j }) {w1 = w1}
              {b1 = b1} (ground arith) in
          let reg : register (buffer_entry size id m) w.janitor ≡ (j, some key) = ground arith in
          record {
            ids = same.id;
            sizes = same.size;
            bytes = bytes ∙ (unfold set_mem in ground arith);
            filed =
                ap (λ k. peek_any k w1.janitor) same.key
                ∙ ap (peek_any key) same.janitor
                ∙ found key j (register-Registers (buffer_entry size id m) w.janitor reg).filed;
          }
    ]

-- Where the region of a new buffer came from.
record Allocated (pf : Platform) (size : ℕ) (b : Buffer) (w : World) : Type 0 where
  id : ℕ
  slab : Mapping
  slack : List ℕ
  given : pf.alloc size ≡ some (id, slab)
  made : Made size id (record slab { inner = write size slack slab.inner }) b w

allocate-ok :
    (pf : Platform) (v : Env) (cfg : Config) (size : ℕ) (w : World) {w1 : World} {b1 : Buffer}
    → allocate pf v cfg size w ≡ (w1, ok b1)
    → Allocated pf size b1 w1
unfolding allocate
allocate-ok pf v cfg size w {w1} {b1} h = elim (Option-cases (pf.alloc size)) [
  | inl none_left ↦ absurd (ground arith)
  | inr ((id, slab), given) ↦
      let slack = (fill_canary v.pattern (Lists.drop size slab.inner)).0 in
      let e : new_secure_buffer v cfg size id (record slab { inner = write size slack slab.inner })
            w
          ≡ (w1, ok b1) =
        ground arith in
      record {
        id = id;
        slab = slab;
        slack = slack;
        given = given;
        made = secure-ok v cfg size id _ w {w1 = w1} {b1 = b1} e;
      }
]

filled-ok :
    (v : Env) (raw : List ℕ) (w : World) (r : Result Buffer) {w1 : World} {b1 : Buffer}
    → filled v raw (w, r) ≡ (w1, ok b1)
    → (b : Buffer) × (r ≡ ok b) × (fill_initial v raw b w ≡ (w1, ok b1))
unfolding filled
filled-ok v raw w (ok b) h = (b, refl, h)
filled-ok v raw w (err e) h = absurd (ground arith)

stored_back :
    (raw slack inner : List ℕ)
    → length raw ≤ length inner
    → slice 0 (length raw) (write 0 raw (write (length raw) slack inner)) ≡ raw
stored_back raw slack inner fits =
    slice-write_self 0 raw (write (length raw) slack inner)
      (rw (length-write (length raw) slack inner) (omega arith))

-- What NewBuffer promises of its buffer.
abbrev Holds : List ℕ → Buffer → World → Type 0
Holds raw b w =
    (b.size ≡ length raw)
    × (slice 0 (length raw) (w.mem b.id).inner ≡ raw)
    × (r : JanitorRegion) × (peek_any b.janitor_key w.janitor ≡ some r)
    × (r.id ≡ b.id)

Allocated-Holds :
    (pf : Platform) (raw : List ℕ) (b0 b : Buffer) (w0 w1 : World)
    → ((n id : ℕ) (m : Mapping) → pf.alloc n ≡ some (id, m) → n ≤ length m.inner)
    → Allocated pf (length raw) b0 w0
    → Same b0 w0 b w1
    → (w1.mem b0.id).inner ≡ write 0 raw (w0.mem b0.id).inner
    → Holds raw b w1
Allocated-Holds pf raw b0 b w0 w1 fits a same stored =
    let inner : (w1.mem b.id).inner ≡ write 0 raw (write (length raw) a.slack a.slab.inner) =
      ap (λ i. (w1.mem i).inner) same.id
      ∙ stored
      ∙ ap (λ i. write 0 raw (w0.mem i).inner) a.made.ids
      ∙ ap (write 0 raw) a.made.bytes in
    (
      same.size ∙ a.made.sizes,
      ap (slice 0 (length raw)) inner
          ∙ stored_back raw a.slack a.slab.inner (fits (length raw) a.id a.slab a.given),
      buffer_entry (length raw) a.id
          (record a.slab { inner = write (length raw) a.slack a.slab.inner }),
      ap (λ k. peek_any k w1.janitor) same.key
          ∙ ap (peek_any b0.janitor_key) same.janitor
          ∙ a.made.filed,
      sym (same.id ∙ a.made.ids),
    )

-- A buffer that NewBuffer returns has the length of the caller's slice, holds the bytes which that
-- slice held, and is registered with the janitor under its own key and the identity of its region, on
-- a platform whose allocations are at least as long as what is asked for.
pub new_buffer-holds :
    (pf : Platform) (v : Env) (cfg : Config) (raw : List ℕ) (w : World) {w1 : World} {raw' : List ℕ}
    {b : Buffer}
    → ((n id : ℕ) (m : Mapping) → pf.alloc n ≡ some (id, m) → n ≤ length m.inner)
    → new_buffer pf v cfg raw w ≡ (w1, raw', ok b)
    → (b.size ≡ length raw)
      × (slice 0 (length raw) (w1.mem b.id).inner ≡ raw)
      × (r : JanitorRegion) × (peek_any b.janitor_key w1.janitor ≡ some r)
      × (r.id ≡ b.id)
unfolding new_buffer
new_buffer-holds pf v cfg raw w {w1} {raw'} {b} fits h =
    let start = allocate pf v cfg (length raw) w in
    let e : filled v raw start ≡ (w1, ok b) = ground arith in
    let (b0, got, filling) = filled-ok v raw start.0 start.1 {w1 = w1} {b1 = b} e in
    let from : allocate pf v cfg (length raw) w ≡ (start.0, ok b0) = ground arith in
    let (same, stored) = fill-ok v raw b0 start.0 {w1 = w1} {b1 = b} filling in
    Allocated-Holds pf raw b0 b start.0 w1 fits
      (allocate-ok pf v cfg (length raw) w {w1 = start.0} {b1 = b0} from) same stored
