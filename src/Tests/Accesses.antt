-- ===== src/Tests/Accesses.antt =====
-- Runs of the access methods on a buffer of four bytes that is closed at rest, before two of canary.
use secmem.Prelude.{ℕ, ◌-◌, true, false, List, [], ◌∷◌, length, take, ◌≡◌, ◌≢◌, refl, arith}
use Prim.Native.Nat.{min}
use secmem.Region.{Mapping, prot_none}
use secmem.Buffer.{Buffer, Calls, open_use, close_use, first_open, refuse}
use secmem.Buffer.Access.{
  access, step_closed, write_range, read_range, compare_data, copy_out, refuse_write, copy_in,
  constant_time_equal,
}
use secmem.Buffer.AccessLaws.{copy_out-copy_in}

abbrev pub granted : Calls
granted = record {
  open_protect = [];
  open_relock = [];
  open_back = [];
  close_protect = [];
  change = [];
  lift = [];
  relock = [];
  back = [];
  protect_none = [];
  restore = [];
  reapply = [];
  encrypt = λ xs. ((xs, true), []);
  decrypt = λ xs. (xs, []);
}

abbrev pub rested : Buffer
rested = record {
  present = true;
  id = 7;
  size = 4;
  janitor_key = 1;
  sealed = false;
  read_only = false;
  seal_auth = false;
  seal_tagged = false;
  seal_gen = 0;
  seal_nonce = [];
  seal_tag = [];
  closed_at_rest = true;
  openers = 0;
}

abbrev pub region : Mapping
region = record {
  inner = 1 ∷ 2 ∷ 3 ∷ 4 ∷ 170 ∷ 171 ∷ [];
  prot = prot_none;
  mapped = true;
  wiped = false;
  cipher = false;
}

abbrev written : Mapping
written = record region { inner = 1 ∷ 2 ∷ 8 ∷ 9 ∷ 170 ∷ 171 ∷ [] }

abbrev emptied : Mapping
emptied = record region { wiped = true }

abbrev incoming : List ℕ
incoming = 8 ∷ 9 ∷ 10 ∷ []

wiped_refuses : refuse rested emptied ≢ []
unfolding refuse
wiped_refuses = λ h. cc h

-- CopyIn stops at the end of the data, and leaves the page closed.
stored : copy_in granted incoming 2 rested region ≡ (rested, written, 2, [])
unfolding copy_in refuse_write refuse access step_closed write_range open_use close_use first_open
stored = refl

read_back : copy_out granted 2 2 rested written ≡ (rested, written, 8 ∷ 9 ∷ [], [])
unfolding copy_out refuse access step_closed read_range open_use close_use first_open
read_back = refl

compared :
    constant_time_equal granted (1 ∷ 2 ∷ 3 ∷ 4 ∷ []) rested region ≡ (rested, region, true, [])
unfolding constant_time_equal refuse access step_closed compare_data open_use close_use first_open
compared = refl

copy_out-copy_in_example : (2 ≡ min (length incoming) (4 - 2)) × (8 ∷ 9 ∷ [] ≡ take 2 incoming)
copy_out-copy_in_example =
    copy_out-copy_in granted granted incoming 2 rested region {b1 = rested} {b2 = rested}
      {m1 = written} {m2 = written} {n = 2} {out = 8 ∷ 9 ∷ []} (omega arith) stored read_back
