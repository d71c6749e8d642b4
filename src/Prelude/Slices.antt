-- ===== src/Prelude/Slices.antt =====
-- What a range reads after a write: the laws that bounds-checked slice code relies on.
use Prim.Native.Nat.{ℕ, zero, suc, ◌+◌, ◌≤◌}
use mathlib.Core.Path.{◌≡◌, refl, ap}
use mathlib.Core.Logic.{◌⊎◌, inl, inr}
use mathlib.Core.List.{List, [], ◌∷◌, ◌++◌}
use native.Mathlib.Omega.{arith}
use secmem.Prelude.Lists.{length, take, drop, slice, overlay, write, length-take, length-drop}

module _ {ℓ} {A : Type ℓ} where
  pub length-overlay : (ys xs : List A) → length (overlay ys xs) ≡ length xs
  length-overlay [] xs = refl
  length-overlay (y ∷ ys) [] = refl
  length-overlay (y ∷ ys) (x ∷ xs) = ap suc (length-overlay ys xs)

  pub length-write : (lo : ℕ) (ys xs : List A) → length (write lo ys xs) ≡ length xs
  length-write zero ys xs = length-overlay ys xs
  length-write (suc lo) ys [] = refl
  length-write (suc lo) ys (x ∷ xs) = ap suc (length-write lo ys xs)

  pub length-slice : (lo n : ℕ) (xs : List A) → lo + n ≤ length xs → length (slice lo n xs) ≡ n
  length-slice lo n xs h = omega (arith, length-take n (drop lo xs), length-drop lo xs)

  take-overlay : (ys xs : List A) → length ys ≤ length xs → take (length ys) (overlay ys xs) ≡ ys
  take-overlay [] xs h = refl
  take-overlay (y ∷ ys) [] h = absurd (omega arith)
  take-overlay (y ∷ ys) (x ∷ xs) h = ap (◌∷◌ y) (take-overlay ys xs (omega arith))

  -- A range that was just written reads what was written.
  pub slice-write_self :
      (lo : ℕ) (ys xs : List A)
      → lo + length ys ≤ length xs
      → slice lo (length ys) (write lo ys xs) ≡ ys
  slice-write_self zero ys xs h = take-overlay ys xs (omega arith)
  slice-write_self (suc lo) ys [] h = absurd (omega arith)
  slice-write_self (suc lo) ys (x ∷ xs) h = slice-write_self lo ys xs (omega arith)

  -- A range that ends before the write reads what it read.
  pub slice-write_before :
      (at n lo : ℕ) (ys xs : List A) → at + n ≤ lo → slice at n (write lo ys xs) ≡ slice at n xs
  slice-write_before zero zero lo ys xs h = refl
  slice-write_before zero (suc n) zero ys xs h = absurd (omega arith)
  slice-write_before zero (suc n) (suc lo) ys [] h = refl
  slice-write_before zero (suc n) (suc lo) ys (x ∷ xs) h =
      ap (◌∷◌ x) (slice-write_before zero n lo ys xs (omega arith))
  slice-write_before (suc at) n zero ys xs h = absurd (omega arith)
  slice-write_before (suc at) n (suc lo) ys [] h = refl
  slice-write_before (suc at) n (suc lo) ys (x ∷ xs) h =
      slice-write_before at n lo ys xs (omega arith)

  drop-overlay : (at : ℕ) (ys xs : List A) → length ys ≤ at → drop at (overlay ys xs) ≡ drop at xs
  drop-overlay at [] xs h = refl
  drop-overlay zero (y ∷ ys) xs h = absurd (omega arith)
  drop-overlay (suc at) (y ∷ ys) [] h = refl
  drop-overlay (suc at) (y ∷ ys) (x ∷ xs) h = drop-overlay at ys xs (omega arith)

  pub drop-write :
      (at lo : ℕ) (ys xs : List A) → lo + length ys ≤ at → drop at (write lo ys xs) ≡ drop at xs
  drop-write at zero ys xs h = drop-overlay at ys xs (omega arith)
  drop-write zero (suc lo) ys xs h = absurd (omega arith)
  drop-write (suc at) (suc lo) ys [] h = refl
  drop-write (suc at) (suc lo) ys (x ∷ xs) h = drop-write at lo ys xs (omega arith)

  -- A range that starts after the write reads what it read.
  pub slice-write_after :
      (at n lo : ℕ) (ys xs : List A)
      → lo + length ys ≤ at
      → slice at n (write lo ys xs) ≡ slice at n xs
  slice-write_after at n lo ys xs h = ap (take n) (drop-write at lo ys xs h)

  -- A range that a write does not meet reads what it read.
  pub slice-write_apart :
      (at n lo : ℕ) (ys xs : List A)
      → (at + n ≤ lo) ⊎ (lo + length ys ≤ at)
      → slice at n (write lo ys xs) ≡ slice at n xs
  slice-write_apart at n lo ys xs (inl before) = slice-write_before at n lo ys xs before
  slice-write_apart at n lo ys xs (inr after) = slice-write_after at n lo ys xs after

  -- A write behind what is there.
  overlay-append :
      (ys tail : List A) → length ys ≤ length tail → overlay ys tail ≡ ys ++ drop (length ys) tail
  overlay-append [] tail h = refl
  overlay-append (y ∷ ys) [] h = absurd (omega arith)
  overlay-append (y ∷ ys) (t ∷ tail) h = ap (◌∷◌ y) (overlay-append ys tail (omega arith))

  pub write-append :
      (out ys tail : List A)
      → length ys ≤ length tail
      → write (length out) ys (out ++ tail) ≡ (out ++ ys) ++ drop (length ys) tail
  write-append [] ys tail h = overlay-append ys tail h
  write-append (x ∷ out) ys tail h = ap (◌∷◌ x) (write-append out ys tail h)
