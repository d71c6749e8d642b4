-- ===== src/Prelude/Bytes.antt =====
-- Byte strings: the bytes of a string literal, and the comparisons of package bytes.
use Prim.Native.Char.{code}
use Prim.Native.String.{String}
use Prim.Native.Nat.{ℕ}
use mathlib.Core.Path.{◌≡◌, refl}
use mathlib.Core.Bool.{Bool, true, false, ◌&&◌}
use mathlib.Core.List.{List, [], ◌∷◌, ◌++◌}
use mathlib.Core.Option.{Option, none, some}
use native.Mathlib.Omega.{arith}
use secmem.Prelude.Tests.{◌==◌}

-- The bytes of an ASCII literal.
abbrev pub codes : String → List ℕ
codes String.[] = []
codes (String.◌∷◌ c s) = code c ∷ codes s

-- bytes.Equal, and the comparison of two strings.
abbrev pub equal_bytes : List ℕ → List ℕ → Bool
equal_bytes [] [] = true
equal_bytes (x ∷ xs) (y ∷ ys) = let rest = equal_bytes xs ys in (x == y) && rest
equal_bytes _ _ = false

-- bytes.CutPrefix.
abbrev pub strip_prefix : List ℕ → List ℕ → Option (List ℕ)
strip_prefix [] b = some b
strip_prefix (p ∷ ps) [] = none
strip_prefix (p ∷ ps) (x ∷ xs) =
    let rest = strip_prefix ps xs in elim (p == x) [ true ↦ rest | false ↦ none ]

pub equal_bytes_self : (xs : List ℕ) → equal_bytes xs xs ≡ true
equal_bytes_self [] = refl
equal_bytes_self (x ∷ xs) = ground (arith, equal_bytes_self xs)

pub equal_bytes→eq : (xs ys : List ℕ) → equal_bytes xs ys ≡ true → xs ≡ ys
equal_bytes→eq [] [] h = refl
equal_bytes→eq [] (y ∷ ys) h = cc
equal_bytes→eq (x ∷ xs) [] h = cc
equal_bytes→eq (x ∷ xs) (y ∷ ys) h = ground (arith, equal_bytes→eq xs ys)

pub strip_prefix-append : (p xs : List ℕ) → strip_prefix p (p ++ xs) ≡ some xs
strip_prefix-append [] xs = refl
strip_prefix-append (p ∷ ps) xs = ground (arith, strip_prefix-append ps xs)
