-- ===== src/Canary/Pattern.antt =====
-- canary.go, canaryIntact: the or-ed differences are zero for the armed bytes and for no others.
use secmem.Prelude.{
  ℕ, zero, suc, ◌%◌, ◌≡◌, refl, ap, ◌↔◌, true, ==_iff, some, List, [], ◌∷◌, length,
}
use secmem.Prelude.Bits.{bit_or-eq-zero, bit_xor-eq-zero, bit_xor_self}
use secmem.Canary.{pattern_bytes, differences, canary_intact, canary_len}

pub length-pattern_bytes : (p : ℕ → ℕ) (i n : ℕ) → length (pattern_bytes p i n) ≡ n
unfolding pattern_bytes
length-pattern_bytes p i zero = refl
length-pattern_bytes p i (suc n) = ap suc (length-pattern_bytes p (suc i) n)

differences-zero :
    (p : ℕ → ℕ) (i acc : ℕ) (b : List ℕ)
    → differences p i acc b ≡ 0
    → (acc ≡ 0) × (b ≡ pattern_bytes p i (length b))
unfolding differences pattern_bytes
differences-zero p i acc [] h = (h, refl)
differences-zero p i acc (x ∷ b) h =
    let (all, rest) = differences-zero p (suc i) _ b h in
    let (acc_zero, x_zero) = bit_or-eq-zero acc _ all in
    let same = bit_xor-eq-zero x (p (i % canary_len)) x_zero in (acc_zero, cc)

differences-pattern :
    (p : ℕ → ℕ) (i : ℕ) (b : List ℕ) → b ≡ pattern_bytes p i (length b) → differences p i 0 b ≡ 0
unfolding differences pattern_bytes
differences-pattern p i [] h = refl
differences-pattern p i (x ∷ b) h =
    rw (x_lem, bit_xor_self (p (i % canary_len))) (differences-pattern p (suc i) b (cc))
  where
    x_lem : x ≡ p (i % canary_len)
    x_lem = cc

-- canaryIntact accepts exactly the bytes that fillCanary writes.
pub canary_intact_iff :
    (p : ℕ → ℕ) (b : List ℕ)
    → (canary_intact (some p) b ≡ true) ↔ (b ≡ pattern_bytes p 0 (length b))
unfolding canary_intact
canary_intact_iff p [] = (λ _. unfold pattern_bytes in refl, λ _. refl)
canary_intact_iff p (x ∷ b) = (
  λ h. (differences-zero p 0 0 (x ∷ b) ((==_iff _ 0).0 h)).1,
  λ h. (==_iff _ 0).1 (differences-pattern p 0 (x ∷ b) h),
)
