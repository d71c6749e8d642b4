-- ===== src/Tests/Reduction.antt =====
-- Runs of the modular reduction and of pkcs1DER at fixed inputs.
use secmem.Prelude.{ℕ, List, some, [], ◌∷◌, ◌≡◌, refl, arith}
use secmem.OpenSsh.PrivateBlock.{strip_zeros}
use secmem.ModReduce.{
  reduce_mod, set_limbs, from_last, group, limb_of, all_zero, reduce_bytes, reduce_byte, reduce_bit,
  double, subtract, choose, to_bytes, limb_byte,
}
use secmem.ModReduce.Reduced.{remainder, reduce_mod-remainder}
use secmem.Pkcs1.Assembled.{private_key}

-- 51217 modulo 7.
reduced : reduce_mod 1 (200 ∷ 17 ∷ []) (7 ∷ []) ≡ some (5 ∷ [])
unfolding reduce_mod set_limbs from_last group limb_of all_zero reduce_bytes reduce_byte reduce_bit
    double subtract choose to_bytes limb_byte
reduced = refl

reduce_mod-remainder_example :
    reduce_mod 1 (200 ∷ 17 ∷ []) (7 ∷ []) ≡ remainder 1 (200 ∷ 17 ∷ []) (7 ∷ [])
reduce_mod-remainder_example =
    reduce_mod-remainder 1 (200 ∷ 17 ∷ []) (7 ∷ []) (omega arith, (omega arith, tt))
      (omega arith, tt)

abbrev fields : List (List ℕ)
fields =
    private_key (strip_zeros (35 ∷ [])) (strip_zeros (5 ∷ [])) (strip_zeros (5 ∷ []))
      (strip_zeros (0 ∷ 5 ∷ [])) (strip_zeros (7 ∷ [])) (strip_zeros (3 ∷ []))
