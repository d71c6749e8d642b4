-- ===== src/Tests/Macs.antt =====
-- secmem-crypto/hmac_inplace.go over a hash that is only as long as SHA-256.
use secmem.Prelude.{ℕ, ◌≡◌, List, [], ◌∷◌, length, take, replicate, some, arith, length-replicate}
use secmem.Region.{zeros}
use secmem.Hmac.{
  hash_sha256, Sums, size, block, total_length, hmac_scratch_size, hmac_in_place, hkdf_compute,
}
use secmem.Hmac.Pads.{hmac}
use secmem.Pbkdf2.{pbkdf2_compute, pbkdf2_region_size}
use secmem.Pbkdf2.Derived.{pbkdf2}
use secmem.Pbkdf2.Computed.{pbkdf2_compute-pbkdf2}
use secmem.Hmac.Run.{hmac_in_place-hmac}
use secmem.Hmac.Hkdf.{hkdf, hkdf_compute-hkdf}

abbrev sums : Sums
sums h b = replicate 32 (length b)

length-sums : (b : List ℕ) → length (sums hash_sha256 b) ≡ size hash_sha256
unfolding size
length-sums b = length-replicate {A = ℕ} 32 (length b)

hmac_in_place-hmac_example :
    (after : List ℕ) × (hmac_in_place sums hash_sha256
        (zeros 100)
        (1 ∷ [])
        ((2 ∷ []) ∷ (3 ∷ []) ∷ [])
      ≡ some (hmac sums hash_sha256 (1 ∷ []) (2 ∷ 3 ∷ []), after))
    × (length after ≡ 100)
    × (take (hmac_scratch_size hash_sha256 2) after ≡ zeros (hmac_scratch_size hash_sha256 2))
unfolding total_length size block hmac_scratch_size
hmac_in_place-hmac_example =
    hmac_in_place-hmac sums hash_sha256 (zeros 100) (1 ∷ []) ((2 ∷ []) ∷ (3 ∷ []) ∷ []) (λ e. cc)
      length-sums (omega arith)

hkdf_compute-hkdf_example :
    hkdf_compute sums hash_sha256 (zeros 70) (zeros 300) (1 ∷ 2 ∷ []) [] (3 ∷ [])
    ≡ some (hkdf sums hash_sha256 70 (1 ∷ 2 ∷ []) [] (3 ∷ []), zeros 300)
unfolding size block
hkdf_compute-hkdf_example =
    hkdf_compute-hkdf sums hash_sha256 (zeros 70) (zeros 300) (1 ∷ 2 ∷ []) [] (3 ∷ []) (λ e. cc)
      length-sums (omega arith) (omega arith)

pbkdf2_compute-pbkdf2_example :
    pbkdf2_compute sums hash_sha256 (zeros 40) (zeros 600) (1 ∷ 2 ∷ []) (3 ∷ []) 2
    ≡ some (pbkdf2 sums hash_sha256 40 (1 ∷ 2 ∷ []) (3 ∷ []) 2, zeros 600)
unfolding size block pbkdf2_region_size
pbkdf2_compute-pbkdf2_example =
    pbkdf2_compute-pbkdf2 sums hash_sha256 (zeros 40) 600 (1 ∷ 2 ∷ []) (3 ∷ []) 2 (λ e. cc)
      length-sums (omega arith) (omega arith)
