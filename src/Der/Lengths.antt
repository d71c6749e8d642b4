-- ===== src/Der/Lengths.antt =====
-- secmem-crypto/parse_openssh.go: the DER lengths and integers that are written, against a reader of DER.
use secmem.Prelude.{
  ℕ, zero, suc, ◌+◌, ◌-◌, ◌*◌, ◌/◌, ◌%◌, ◌^◌, ◌≤◌, ◌<◌, if◌then◌else◌, ltb, Option, none, some,
  List, [], ◌∷◌, ◌++◌, length, take, drop, ◌≡◌, refl, ap, arith, length-append,
}
use Prim.Native.Nat.{bit_or}
use mathlib.Core.List.{append-nil}
use native.Mathlib.Nat.{div-add-mod, mod-lt, add-mul-mod_self_left, mod-eq_of_lt}
use secmem.SshWire.{put_exact}
use secmem.SshWire.Puts.{Puts, ▷-Puts, put_exact-Puts, if-Puts}
use secmem.Prelude.{take-append, drop-append}
use secmem.Der.{octet_count, length_octets, length_len, put_octets, put_der_length}

-- A length field, most significant octet first.
unfoldable pub octets : (k n : ℕ) → List ℕ
octets zero n = []
octets (suc i) n = n / 256 ^ i % 256 ∷ octets i n

unfoldable pub length_bytes : ℕ → List ℕ
length_bytes n =
    if ltb n 128
    then n % 256 ∷ []
    else bit_or 128 (length_octets n % 256) ∷ octets (length_octets n) n

pub length-octets : (k n : ℕ) → length (octets k n) ≡ k
unfolding octets
length-octets zero n = refl
length-octets (suc k) n = ap suc (length-octets k n)

put_octets-Puts : (k n : ℕ) → Puts (put_octets k n) (octets k n)
unfolding Puts put_octets octets
put_octets-Puts zero n out tail h = cc (append-nil out)
put_octets-Puts (suc k) n out tail h =
    ▷-Puts (put_exact (n / 256 ^ k % 256 ∷ [])) (put_octets k n) (n / 256 ^ k % 256 ∷ [])
      (octets k n) (put_exact-Puts (n / 256 ^ k % 256 ∷ [])) (put_octets-Puts k n) out tail h

pub put_der_length-Puts : (n : ℕ) → Puts (put_der_length n) (length_bytes n)
unfolding put_der_length length_bytes
put_der_length-Puts n = if-Puts (ltb n 128) _ _ _ _ (put_exact-Puts (n % 256 ∷ [])) (
    ▷-Puts _ _ _ _ (put_exact-Puts (bit_or 128 (length_octets n % 256) ∷ []))
      (put_octets-Puts (length_octets n) n))

pub length-length_bytes : (n : ℕ) → length (length_bytes n) ≡ length_len n
unfolding length_bytes length_len
length-length_bytes n = ground (arith, length-octets (length_octets n) n)

-- The octets that were counted hold the number, and no fewer would.
octet_count-lt : (fuel v : ℕ) → v < 256 ^ fuel → v < 256 ^ octet_count fuel v
unfolding octet_count
octet_count-lt zero v h = h
octet_count-lt (suc fuel) v h =
    let wide : 256 ^ suc fuel ≡ 256 * 256 ^ fuel = grind arith in
    let ih = octet_count-lt fuel (v / 256) (omega (arith, wide)) in
    let power : 256 ^ suc (octet_count fuel (v / 256)) ≡ 256 * 256 ^ octet_count fuel (v / 256) =
      grind arith in
    ground (arith, ih, power)

-- The number that octets stand for.
unfoldable pub number : (acc : ℕ) → List ℕ → ℕ
number acc [] = acc
number acc (b ∷ bs) = number (acc * 256 + b) bs

pub pow_pos : (k : ℕ) → 0 < 256 ^ k
pow_pos zero = omega arith
pow_pos (suc k) =
    let step : 256 ^ suc k ≡ 256 * 256 ^ k = grind arith in omega (arith, step, pow_pos k)

weigh : (w a b : ℕ) → w * (256 * a + b) ≡ 256 * w * a + b * w
weigh w a b = grind arith

shift_digit : (acc d w : ℕ) → (acc * 256 + d) * w ≡ acc * (256 * w) + d * w
shift_digit acc d w = grind arith

-- The digit above `weight` and what is below it.
mod_digit :
    (n weight : ℕ) → 0 < weight → n % (256 * weight) ≡ n / weight % 256 * weight + n % weight
mod_digit n weight pos =
    let top = n / weight in
    let low = top % 256 * weight + n % weight in
    let whole : n ≡ low + (256 * weight) * (top / 256) = omega (
      arith,
      div-add-mod n weight,
      ap (λ t. weight * t) (div-add-mod top 256),
      weigh weight (top / 256) (top % 256),
    ) in
    let digit : top % 256 ≤ 255 = omega arith in
    let product : top % 256 * weight ≤ 255 * weight = grind arith in
    let small : low < 256 * weight = omega (arith, product, mod-lt n pos) in
    cc (
      ap (λ m. m % (256 * weight)) whole,
      add-mul-mod_self_left low (256 * weight) (top / 256),
      mod-eq_of_lt small,
    )

number-octets : (k acc n : ℕ) → number acc (octets k n) ≡ acc * 256 ^ k + n % 256 ^ k
unfolding number octets
number-octets zero acc n = omega arith
number-octets (suc k) acc n =
    let weight = 256 ^ k in
    let power : 256 ^ suc k ≡ 256 * weight = grind arith in
    let split : n % (256 * weight) ≡ n / weight % 256 * weight + n % weight =
      mod_digit n weight (omega (arith, pow_pos k)) in
    let ih = number-octets k (acc * 256 + n / weight % 256) n in
    let head = shift_digit acc (n / weight % 256) weight in
    let wide = ap (λ m. acc * m) power in
    let tail = ap (λ m. n % m) power in omega (arith, ih, split, head, wide, tail)

-- A reader of a DER length: the short form, or a count of octets and that many of them.
unfoldable pub read_long : (count : ℕ) → List ℕ → Option (ℕ × List ℕ)
read_long count rest =
    if ltb (length rest) count then none else some (number 0 (take count rest), drop count rest)

unfoldable pub read_length : List ℕ → Option (ℕ × List ℕ)
read_length [] = none
read_length (b ∷ rest) = if ltb b 128 then some (b, rest) else read_long (b - 128) rest

marked : (k : ℕ) → k ≤ 8 → bit_or 128 (k % 256) ≡ 128 + k
marked zero h = refl
marked (suc zero) h = refl
marked (suc (suc zero)) h = refl
marked (suc (suc (suc zero))) h = refl
marked (suc (suc (suc (suc zero)))) h = refl
marked (suc (suc (suc (suc (suc zero))))) h = refl
marked (suc (suc (suc (suc (suc (suc zero)))))) h = refl
marked (suc (suc (suc (suc (suc (suc (suc zero))))))) h = refl
marked (suc (suc (suc (suc (suc (suc (suc (suc zero)))))))) h = refl
marked (suc (suc (suc (suc (suc (suc (suc (suc (suc k))))))))) h = absurd (omega arith)

pub octet_count-le : (fuel v : ℕ) → octet_count fuel v ≤ fuel
unfolding octet_count
octet_count-le zero v = omega arith
octet_count-le (suc fuel) v = ground (arith, octet_count-le fuel (v / 256))

-- A DER length field of any int is read back, and the reader stops behind it.
pub read_length-length_bytes :
    (n : ℕ) (rest : List ℕ) → n < 2 ^ 63 → read_length (length_bytes n ++ rest) ≡ some (n, rest)
unfolding read_length read_long length_bytes length_octets
read_length-length_bytes n rest h =
    let k = octet_count 8 n in
    let mark = marked k (octet_count-le 8 n) in
    let fits = octet_count-lt 8 n (omega arith) in
    let value = number-octets k 0 n in
    let same : n % 256 ^ k ≡ n = mod-eq_of_lt fits in
    let size = length-octets k n in
    let front : take k (octets k n ++ rest) ≡ octets k n =
      cc (take-append (octets k n) rest, size) in
    let back : drop k (octets k n ++ rest) ≡ rest = cc (drop-append (octets k n) rest, size) in
    ground (arith, mark, value, same, size, front, back, length-append (octets k n) rest)
