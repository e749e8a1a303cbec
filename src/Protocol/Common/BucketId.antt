-- ===== src/Protocol/Common/BucketId.antt =====
-- Bucket identifiers: `bucketHashToID` and `BucketIDToHex` of pkg/migp/common.go.
use Prim.Native.Nat.{bit_and, min, bit_and-bitwise}
use native.Mathlib.Nat.{pow-suc, div-lt_iff_lt-mul, pow-le-pow_right}
use mathlib.Core.Option.{some-injective}
use migp.Base.{
  ℕ, zero, suc, ◌+◌, ◌-◌, ◌*◌, ◌/◌, ◌%◌, ◌^◌, ◌≤◌, ◌<◌, ◌≡◌, refl, ap, sym, ◌∙◌, inl, inr, false,
  Bytes, All, IsByte, [], ◌∷◌, Option, none, some, arith, length, ltb, be32, be32_injective,
  get_uint32, Bool-cases, lt→ltb, Option-cases,
}
use migp.Base.Digits.{bitwise_step}
use migp.Base.Int.{pos, negsuc}
use migp.Base.Outcome.{ok, panic, panic_if}
use migp.Protocol.Common.{
  bucket_hash_to_id, low_mask, hex_digit, hex_encode, bucket_id_to_hex, hex_value, decode_pair,
  hex_decode,
}

none_in_common : (y : ℕ) → bit_and zero y ≡ zero
none_in_common y = bit_and-bitwise zero y

-- The lowest digit, and the others.
low_digit_and : (x y : ℕ) → bit_and x y ≡ min (x % 2) (y % 2) + 2 * bit_and (x / 2) (y / 2)
low_digit_and (suc x) y =
    let halves = sym (bit_and-bitwise (suc x / 2) (y / 2)) in
    omega (
      arith,
      bit_and-bitwise (suc x) y
          ∙ bitwise_step (λ d. zero) min x y
          ∙ ap (λ h. h * 2 + min (suc x % 2) (y % 2)) halves,
    )
low_digit_and zero y = omega (arith, none_in_common y, none_in_common (y / 2))

pow_pos : (n : ℕ) → 0 < 2 ^ n
pow_pos zero = omega arith
pow_pos (suc n) = omega (arith, pow-suc 2 n, pow_pos n)

pow_add : (n m : ℕ) → 2 ^ n * 2 ^ m ≡ 2 ^ (n + m)
pow_add n zero =
    let e : 2 ^ n ≡ 2 ^ (n + 0) = ap (λ k. 2 ^ k) {x = n} {y = n + 0} (omega arith) in omega arith
pow_add n (suc m) =
    let e : 2 ^ suc (n + m) ≡ 2 ^ (n + suc m) =
      ap (λ k. 2 ^ k) {x = suc (n + m)} {y = n + suc m} (omega arith) in
    omega (
      arith,
      pow-suc 2 m,
      pow-suc 2 (n + m),
      ap (λ k. 2 ^ n * k) (pow-suc 2 m),
      ap (λ k. k * 2) (pow_add n m),
    )

-- A mask of `n` ones leaves a number of `n` digits alone.
bit_and_mask : (n x m : ℕ) → x < 2 ^ n → m + 1 ≡ 2 ^ n → bit_and x m ≡ x
bit_and_mask zero x m h e = let none_left : x ≡ 0 = omega arith in rw none_left (none_in_common m)
bit_and_mask (suc n) x m h e = omega (
  arith,
  low_digit_and x m,
  pow-suc 2 n,
  bit_and_mask n (x / 2) (m / 2) (omega (arith, pow-suc 2 n)) (omega (arith, pow-suc 2 n)),
)

-- The number that the first four bytes make.
abbrev pub leading_word : Bytes → ℕ
leading_word (a ∷ b ∷ c ∷ d ∷ rest) = ((a * 256 + b) * 256 + c) * 256 + d
leading_word _ = 0

get_uint32-leading_word :
    (h : Bytes)
    → 4 ≤ length h
    → All IsByte h
    → (get_uint32 h ≡ some (leading_word h)) × (leading_word h < 2 ^ 32)
get_uint32-leading_word [] len bytes = absurd (omega arith)
get_uint32-leading_word (a ∷ []) len bytes = absurd (omega arith)
get_uint32-leading_word (a ∷ b ∷ []) len bytes = absurd (omega arith)
get_uint32-leading_word (a ∷ b ∷ c ∷ []) len bytes = absurd (omega arith)
get_uint32-leading_word (a ∷ b ∷ c ∷ d ∷ rest) len (ha, (hb, (hc, (hd, hr)))) = (refl, omega arith)

low_mask-suc : (n : ℕ) → n ≤ 32 → low_mask n + 1 ≡ 2 ^ n
low_mask-suc n h =
    let top : 2 ^ n ≤ 2 ^ 32 = pow-le-pow_right {n = 2} (omega arith) h in
    omega (arith, top, pow_pos n)

shifted_lt : (v n : ℕ) → v < 2 ^ 32 → n ≤ 32 → v / 2 ^ (32 - n) < 2 ^ n
shifted_lt v n hv hn =
    let whole : 2 ^ (n + (32 - n)) ≡ 2 ^ 32 =
      ap (λ k. 2 ^ k) {x = n + (32 - n)} {y = 32} (omega arith) in
    (div-lt_iff_lt-mul (pow_pos (32 - n))).1 (omega (arith, whole, pow_add n (32 - n), hv))

get_uint32_short : (h : Bytes) → length h < 4 → get_uint32 h ≡ none
get_uint32_short [] e = refl
get_uint32_short (a ∷ []) e = refl
get_uint32_short (a ∷ b ∷ []) e = refl
get_uint32_short (a ∷ b ∷ c ∷ []) e = refl
get_uint32_short (a ∷ b ∷ c ∷ d ∷ rest) e = absurd (omega arith)

-- Of a hash of bytes, at least four, and a size of at most 32 bits, `bucketHashToID` returns the
-- number that the high-order bits of the hash make, as many as the size says: it is below 2 ^ size.
pub bucket_hash_to_id_lem :
    (h : Bytes) (n : ℕ)
    → 4 ≤ length h
    → All IsByte h
    → n ≤ 32
    → (bucket_hash_to_id h (pos n) ≡ ok (leading_word h / 2 ^ (32 - n)))
      × (leading_word h / 2 ^ (32 - n) < 2 ^ n)
unfolding bucket_hash_to_id
bucket_hash_to_id_lem h n len bytes small =
    let (word, in_range) = get_uint32-leading_word h len bytes in
    let below = shifted_lt (leading_word h) n in_range small in
    let size_ok : ltb 32 n ≡ false = ground arith in
    (
      rw (size_ok, panic_if, word)
          (ap ok (bit_and_mask n _ (low_mask n) below (low_mask-suc n small))),
      below,
    )

-- `bucketHashToID` panics on every size above 32 bits, on every negative size, and on a hash of
-- fewer than four bytes.
pub bucket_hash_to_id_panics :
    (h : Bytes) (n : ℕ)
    → (bucket_hash_to_id h (negsuc n) ≡ panic)
      × (32 < n → bucket_hash_to_id h (pos n) ≡ panic)
      × (length h < 4 → bucket_hash_to_id h (pos n) ≡ panic)
unfolding bucket_hash_to_id
bucket_hash_to_id_panics h n = (
  elim (Option-cases (get_uint32 h)) [
    | inl e ↦ rw (e, panic_if)
    | inr (word, e) ↦ rw (e, panic_if)
  ],
  λ large. rw (lt→ltb 32 n large, panic_if),
  λ short. elim (Bool-cases (ltb 32 n)) [
    | inl t ↦ rw (t, panic_if)
    | inr t ↦ rw (t, panic_if, get_uint32_short h short)
  ],
)

hex_value-hex_digit : (n : ℕ) → n < 16 → hex_value (hex_digit n) ≡ some n
hex_value-hex_digit n h = ground arith

decode_pair-some :
    (o p : Option ℕ) (q : Option Bytes) (x y b : ℕ) (s : Bytes)
    → o ≡ some x
    → p ≡ some y
    → q ≡ some s
    → x * 16 + y ≡ b
    → decode_pair o p q ≡ some (b ∷ s)
decode_pair-some o p q x y b s eo ep eq eb = rw (eo, ep, eq, eb)

pub hex_decode-hex_encode : (s : Bytes) → All IsByte s → hex_decode (hex_encode s) ≡ some s
unfolding hex_encode hex_decode
hex_decode-hex_encode [] h = refl
hex_decode-hex_encode (b ∷ s) (hb, h) =
    decode_pair-some (hex_value (hex_digit (b / 16))) (hex_value (hex_digit (b % 16)))
      (hex_decode (hex_encode s)) (b / 16) (b % 16) b s (hex_value-hex_digit (b / 16) (omega arith))
      (hex_value-hex_digit (b % 16) (omega arith)) (hex_decode-hex_encode s h) (omega arith)

-- A number is written as eight characters, from which `hex.DecodeString` reads its four low bytes.
pub bucket_id_to_hex_lem :
    (v : ℕ) → (length (bucket_id_to_hex v) ≡ 8) × (hex_decode (bucket_id_to_hex v) ≡ some (be32 v))
unfolding bucket_id_to_hex
bucket_id_to_hex_lem v = (refl, hex_decode-hex_encode (be32 v) (omega arith))

-- Two bucket identifiers below 2 ^ 32 that are written alike are equal.
pub bucket_id_to_hex-injective :
    (v w : ℕ) → v < 2 ^ 32 → w < 2 ^ 32 → bucket_id_to_hex v ≡ bucket_id_to_hex w → v ≡ w
bucket_id_to_hex-injective v w hv hw e = be32_injective v w hv hw (
    some-injective (be32 v) (be32 w)
      (sym (bucket_id_to_hex_lem v).1 ∙ ap hex_decode e ∙ (bucket_id_to_hex_lem w).1))
