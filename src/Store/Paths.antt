-- ===== src/Store/Paths.antt =====
-- The file of a bucket of cmd/server/kv.go: its directory and its path.
use migp.Base.{
  ℕ, ◌-◌, ◌*◌, ◌<◌, ◌≡◌, refl, ap, ◌∙◌, inl, inr, true, Bytes, All, IsByte, be32, ◌/◌, ◌%◌, [], ◌∷◌,
  ◌++◌, arith, length, length-take, take, append_split, bytes_eq, bytes_eq_iff, Bool-cases,
}
use migp.Base.Utf8.{rest_width, IsAscii}
use migp.Base.Outcome.{ok}
use migp.Protocol.Common.{hex_digit, hex_encode, bucket_id_to_hex}
use migp.Protocol.Common.BucketId.{bucket_id_to_hex_lem}
use migp.Store.{slashed, bucket_dir, store_root}

rest_width_ascii : (x : ℕ) (s : Bytes) → IsAscii x → rest_width x s ≡ 0
unfolding rest_width
rest_width_ascii x [] h = refl
rest_width_ascii x (b ∷ []) h = ground arith
rest_width_ascii x (b ∷ c ∷ []) h = ground arith
rest_width_ascii x (b ∷ c ∷ d ∷ s) h = ground arith

length-slashed : (s : Bytes) → All IsAscii s → length (slashed 0 s) ≡ 2 * length s
unfolding slashed
length-slashed [] h = refl
length-slashed (x ∷ s) (hx, h) = rw (rest_width_ascii x s hx) (omega (arith, length-slashed s h))

-- The directory of a bucket.
pub dir_of : Bytes → Bytes
dir_of [] = []
dir_of (x ∷ s) = take (length (slashed (rest_width x s) s)) (x ∷ slashed (rest_width x s) s)

bucket_dir-dir_of : (x : ℕ) (s : Bytes) → bucket_dir (x ∷ s) ≡ ok (dir_of (x ∷ s))
unfolding bucket_dir dir_of
bucket_dir-dir_of x s = refl

length-dir_of : (id : Bytes) → All IsAscii id → length (dir_of id) ≡ 2 * length id - 2
unfolding dir_of
length-dir_of [] h = refl
length-dir_of (x ∷ s) (hx, h) =
    let rest = slashed (rest_width x s) s in
    let size : length rest ≡ 2 * length s =
      ap (λ k. length (slashed k s)) (rest_width_ascii x s hx) ∙ length-slashed s h in
    omega (arith, length-take (length rest) (x ∷ rest), size)

-- What `BucketIDToHex` gives: eight ASCII characters.
abbrev pub IsId : Bytes → Type 0
IsId id = (length id ≡ 8) × All IsAscii id

pub bucket_dir_of_id : (id : Bytes) → IsId id → bucket_dir id ≡ ok (dir_of id)
bucket_dir_of_id [] (h, a) = absurd (omega arith)
bucket_dir_of_id (x ∷ s) h = bucket_dir-dir_of x s

unfoldable pub path_of : Bytes → Bytes
path_of id = store_root ++ (dir_of id ++ id)

-- Different identifiers are saved to different files.
path_of-injective : (i j : Bytes) → IsId i → IsId j → path_of i ≡ path_of j → i ≡ j
unfolding path_of
path_of-injective i j (li, ai) (lj, aj) e =
    let (roots, rest) = append_split store_root store_root (dir_of i ++ i) (dir_of j ++ j) refl e in
    (append_split (dir_of i) (dir_of j) i j (omega (arith, length-dir_of i ai, length-dir_of j aj))
      rest).1

pub path_test : (i j : Bytes) → IsId i → IsId j → bytes_eq (path_of i) (path_of j) ≡ bytes_eq i j
path_test i j hi hj = elim (Bool-cases (bytes_eq i j)) [
  | inl same ↦
      rw same ((bytes_eq_iff (path_of i) (path_of j)).1 (ap path_of ((bytes_eq_iff i j).0 same)))
  | inr differ ↦ elim (Bool-cases (bytes_eq (path_of i) (path_of j))) [
    | inl same ↦
        let e = path_of-injective i j hi hj ((bytes_eq_iff (path_of i) (path_of j)).0 same) in
        let bad : bytes_eq i j ≡ true = (bytes_eq_iff i j).1 e in absurd (cc)
    | inr other ↦ rw (differ, other)
  ]
]

hex_digit-IsAscii : (n : ℕ) → n < 16 → IsAscii (hex_digit n)
hex_digit-IsAscii n h = ground arith

hex_encode-IsAscii : (s : Bytes) → All IsByte s → All IsAscii (hex_encode s)
unfolding hex_encode
hex_encode-IsAscii [] h = tt
hex_encode-IsAscii (b ∷ s) (hb, h) = (
  hex_digit-IsAscii (b / 16) (omega arith),
  (hex_digit-IsAscii (b % 16) (omega arith), hex_encode-IsAscii s h),
)

-- What `BucketIDToHex` gives has a directory and a path.
pub bucket_id_to_hex-IsId : (v : ℕ) → IsId (bucket_id_to_hex v)
unfolding bucket_id_to_hex
bucket_id_to_hex-IsId v = ((bucket_id_to_hex_lem v).0, hex_encode-IsAscii (be32 v) (omega arith))
