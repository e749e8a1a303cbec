-- ===== src/Base/Buffer.antt =====
-- Byte slices: `make`, `copy`, big-endian words, comparison, and the lemmas that turn a buffer
-- filled part by part into the concatenation of its parts.
use Prim.Native.Nat.{ℕ, zero, suc, ◌+◌, ◌-◌, ◌*◌, ◌/◌, ◌%◌, ◌^◌, ◌≤◌, ◌<◌}
use Prim.Native.Char.{code}
use Prim.Native.String.{String}
use mathlib.Core.Path.{◌≡◌, refl, ap, sym, ◌∙◌}
use mathlib.Core.Logic.{◌↔◌}
use mathlib.Core.Bool.{Bool, true, false, ◌&&◌}
use mathlib.Core.List.{List, [], ◌∷◌, ◌++◌, append-nil, append_assoc}
use mathlib.Core.Option.{Option, none, some}
use native.Mathlib.Omega.{arith}
use migp.Base.Tests.{◌==◌}
use migp.Base.Lists.{
  length, take, drop, replicate, length-append, take-length-append, drop-length-append,
}

abbrev pub Bytes : Type 0
Bytes = List ℕ

-- The bytes of an ASCII literal. Go's strings are byte sequences, and are `Bytes` too.
abbrev pub codes : String → Bytes
codes String.[] = []
codes (String.◌∷◌ c s) = code c ∷ codes s

abbrev pub All {ℓ κ} : {A : Type ℓ} → (A → Type κ) → List A → Type κ
All P [] = Unit
All P (x ∷ xs) = P x × All P xs

pub All-append {ℓ κ} :
    {A : Type ℓ} (P : A → Type κ) (xs ys : List A) → All P xs → All P ys → All P (xs ++ ys)
All-append P [] ys hx hy = hy
All-append P (x ∷ xs) ys (px, hx) hy = (px, All-append P xs ys hx hy)

abbrev pub IsByte : ℕ → Type 0
IsByte b = b < 256

-- Conversions to unsigned types keep the low bits.
abbrev pub uint16 : ℕ → ℕ
uint16 n = n % 2 ^ 16

abbrev pub uint32 : ℕ → ℕ
uint32 n = n % 2 ^ 32

abbrev pub byte : ℕ → ℕ
byte n = n % 2 ^ 8

-- `make([]byte, n)`
unfoldable pub make : ℕ → Bytes
make n = replicate n 0

-- `copy(dst, src)`: the shorter of the two lengths is written.
unfoldable pub overwrite : Bytes → Bytes → Bytes
overwrite [] src = []
overwrite (b ∷ dst) [] = b ∷ dst
overwrite (b ∷ dst) (s ∷ src) = s ∷ overwrite dst src

-- `copy(dst[off:], src)`
unfoldable pub copy_at : Bytes → ℕ → Bytes → Bytes
unfolding overwrite
copy_at dst off src = take off dst ++ overwrite (drop off dst) src

-- The bytes that `binary.BigEndian` writes and reads.
abbrev pub be16 : ℕ → Bytes
be16 v = (v / 256) % 256 ∷ v % 256 ∷ []

abbrev pub be32 : ℕ → Bytes
be32 v = (v / 2 ^ 24) % 256 ∷ (v / 2 ^ 16) % 256 ∷ (v / 2 ^ 8) % 256 ∷ v % 256 ∷ []

-- `binary.BigEndian.PutUint16(dst[off:], v)` and `PutUint32`, where the slice has the room.
abbrev pub put_uint16 : Bytes → ℕ → ℕ → Bytes
put_uint16 dst off v = copy_at dst off (be16 v)

abbrev pub put_uint32 : Bytes → ℕ → ℕ → Bytes
put_uint32 dst off v = copy_at dst off (be32 v)

-- `binary.BigEndian.Uint32(b)`, which panics on fewer than four bytes (`none`).
abbrev pub get_uint32 : Bytes → Option ℕ
get_uint32 (a ∷ b ∷ c ∷ d ∷ rest) = some (((a * 256 + b) * 256 + c) * 256 + d)
get_uint32 _ = none

pub get_uint32-be32 : (v : ℕ) (rest : Bytes) → v < 2 ^ 32 → get_uint32 (be32 v ++ rest) ≡ some v
get_uint32-be32 v rest h = ap some (omega arith)

pub be16_injective : (v w : ℕ) → v < 2 ^ 16 → w < 2 ^ 16 → be16 v ≡ be16 w → v ≡ w
be16_injective v w hv hw e = ground arith

pub be32_injective : (v w : ℕ) → v < 2 ^ 32 → w < 2 ^ 32 → be32 v ≡ be32 w → v ≡ w
be32_injective v w hv hw e = ground arith

overwrite_zeros :
    (n : ℕ) (src : Bytes)
    → length src ≤ n
    → overwrite (replicate n 0) src ≡ src ++ replicate (n - length src) 0
unfolding overwrite
overwrite_zeros zero [] h = ap (λ k. replicate {A = ℕ} k 0) {x = 0} {y = 0 - 0} (omega arith)
overwrite_zeros zero (s ∷ src) h = absurd (omega arith)
overwrite_zeros (suc n) [] h =
    ap (λ k. replicate {A = ℕ} k 0) {x = suc n} {y = suc n - 0} (omega arith)
overwrite_zeros (suc n) (s ∷ src) h =
    let e : suc n - suc (length src) ≡ n - length src = omega arith in
    rw (e, overwrite_zeros n src (omega arith))

-- A write behind what is already filled of a zeroed buffer.
copy_at_zeros :
    (done : Bytes) (n : ℕ) (src : Bytes)
    → length src ≤ n
    → copy_at (done ++ replicate n 0) (length done) src
      ≡ done ++ (src ++ replicate (n - length src) 0)
unfolding copy_at
copy_at_zeros done n src h =
    rw (take-length-append done (replicate n 0), drop-length-append done (replicate n 0))
      (rw (overwrite_zeros n src h))

-- The same for a buffer that is known to be filled so far.
copy_at_next :
    (buf done : Bytes) (n off : ℕ) (src : Bytes)
    → buf ≡ done ++ replicate n 0
    → off ≡ length done
    → length src ≤ n
    → copy_at buf off src ≡ (done ++ src) ++ replicate (n - length src) 0
copy_at_next buf done n off src e h room =
    rw (e, h) (copy_at_zeros done n src room ∙ sym (append_assoc done src _))

-- The last write fills the buffer.
copy_at_last :
    (buf done : Bytes) (n off : ℕ) (src : Bytes)
    → buf ≡ done ++ replicate n 0
    → off ≡ length done
    → n ≡ length src
    → copy_at buf off src ≡ done ++ src
copy_at_last buf done n off src e h room =
    copy_at_next buf done n off src e h (omega arith)
    ∙ ap (λ k. (done ++ src) ++ replicate k 0) {x = n - length src} {y = 0} (omega arith)
    ∙ append-nil (done ++ src)

pub copy_whole : (n : ℕ) (a : Bytes) → n ≡ length a → copy_at (make n) 0 a ≡ a
unfolding make
copy_whole n a e = copy_at_last (replicate n 0) [] n 0 a refl (omega arith) e

-- A zeroed buffer that is filled by three writes side by side.
pub fill_three :
    (n i j : ℕ) (a b c : Bytes)
    → i ≡ length a
    → j ≡ length a + length b
    → n ≡ length a + length b + length c
    → copy_at (copy_at (copy_at (make n) 0 a) i b) j c ≡ a ++ (b ++ c)
unfolding make
fill_three n i j a b c hi hj hn =
    let first = copy_at_next (replicate n 0) [] n 0 a refl (omega arith) (omega arith) in
    let second = copy_at_next _ a (n - length a) i b first hi (omega arith) in
    copy_at_last _ (a ++ b) (n - length a - length b) j c second (omega (arith, length-append a b))
      (omega arith)
    ∙ append_assoc a b c

-- The same by four writes.
pub fill_four :
    (n i j k : ℕ) (a b c d : Bytes)
    → i ≡ length a
    → j ≡ length a + length b
    → k ≡ length a + length b + length c
    → n ≡ length a + length b + length c + length d
    → copy_at (copy_at (copy_at (copy_at (make n) 0 a) i b) j c) k d ≡ a ++ (b ++ (c ++ d))
unfolding make
fill_four n i j k a b c d hi hj hk hn =
    let first = copy_at_next (replicate n 0) [] n 0 a refl (omega arith) (omega arith) in
    let second = copy_at_next _ a (n - length a) i b first hi (omega arith) in
    let third =
      copy_at_next _ (a ++ b) (n - length a - length b) j c second
        (omega (arith, length-append a b)) (omega arith) in
    copy_at_last _ ((a ++ b) ++ c) (n - length a - length b - length c) k d third
      (omega (arith, length-append a b, length-append (a ++ b) c)) (omega arith)
    ∙ simp append_assoc

-- `bytes.Equal`, and `==` on strings.
abbrev pub bytes_eq : Bytes → Bytes → Bool
bytes_eq [] [] = true
bytes_eq [] (y ∷ ys) = false
bytes_eq (x ∷ xs) [] = false
bytes_eq (x ∷ xs) (y ∷ ys) = x == y && bytes_eq xs ys

pub bytes_eq_iff : (xs ys : Bytes) → (bytes_eq xs ys ≡ true) ↔ (xs ≡ ys)
bytes_eq_iff [] [] = (λ _. refl, λ _. refl)
bytes_eq_iff [] (y ∷ ys) = (λ h. cc, λ h. cc)
bytes_eq_iff (x ∷ xs) [] = (λ h. cc, λ h. cc)
bytes_eq_iff (x ∷ xs) (y ∷ ys) = ground (arith, bytes_eq_iff xs ys)

pub bytes_eq_self : (xs : Bytes) → bytes_eq xs xs ≡ true
bytes_eq_self xs = (bytes_eq_iff xs xs).1 refl
