-- ===== src/Program/Buckets/Counts.antt =====
-- What the statistics of cmd/server/main.go say of the buckets.
use migp.Base.{
  ℕ, ◌+◌, ◌*◌, ◌/◌, ◌≤◌, ◌<◌, ◌≡◌, refl, ap, ◌∙◌, inl, inr, All, List, [], ◌∷◌, arith, length,
  length-append, map, ◌==◌, Bool-cases,
}
use native.Mathlib.Nat.{div-add-mod, mod-lt}
use migp.Base.Outcome.{ok, panic, panic_if, ok-injective}
use migp.Protocol.Libraries.{Crypto, IsCrypto}
use migp.Protocol.Encryptor.Laws.{length-encrypt}
use migp.Protocol.Client.Find.{Stored, IsStored, contents_of}
use migp.Program.Buckets.{Statistics, sum, statistics}

-- The entries of all buckets, and the bytes of their metadata.
abbrev pub entry_count : List (List Stored) → ℕ
entry_count buckets = sum (map length buckets)

abbrev pub metadata_bytes : List Stored → ℕ
metadata_bytes [] = 0
metadata_bytes (e ∷ es) = length e.body + metadata_bytes es

length-map {ℓ κ} :
    {A : Type ℓ} {B : Type κ} (f : A → B) (xs : List A) → length (map f xs) ≡ length xs
length-map f [] = refl
length-map f (x ∷ xs) = omega (arith, length-map f xs)

quotient_bounds : (m n : ℕ) → 0 < n → (m / n * n ≤ m) × (m < m / n * n + n)
quotient_bounds m n h = omega (arith, div-add-mod m n, mod-lt m h)

module _ (c : Crypto) (lawful : IsCrypto c) where
  length-contents_of :
      (es : List Stored)
      → All (IsStored c) es
      → length (contents_of es) ≡ 25 * length es + metadata_bytes es
  length-contents_of [] h = omega arith
  length-contents_of (e ∷ es) (stored, h) =
      length-append e.ct (contents_of es)
      ∙ omega (
        arith,
        length-encrypt c lawful e.secret e.flag e.body e.ct stored.encrypted,
        length-contents_of es h,
      )

  contents_total :
      (buckets : List (List Stored))
      → All (All (IsStored c)) buckets
      → sum (map length (map contents_of buckets))
        ≡ 25 * entry_count buckets + sum (map metadata_bytes buckets)
  contents_total [] h = omega arith
  contents_total (es ∷ buckets) (stored, h) =
      omega (arith, length-contents_of es stored, contents_total buckets h)

  -- Of buckets that hold entries of the server, the statistics count the entries and, beside them, one
  -- credential for every 25 bytes of their metadata: exactly the entries if there is less metadata
  -- than that. The average is that count divided by the number of buckets, without the remainder.
  pub statistics_count :
      (root : ℕ → ℕ → ℕ) (buckets : List (List Stored)) (r : Statistics)
      → All (All (IsStored c)) buckets
      → statistics root (map contents_of buckets) ≡ ok r
      → (r.num_cred ≡ entry_count buckets + sum (map metadata_bytes buckets) / 25)
        × (r.avg * r.num_of_buckets ≤ r.num_cred)
        × (r.num_cred < r.avg * r.num_of_buckets + r.num_of_buckets)
        × (r.num_of_buckets ≡ length buckets)
  unfolding statistics
  statistics_count root buckets r h e =
      let bytes = map contents_of buckets in
      elim (Bool-cases (length bytes == 0)) [
        | inl empty ↦ let bad : panic ≡ ok r = rw (empty, panic_if) at e in absurd (cc)
        | inr full ↦
            let same = ok-injective (rw (full, panic_if) at e) in
            let buckets_of : length bytes ≡ r.num_of_buckets = ap (λ t. t.num_of_buckets) same in
            let creds : sum (map length bytes) / 25 ≡ r.num_cred = ap (λ t. t.num_cred) same in
            let average : sum (map length bytes) / 25 / length bytes ≡ r.avg =
              ap (λ t. t.avg) same in
            let (low, high) =
              quotient_bounds (sum (map length bytes) / 25) (length bytes) (ground (arith, full)) in
            (
              omega (arith, creds, contents_total buckets h),
              rw (average, buckets_of, creds) at low,
              rw (average, buckets_of, creds) at high,
              omega (arith, buckets_of, length-map contents_of buckets),
            )
      ]
