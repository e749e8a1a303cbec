-- ===== src/Protocol/Hasher/Laws.antt =====
-- What the bucket hasher of pkg/migp/hasher.go feeds to SHA-256.
use migp.Base.{
  ◌^◌, ◌≤◌, ◌<◌, ◌≡◌, refl, ap, sym, ◌∙◌, true, false, ◌||◌, Bytes, All, IsByte, ◌++◌, arith, be16,
  uint16, length, drop, fill_four, ltb, lt→ltb,
}
use migp.Base.Outcome.{ok, ◌>>=◌, panic, ok-injective, panic_if}
use migp.Protocol.Libraries.{Crypto, IsCrypto}
use migp.Protocol.Hasher.{
  bucket_hash_input, bucket_hash, bucket_hash_salt, new_sha256_bucket_hasher,
}

bucket_hash_input_lem :
    (salt buf : Bytes)
    → length salt ≤ 2 ^ 16
    → length buf ≤ 2 ^ 16
    → bucket_hash_input salt buf
      ≡ ok (be16 (uint16 (length salt)) ++ (salt ++ (be16 (uint16 (length buf)) ++ buf)))
unfolding bucket_hash_input
bucket_hash_input_lem salt buf hs hb =
    let short : (ltb (2 ^ 16) (length salt) || ltb (2 ^ 16) (length buf)) ≡ false = ground arith in
    rw (short, panic_if)
      (ap ok (
        fill_four _ 2 _ _ (be16 (uint16 (length salt))) salt (be16 (uint16 (length buf))) buf refl
          (omega arith) (omega arith) (omega arith)))

-- Before it hashes, the bucket hasher panics on an input of more than 2 ^ 16 bytes; two inputs of at
-- most that length for which it would hash one text are equal.
pub bucket_hash_input-injective :
    (buf buf' : Bytes)
    → (2 ^ 16 < length buf → bucket_hash_input bucket_hash_salt buf ≡ panic)
      × (length buf ≤ 2 ^ 16
          → length buf' ≤ 2 ^ 16
          → bucket_hash_input bucket_hash_salt buf ≡ bucket_hash_input bucket_hash_salt buf'
          → buf ≡ buf')
bucket_hash_input-injective buf buf' = (
  λ long.
      unfold bucket_hash_input in
      (let test : ltb (2 ^ 16) (length buf) ≡ true = lt→ltb _ _ long in rw (test, panic_if)),
  λ h h' e. ap (drop 15) (
      ok-injective (
        sym (bucket_hash_input_lem bucket_hash_salt buf (omega arith) h)
        ∙ e
        ∙ bucket_hash_input_lem bucket_hash_salt buf' (omega arith) h')),
)

-- A digest: what `BucketID` cuts its identifier from.
pub bucket_hash_digest :
    (c : Crypto)
    → IsCrypto c
    → (buf : Bytes) → length buf ≤ 2 ^ 16
    → (d : Bytes) × (bucket_hash c new_sha256_bucket_hasher buf ≡ ok d)
      × (length d ≡ 32)
      × All IsByte d
unfolding bucket_hash
bucket_hash_digest c lawful buf h =
    let e = bucket_hash_input_lem bucket_hash_salt buf (omega arith) h in
    let text =
      be16 (uint16 (length bucket_hash_salt))
      ++ (bucket_hash_salt ++ (be16 (uint16 (length buf)) ++ buf)) in
    (
      c.sha256 text,
      ap (λ o. o >>= λ acc. ok (c.sha256 acc)) e,
      lawful.sha256_length text,
      lawful.sha256_bytes text,
    )
