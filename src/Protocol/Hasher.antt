-- ===== src/Protocol/Hasher.antt =====
-- pkg/migp/hasher.go and pkg/migp/slowhasher.go. An interface is a data type of its
-- implementations; `scryptSlowHasher` has fixed fields, those that `NewScryptSlowHasher` gives.
pub mod Laws
use migp.Base.{
  ℕ, ◌+◌, ◌^◌, Bool, ◌||◌, Bytes, codes, Option, make, copy_at, put_uint16, uint16, length, ltb,
  ◌==◌, if◌then◌else◌,
}
use migp.Base.Outcome.{
  Outcome, ok, err, panic, ◌>>=◌, ◌>>◌, panic_if, or_panic, unsupported_bucket_hasher,
  unsupported_slow_hasher,
}
use migp.Protocol.Common.{bucket_hasher_sha256, slow_hasher_null, slow_hasher_scrypt}
use migp.Protocol.Libraries.{Crypto}

abbrev pub bucket_hash_salt : Bytes
bucket_hash_salt = codes "MIGP bucket"

-- `sha256BucketHasher`, with its salt.
pub data BucketHasher : Type 0 where
  sha256_bucket_hasher : Bytes → BucketHasher

abbrev pub new_sha256_bucket_hasher : BucketHasher
new_sha256_bucket_hasher = sha256_bucket_hasher bucket_hash_salt

abbrev pub bucket_hasher_id : BucketHasher → ℕ
bucket_hasher_id (sha256_bucket_hasher salt) = bucket_hasher_sha256

unfoldable pub new_bucket_hasher : ℕ → Outcome BucketHasher
new_bucket_hasher id =
    if id == bucket_hasher_sha256
    then ok new_sha256_bucket_hasher
    else err unsupported_bucket_hasher

abbrev pub slow_hash_salt : Bytes
slow_hash_salt = codes "MIGP slow hash"

abbrev pub slow_hash_len : ℕ
slow_hash_len = 32

abbrev pub scrypt_n : ℕ
scrypt_n = 16384

abbrev pub scrypt_r : ℕ
scrypt_r = 8

abbrev pub scrypt_p : ℕ
scrypt_p = 1

pub data SlowHasher : Type 0 where
  null_slow_hasher scrypt_slow_hasher : SlowHasher

abbrev pub slow_hasher_id : SlowHasher → ℕ
slow_hasher_id null_slow_hasher = slow_hasher_null
slow_hasher_id scrypt_slow_hasher = slow_hasher_scrypt

unfoldable pub new_slow_hasher : ℕ → Outcome SlowHasher
new_slow_hasher id =
    if id == slow_hasher_null
    then ok null_slow_hasher
    else if id == slow_hasher_scrypt
    then ok scrypt_slow_hasher
    else err unsupported_slow_hasher

-- What `sha256BucketHasher.Hash` hands to SHA-256.
unfoldable pub bucket_hash_input : Bytes → Bytes → Outcome Bytes
bucket_hash_input salt buf = do
  panic_if (ltb (2 ^ 16) (length salt) || ltb (2 ^ 16) (length buf))
  let acc = make (2 + length salt + 2 + length buf)
  let acc = put_uint16 acc 0 (uint16 (length salt))
  let acc = copy_at acc 2 salt
  let acc = put_uint16 acc (2 + length salt) (uint16 (length buf))
  ok (copy_at acc (2 + length salt + 2) buf)

module _ (c : Crypto) where
  unfoldable pub bucket_hash : BucketHasher → Bytes → Outcome Bytes
  unfolding bucket_hash_input
  bucket_hash (sha256_bucket_hasher salt) buf = do
    acc ← bucket_hash_input salt buf
    ok (c.sha256 acc)

  unfoldable pub slow_hash : SlowHasher → Bytes → Outcome Bytes
  slow_hash null_slow_hasher buf = ok buf
  slow_hash scrypt_slow_hasher buf =
      or_panic (c.scrypt_key buf slow_hash_salt scrypt_n scrypt_r scrypt_p slow_hash_len)
