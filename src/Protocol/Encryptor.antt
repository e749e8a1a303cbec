-- ===== src/Protocol/Encryptor.antt =====
-- pkg/migp/encryptor.go: entries of a bucket, encrypted under a key that only their owner derives.
pub mod Laws
pub mod RoundTrip
use migp.Base.{
  ℕ, ◌+◌, Bool, true, false, not, Bytes, codes, [], ◌∷◌, Option, none, some, make, copy_at,
  put_uint32, get_uint32, uint32, byte, length, get_elem?, set, take, drop, bit_xor, ltb, ◌==◌,
  bytes_eq, if◌then◌else◌,
}
use migp.Base.Outcome.{
  Outcome, ok, err, panic, ◌>>=◌, ◌>>◌, fail_if, panic_if, or_panic, hkdf_failed, hkdf_short_read,
  short_ciphertext, unsupported_bucket_encryptor,
}
use migp.Protocol.Common.{
  MetadataType, ctxt_key_check_size, header_size, bucket_encryptor_hkdf_sha256,
}
use migp.Protocol.Libraries.{Crypto}

abbrev pub derive_pad_header_salt : Bytes
derive_pad_header_salt = codes "MIGP derive pad header"

abbrev pub derive_pad_body_salt : Bytes
derive_pad_body_salt = codes "MIGP derive pad body"

-- The loop of `xorBytes`, over slices of one length.
unfoldable pub xor_loop : Bytes → Bytes → Bytes
xor_loop [] b2 = []
xor_loop (x ∷ b1) [] = []
xor_loop (x ∷ b1) (y ∷ b2) = bit_xor x y ∷ xor_loop b1 b2

unfoldable pub xor_bytes : Bytes → Bytes → Outcome Bytes
xor_bytes b1 b2 = do panic_if (not (length b1 == length b2)); ok (xor_loop b1 b2)

-- The implementations of the interface `BucketEncryptor`: there is one.
pub data BucketEncryptor : Type 0 where
  hkdf_sha256 : BucketEncryptor

unfoldable pub new_bucket_encryptor : ℕ → Outcome BucketEncryptor
new_bucket_encryptor id =
    if id == bucket_encryptor_hkdf_sha256 then ok hkdf_sha256 else err unsupported_bucket_encryptor

abbrev pub encryptor_id : BucketEncryptor → ℕ
encryptor_id hkdf_sha256 = bucket_encryptor_hkdf_sha256

-- What `DecryptHeader` returns beside its error.
pub record Header : Type 0 where
  pub key_check : Bool
  pub flag : MetadataType
  pub body_length : ℕ

module _ (c : Crypto) where
  unfoldable pub derive_pad : Bytes → Bytes → ℕ → Outcome Bytes
  derive_pad secret salt n = elim (c.hkdf_read secret salt n) [
    | none ↦ err hkdf_failed
    | some (pad, k) ↦ if k == n then ok pad else err hkdf_short_read
  ]

  unfoldable pub encrypt : Bytes → MetadataType → Bytes → Outcome Bytes
  encrypt secret flag body = do
    header_pad ← derive_pad secret derive_pad_header_salt (ctxt_key_check_size + 1)
    let header = set (make (ctxt_key_check_size + 1)) ctxt_key_check_size (byte flag)
    encrypted_header ← xor_bytes header header_pad
    body_pad ← derive_pad secret derive_pad_body_salt (length body)
    encrypted_body ← xor_bytes body body_pad
    let ciphertext = make (length encrypted_header + 4 + length encrypted_body)
    let ciphertext = copy_at ciphertext 0 encrypted_header
    let ciphertext =
        put_uint32 ciphertext (length encrypted_header) (uint32 (length encrypted_body))
    ok (copy_at ciphertext (length encrypted_header + 4) encrypted_body)

  -- `int` has 64 bits, so the length that is read is not negative.
  unfoldable pub decrypt_header : Bytes → Bytes → Outcome Header
  decrypt_header secret ciphertext = do
    fail_if (ltb (length ciphertext) header_size) short_ciphertext
    header_pad ← derive_pad secret derive_pad_header_salt (ctxt_key_check_size + 1)
    let check = bytes_eq (take ctxt_key_check_size header_pad) (take ctxt_key_check_size ciphertext)
    pad_byte ← or_panic (get_elem? header_pad ctxt_key_check_size)
    flag_byte ← or_panic (get_elem? ciphertext ctxt_key_check_size)
    body_length ← or_panic (get_uint32 (take 4 (drop (ctxt_key_check_size + 1) ciphertext)))
    ok (record { key_check = check; flag = bit_xor pad_byte flag_byte; body_length = body_length })

  unfoldable pub decrypt_body : Bytes → Bytes → Outcome Bytes
  decrypt_body secret ciphertext = do
    body_pad ← derive_pad secret derive_pad_body_salt (length ciphertext)
    xor_bytes ciphertext body_pad
