-- ===== src/Protocol/Common.antt =====
-- pkg/migp/common.go: constants, configuration, metadata types, breach statuses, and the encodings
-- of credentials and bucket identifiers. `MetadataType` and `BreachStatus` are uint8 in the source,
-- and any byte can come out of a decryption: they are numbers here.
pub mod Serialize
pub mod BucketId
use Prim.Native.Nat.{bit_and}
use migp.Base.{
  ℕ, suc, ◌+◌, ◌-◌, ◌*◌, ◌/◌, ◌%◌, ◌^◌, Bool, true, false, ◌||◌, Bytes, codes, List, [], ◌∷◌, ◌++◌,
  Option, none, some, make, copy_at, put_uint16, put_uint32, get_uint32, uint16, uint32, length,
  ltb, leb, ◌&&◌, ◌==◌, if◌then◌else◌,
}
use migp.Base.Int.{ℤ, pos, negsuc}
use migp.Base.Outcome.{Outcome, ok, panic, ◌>>=◌, ◌>>◌, panic_if, or_panic}

abbrev pub default_migp_version : ℕ
default_migp_version = 1

abbrev pub default_bucket_id_bit_size : ℕ
default_bucket_id_bit_size = 20

abbrev pub ctxt_key_check_size : ℕ
ctxt_key_check_size = 20

abbrev pub header_size : ℕ
header_size = ctxt_key_check_size + 5

abbrev pub oprf_info : Bytes
oprf_info = codes "MIGP oprf info"

-- The identifiers that hasher.go, slowhasher.go and encryptor.go give.
abbrev pub bucket_hasher_sha256 : ℕ
bucket_hasher_sha256 = 1

abbrev pub slow_hasher_null : ℕ
slow_hasher_null = 0

abbrev pub slow_hasher_scrypt : ℕ
slow_hasher_scrypt = 1

abbrev pub bucket_encryptor_hkdf_sha256 : ℕ
bucket_encryptor_hkdf_sha256 = 1

pub record Config : Type 0 where
  pub version : ℕ
  pub bucket_id_bit_size : ℤ
  pub bucket_hasher_id : ℕ
  pub slow_hasher_id : ℕ
  pub bucket_encryptor_id : ℕ
  pub oprf_suite : ℕ

-- The number of the suite OPRFP256 belongs to the OPRF library.
abbrev pub default_config : ℕ → Config
default_config default_oprf_suite = record {
  version = default_migp_version;
  bucket_id_bit_size = pos default_bucket_id_bit_size;
  bucket_hasher_id = bucket_hasher_sha256;
  slow_hasher_id = slow_hasher_scrypt;
  bucket_encryptor_id = bucket_encryptor_hkdf_sha256;
  oprf_suite = default_oprf_suite;
}

abbrev pub MetadataType : Type 0
MetadataType = ℕ

abbrev pub metadata_dummy : MetadataType
metadata_dummy = 0

abbrev pub metadata_breached_password : MetadataType
metadata_breached_password = 1

abbrev pub metadata_similar_password : MetadataType
metadata_similar_password = 2

abbrev pub metadata_breached_username : MetadataType
metadata_breached_username = 3

unfoldable pub metadata_type_string : MetadataType → Bytes
metadata_type_string mt =
    if mt == metadata_dummy
    then codes "dummy metadata"
    else if mt == metadata_breached_password
    then codes "breached password"
    else if mt == metadata_similar_password
    then codes "similar password"
    else if mt == metadata_breached_username
    then codes "breached username"
    else codes "Unknown metadata type"

unfoldable pub is_valid : MetadataType → Bool
is_valid mt =
    mt == metadata_dummy
    || mt == metadata_breached_password
    || mt == metadata_similar_password
    || mt == metadata_breached_username

abbrev pub BreachStatus : Type 0
BreachStatus = ℕ

abbrev pub not_in_breach : BreachStatus
not_in_breach = 0

abbrev pub in_breach : BreachStatus
in_breach = 1

abbrev pub similar_in_breach : BreachStatus
similar_in_breach = 2

abbrev pub username_in_breach : BreachStatus
username_in_breach = 3

unfoldable pub to_breach_status : MetadataType → BreachStatus
to_breach_status mt =
    if mt == metadata_breached_password
    then in_breach
    else if mt == metadata_similar_password
    then similar_in_breach
    else if mt == metadata_breached_username
    then username_in_breach
    else not_in_breach

unfoldable pub breach_status_string : BreachStatus → Bytes
breach_status_string bs =
    if bs == not_in_breach
    then codes "password not in breach"
    else if bs == in_breach
    then codes "password in breach"
    else if bs == similar_in_breach
    then codes "similar password in breach"
    else if bs == username_in_breach
    then codes "username in breach"
    else codes "unknown breach status"

-- `serializeUsernamePassword`
unfoldable pub serialize_username_password : Bytes → Bytes → Outcome Bytes
serialize_username_password username password = do
  panic_if (ltb (2 ^ 16) (length username) || ltb (2 ^ 16) (length password))
  let buf = make (4 + length username + length password)
  let buf = put_uint16 buf 0 (uint16 (length username))
  let buf = copy_at buf 2 username
  let buf = put_uint16 buf (2 + length username) (uint16 (length password))
  ok (copy_at buf (4 + length username) password)

-- `(1 << bitSize) - 1` in uint32
abbrev low_mask : ℕ → ℕ
low_mask n = uint32 (uint32 (2 ^ n) + 2 ^ 32 - 1)

-- The same for an `int`: `1 << bitSize` panics on a negative count.
abbrev mask_of : ℤ → Outcome ℕ
mask_of (pos n) = ok (low_mask n)
mask_of (negsuc n) = panic

-- `bucketID >> (32 - bitSize)` for a size of at most 32
abbrev high_bits : ℕ → ℤ → ℕ
high_bits bucket_id (pos n) = bucket_id / 2 ^ (32 - n)
high_bits bucket_id (negsuc n) = bucket_id / 2 ^ (33 + n)

-- `bitSize > 32`
abbrev is_above_32 : ℤ → Bool
is_above_32 (pos n) = ltb 32 n
is_above_32 (negsuc n) = false

-- `bucketHashToID`
unfoldable pub bucket_hash_to_id : Bytes → ℤ → Outcome ℕ
bucket_hash_to_id bucket_hash bit_size = do
  panic_if (is_above_32 bit_size)
  bucket_id ← or_panic (get_uint32 bucket_hash)
  mask ← mask_of bit_size
  ok (bit_and (high_bits bucket_id bit_size) mask)

-- A digit of `hex.EncodeToString`
abbrev pub hex_digit : ℕ → ℕ
hex_digit n = if ltb n 10 then b'0' + n else b'a' + (n - 10)

-- `hex.EncodeToString`
unfoldable pub hex_encode : Bytes → Bytes
hex_encode [] = []
hex_encode (b ∷ s) = hex_digit (b / 16) ∷ hex_digit (b % 16) ∷ hex_encode s

-- `hex.DecodeString`: pairs of digits, of either case.
abbrev pub hex_value : ℕ → Option ℕ
hex_value c =
    if leb b'0' c && leb c b'9'
    then some (c - b'0')
    else if leb b'a' c && leb c b'f'
    then some (c - b'a' + 10)
    else if leb b'A' c && leb c b'F'
    then some (c - b'A' + 10)
    else none

abbrev decode_pair : Option ℕ → Option ℕ → Option Bytes → Option Bytes
decode_pair (some x) (some y) (some s) = some ((x * 16 + y) ∷ s)
decode_pair _ _ _ = none

unfoldable pub hex_decode : Bytes → Option Bytes
hex_decode [] = some []
hex_decode (c ∷ []) = none
hex_decode (c ∷ d ∷ s) = decode_pair (hex_value c) (hex_value d) (hex_decode s)

-- `BucketIDToHex`
unfoldable pub bucket_id_to_hex : ℕ → Bytes
unfolding hex_encode make copy_at
bucket_id_to_hex bucket_id = hex_encode (put_uint32 (make 4) 0 bucket_id)
