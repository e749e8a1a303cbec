-- ===== src/Protocol/Server.antt =====
-- pkg/migp/server.go: the server of the protocol, its response and the encoding of the response.
-- JSON of a configuration is in Protocol/ServerConfig.
pub mod Response
pub mod Configured
use migp.Base.{
  ℕ, suc, zero, ◌+◌, ◌*◌, Bool, true, false, not, Bytes, List, [], ◌∷◌, ◌++◌, Option, none, some,
  make, be32, get_uint32, uint16, uint32, length, take, drop, ltb, leb, ◌==◌, if◌then◌else◌,
}
use migp.Base.Int.{ℤ}
use migp.Base.Outcome.{
  Outcome, ok, err, panic, ◌>>=◌, ◌>>◌, fail_if, or_fail, or_panic, oprf_failed,
  invalid_metadata_flag, version_mismatch, invalid_evaluation, bucket_id_not_hex,
  short_evaluated_element, unexpected_eof, end_of_file,
}
use migp.Protocol.Common.{
  Config, default_config, MetadataType, is_valid, oprf_info, serialize_username_password,
  bucket_hash_to_id, hex_decode,
}
use migp.Protocol.Libraries.{Crypto, Oprf}
use migp.Protocol.Encryptor.{BucketEncryptor, new_bucket_encryptor, encryptor_id, encrypt}
use migp.Protocol.Hasher.{
  BucketHasher, new_bucket_hasher, bucket_hasher_id, bucket_hash, SlowHasher, new_slow_hasher,
  slow_hasher_id, slow_hash,
}

-- `ClientRequest` of client.go
pub record ClientRequest : Type 0 where
  pub version : ℕ
  pub bucket_id : Bytes
  pub blind_element : Bytes

pub record ServerResponse : Type 0 where
  pub version : ℕ
  pub evaluated_element : Bytes
  pub bucket_contents : Bytes

-- `<32-bit version>|<evaluated-element>|<bucket-contents>`; writing to a buffer does not fail.
unfoldable pub marshal_binary : ServerResponse → Bytes
marshal_binary r = be32 r.version ++ (r.evaluated_element ++ r.bucket_contents)

-- `binary.Read` of a uint32 from the buffer: the number and the bytes that are left.
abbrev pub read_uint32 : Bytes → Outcome (ℕ × Bytes)
read_uint32 [] = err end_of_file
read_uint32 (a ∷ []) = err unexpected_eof
read_uint32 (a ∷ b ∷ []) = err unexpected_eof
read_uint32 (a ∷ b ∷ c ∷ []) = err unexpected_eof
read_uint32 (a ∷ b ∷ c ∷ d ∷ rest) = ok (((a * 256 + b) * 256 + c) * 256 + d, rest)

-- `buffer.Read(p)` for a slice of `n` bytes: the bytes read and those left; an empty buffer is an
-- error, unless nothing is asked for.
abbrev pub buffer_read : Bytes → ℕ → Outcome (Bytes × Bytes)
buffer_read [] zero = ok ([], [])
buffer_read [] (suc n) = err end_of_file
buffer_read (b ∷ buffer) n = ok (take n (b ∷ buffer), drop n (b ∷ buffer))

module _ (o : Oprf) where
  unfoldable pub unmarshal_binary : Bytes → Outcome ServerResponse
  unmarshal_binary bytes = do
    (version, buffer) ← read_uint32 bytes
    size ← or_fail oprf_failed (o.element_length o.default_suite)
    (element, contents) ← buffer_read buffer size
    fail_if (not (length element == size)) short_evaluated_element
    ok (record { version = version; evaluated_element = element; bucket_contents = contents })

  pub record ServerConfig : Type 0 where
    pub config : Config
    pub private_key : o.PrivateKey

  pub record Server : Type 0 where
    pub version : ℕ
    pub bucket_id_bit_size : ℤ
    pub bucket_hasher : BucketHasher
    pub bucket_encryptor : BucketEncryptor
    pub slow_hasher : SlowHasher
    pub oprf_server : o.Server
    pub oprf_suite : ℕ
    pub private_key : o.PrivateKey

  -- `Server.Config`
  unfoldable pub server_config : Server → ServerConfig
  server_config s = record {
    config = record {
      version = s.version;
      bucket_id_bit_size = s.bucket_id_bit_size;
      bucket_hasher_id = bucket_hasher_id s.bucket_hasher;
      slow_hasher_id = slow_hasher_id s.slow_hasher;
      bucket_encryptor_id = encryptor_id s.bucket_encryptor;
      oprf_suite = s.oprf_suite;
    };
    private_key = s.private_key;
  }

  -- `DefaultServerConfig`, with the key that `oprf.GenerateKey` gives; its error is a panic.
  unfoldable pub default_server_config : Option o.PrivateKey → Outcome ServerConfig
  default_server_config generated = do
    key ← or_panic generated
    ok (record { config = default_config o.default_suite; private_key = key })

  unfoldable pub new_server : ServerConfig → Outcome Server
  new_server cfg = do
    hasher ← new_bucket_hasher cfg.config.bucket_hasher_id
    slow ← new_slow_hasher cfg.config.slow_hasher_id
    encryptor ← new_bucket_encryptor cfg.config.bucket_encryptor_id
    oprf ← or_fail oprf_failed (o.new_server cfg.config.oprf_suite cfg.private_key)
    ok (record {
      version = cfg.config.version;
      bucket_id_bit_size = cfg.config.bucket_id_bit_size;
      bucket_hasher = hasher;
      bucket_encryptor = encryptor;
      slow_hasher = slow;
      oprf_server = oprf;
      oprf_suite = cfg.config.oprf_suite;
      private_key = cfg.private_key;
    })

module _ (o : Oprf) (c : Crypto) where
  unfoldable pub derive_bucket_entry_key : Server o → Bytes → Bytes → Outcome Bytes
  derive_bucket_entry_key s username password = do
    serialized ← serialize_username_password username password
    input ← slow_hash c s.slow_hasher serialized
    or_fail oprf_failed (o.full_evaluate s.oprf_server input oprf_info)

  -- `Server.BucketID`
  unfoldable pub server_bucket_id : Server o → Bytes → Outcome ℕ
  server_bucket_id s username = do
    hash ← bucket_hash c s.bucket_hasher username
    bucket_hash_to_id hash s.bucket_id_bit_size

  -- `s.bucketEncryptor.Encrypt`, by the implementation
  abbrev pub encrypt_with : BucketEncryptor → Bytes → MetadataType → Bytes → Outcome Bytes
  encrypt_with BucketEncryptor.hkdf_sha256 = encrypt c

  unfoldable pub encrypt_bucket_entry :
      Server o → Bytes → Bytes → MetadataType → Bytes → Outcome Bytes
  encrypt_bucket_entry s username password metadata_flag metadata = do
    fail_if (not (is_valid metadata_flag)) invalid_metadata_flag
    key ← derive_bucket_entry_key s username password
    encrypt_with s.bucket_encryptor key metadata_flag metadata

  -- `if len(evaluation.Elements) < 1 { … }` and then `evaluation.Elements[0]`
  abbrev pub first_element : List Bytes → Outcome Bytes
  first_element [] = err invalid_evaluation
  first_element (e ∷ es) = ok e

  -- `HandleRequest`; the `Getter` is its method.
  unfoldable pub handle_request :
      Server o → ClientRequest → (Bytes → Outcome Bytes) → Outcome ServerResponse
  handle_request s request get = do
    fail_if (not (uint16 request.version == s.version)) version_mismatch
    elements ← or_fail oprf_failed (o.evaluate s.oprf_server (request.blind_element ∷ []) oprf_info)
    element ← first_element elements
    decoded ← or_fail bucket_id_not_hex (hex_decode request.bucket_id)
    bucket_contents ← get request.bucket_id
    ok (record {
      version = request.version;
      evaluated_element = element;
      bucket_contents = bucket_contents;
    })
