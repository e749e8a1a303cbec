-- ===== src/Protocol/Client.antt =====
-- pkg/migp/client.go: the client of the protocol. `Query`, which joins `Request` and
-- `Finalize` over HTTP, is in Protocol/Query.
pub mod Scan
pub mod Find
use migp.Base.{
  ℕ, zero, suc, ◌+◌, Bool, true, false, not, Bytes, List, [], ◌∷◌, Option, none, some, uint16,
  uint32, length, take, drop, ltb, ◌==◌, if◌then◌else◌,
}
use migp.Base.Int.{ℤ}
use migp.Base.Outcome.{
  Outcome, ok, err, panic, ◌>>=◌, ◌>>◌, fail_if, or_fail, oprf_failed, invalid_blinded_elements,
  wrong_version_in_reply, invalid_finalize, bucket_parse_error,
}
use migp.Protocol.Common.{
  Config, BreachStatus, not_in_breach, to_breach_status, header_size, oprf_info,
  serialize_username_password, bucket_hash_to_id, bucket_id_to_hex,
}
use migp.Protocol.Libraries.{Crypto, Oprf}
use migp.Protocol.Encryptor.{
  BucketEncryptor, new_bucket_encryptor, Header, decrypt_header, decrypt_body,
}
use migp.Protocol.Hasher.{
  BucketHasher, new_bucket_hasher, bucket_hash, SlowHasher, new_slow_hasher, slow_hash,
}
use migp.Protocol.Server.{ClientRequest, ServerResponse}

-- What `Finalize` returns beside its error; `nil` metadata is the empty slice.
pub record Finding : Type 0 where
  pub status : BreachStatus
  pub metadata : Bytes

-- The values on the last line of `Finalize`.
abbrev pub no_finding : Finding
no_finding = record { status = not_in_breach; metadata = [] }

module _ (o : Oprf) where
  pub record Client : Type 0 where
    pub version : ℕ
    pub bucket_id_bit_size : ℤ
    pub bucket_hasher : BucketHasher
    pub bucket_encryptor : BucketEncryptor
    pub slow_hasher : SlowHasher
    pub oprf_client : o.Client
    pub oprf_suite : ℕ

  pub record ClientRequestContext : Type 0 where
    pub client : Client
    pub oprf_request : o.Request

  unfoldable pub new_client : Config → Outcome Client
  new_client cfg = do
    hasher ← new_bucket_hasher cfg.bucket_hasher_id
    slow ← new_slow_hasher cfg.slow_hasher_id
    encryptor ← new_bucket_encryptor cfg.bucket_encryptor_id
    oprf ← or_fail oprf_failed (o.new_client cfg.oprf_suite)
    ok (record {
      version = cfg.version;
      bucket_id_bit_size = cfg.bucket_id_bit_size;
      bucket_hasher = hasher;
      bucket_encryptor = encryptor;
      slow_hasher = slow;
      oprf_client = oprf;
      oprf_suite = cfg.oprf_suite;
    })

-- `s.bucketEncryptor.DecryptHeader` and `DecryptBody`, by the implementation
abbrev pub decrypt_header_with : Crypto → BucketEncryptor → Bytes → Bytes → Outcome Header
decrypt_header_with c BucketEncryptor.hkdf_sha256 = decrypt_header c

abbrev pub decrypt_body_with : Crypto → BucketEncryptor → Bytes → Bytes → Outcome Bytes
decrypt_body_with c BucketEncryptor.hkdf_sha256 = decrypt_body c

-- The `for` loop of `Finalize`, from an offset on. A round ends with a larger offset, by at least
-- `HeaderSize`; the first number bounds the rounds, and `none` says that they were not enough.
unfoldable pub scan_bucket :
    Crypto → BucketEncryptor → ℕ → Bytes → Bytes → ℕ → Option (Outcome Finding)
scan_bucket c encryptor zero secret contents offset = none
scan_bucket c encryptor (suc rounds) secret contents offset =
    elim (ltb (length contents) (offset + header_size)) [
      | true ↦ some (ok no_finding)
      | false ↦ elim (decrypt_header_with c encryptor secret (drop offset contents)) [
        | err e ↦ some (err e)
        | panic ↦ some panic
        | ok h ↦
            let offset' = offset + header_size in
            elim (ltb (length contents) (offset' + h.body_length)) [
              | true ↦ some (err bucket_parse_error)
              | false ↦ elim h.key_check [
                | true ↦ some (do
                  metadata ←
                      decrypt_body_with c encryptor secret
                        (take h.body_length (drop offset' contents))
                  ok (record { status = to_breach_status h.flag; metadata = metadata }))
                | false ↦ scan_bucket c encryptor rounds secret contents (offset' + h.body_length)
              ]
            ]
      ]
    ]

-- The loop with rounds enough for every bucket.
abbrev pub scan_all : Crypto → BucketEncryptor → Bytes → Bytes → Outcome Finding
scan_all c encryptor secret contents =
    elim (scan_bucket c encryptor (suc (length contents)) secret contents 0) [
      | some r ↦ r
      | none ↦ panic
    ]

module _ (o : Oprf) (c : Crypto) where
  -- `Client.BucketID`
  unfoldable pub client_bucket_id : Client o → Bytes → Outcome ℕ
  client_bucket_id s username = do
    hash ← bucket_hash c s.bucket_hasher username
    bucket_hash_to_id hash s.bucket_id_bit_size

  abbrev pub first_blinded : List Bytes → Outcome Bytes
  first_blinded [] = err invalid_blinded_elements
  first_blinded (b ∷ bs) = ok b

  -- `Request`; the coins are the randomness of the OPRF request.
  unfoldable pub request :
      Client o → o.Coins → Bytes → Bytes → Outcome (ClientRequest × ClientRequestContext o)
  request s coins username password = do
    serialized ← serialize_username_password username password
    input ← slow_hash c s.slow_hasher serialized
    oprf_request ← or_fail oprf_failed (o.request s.oprf_client coins (input ∷ []))
    blinded ← first_blinded (o.blinded_elements oprf_request)
    bucket_id ← client_bucket_id s username
    let message : ClientRequest = record {
      version = uint32 s.version;
      bucket_id = bucket_id_to_hex bucket_id;
      blind_element = blinded;
    }
    ok (message, record { client = s; oprf_request = oprf_request })

  abbrev pub first_output : List Bytes → Outcome Bytes
  first_output [] = err invalid_finalize
  first_output (y ∷ ys) = ok y

  unfoldable pub finalize : ClientRequestContext o → ServerResponse → Outcome Finding
  finalize ctx response = do
    fail_if (not (uint16 response.version == ctx.client.version)) wrong_version_in_reply
    outputs ← or_fail oprf_failed (
        o.finalize ctx.client.oprf_client ctx.oprf_request (response.evaluated_element ∷ [])
          oprf_info)
    secret ← first_output outputs
    scan_all c ctx.client.bucket_encryptor secret response.bucket_contents
