-- ===== src/Protocol/Tests.antt =====
-- Tests of pkg/migp on concrete inputs.
use migp.Base.{
  ℕ, suc, All, IsByte, ◌-◌, ◌↔◌, ◌∙◌, ◌+◌, ◌/◌, copy_at, make, ◌^◌, ◌<◌, ◌≤◌, ◌≡◌, ◌≢◌, refl, sym,
  ap, true, Bytes, List, [], ◌∷◌, ◌++◌, some, arith, length, take, drop, replicate,
  length-replicate,
}
use migp.Base.Int.{pos}
use migp.Base.Outcome.{Outcome, ok, panic, ok-injective}
use migp.Protocol.Common.{
  header_size, serialize_username_password, bucket_hash_to_id, to_breach_status,
}
use migp.Protocol.Common.Serialize.{
  serialize_username_password-prefix_free, serialize_username_password-collision, serialized,
}
use migp.Protocol.Common.BucketId.{leading_word, bucket_hash_to_id_lem}
use migp.Protocol.Encryptor.{
  hkdf_sha256, derive_pad, derive_pad_header_salt, encrypt, decrypt_header, decrypt_body, xor_bytes,
  xor_loop,
}
use migp.Protocol.Encryptor.Laws.{xor_bytes-xor_bytes}
use migp.Protocol.Encryptor.RoundTrip.{found, pads_agree, decrypt-encrypt}
use migp.Protocol.Hasher.{
  bucket_hash_input, bucket_hash_salt, bucket_hash, new_sha256_bucket_hasher,
}
use migp.Protocol.Hasher.Laws.{bucket_hash_input-injective, bucket_hash_digest}
use migp.Protocol.Server.{ServerResponse, marshal_binary, unmarshal_binary}
use migp.Protocol.Server.Response.{unmarshal_binary-marshal_binary}
use migp.Protocol.Client.{Finding, scan_bucket, scan_all}
use migp.Protocol.Client.Scan.{scan_all_ends}
use migp.Protocol.Client.Find.{Stored, AreForeign, contents_of, scan_all_finds}
use migp.Protocol.ServerConfig.{marshal_json, unmarshal_json, unmarshal_json-marshal_json}
use migp.Protocol.Toy.{
  toy_crypto, toy_crypto-IsCrypto, toy_oprf, toy_oprf-IsOprfCoding, toy_config, every_key-KeyOf,
}
use migp.Protocol.Toy.Texts.{toy_json, toy_json-IsJson}

abbrev alice : Bytes
alice = 97 ∷ 108 ∷ []

abbrev secret_word : Bytes
secret_word = 120 ∷ 121 ∷ []

abbrev encoded : Bytes
encoded = 0 ∷ 2 ∷ 97 ∷ 108 ∷ 0 ∷ 2 ∷ 120 ∷ 121 ∷ []

encodes : serialize_username_password alice secret_word ≡ ok encoded
unfolding serialize_username_password copy_at make
encodes = refl

serialize_username_password-prefix_free_example :
    (alice ≡ alice) × (secret_word ≡ secret_word) × (alice ≡ alice)
serialize_username_password-prefix_free_example =
    serialize_username_password-prefix_free alice secret_word alice secret_word encoded encoded
      alice alice (omega arith) (omega arith) (omega arith) (omega arith) encodes encodes refl

abbrev long_word : Bytes
long_word = replicate 65534 7

serialize_username_password-collision_example :
    (serialize_username_password (0 ∷ 0 ∷ long_word) [] ≡ ok (serialized (0 ∷ 0 ∷ long_word) []))
    × (serialize_username_password [] (long_word ++ 0 ∷ 0 ∷ [])
        ≡ ok (serialized (0 ∷ 0 ∷ long_word) []))
serialize_username_password-collision_example =
    serialize_username_password-collision long_word (length-replicate {A = ℕ} 65534 7)

bucket_hash_to_id_lem_example :
    (bucket_hash_to_id (18 ∷ 52 ∷ 86 ∷ 120 ∷ []) (pos 20)
      ≡ ok (leading_word (18 ∷ 52 ∷ 86 ∷ 120 ∷ []) / 2 ^ (32 - 20)))
    × (leading_word (18 ∷ 52 ∷ 86 ∷ 120 ∷ []) / 2 ^ (32 - 20) < 2 ^ 20)
bucket_hash_to_id_lem_example =
    bucket_hash_to_id_lem (18 ∷ 52 ∷ 86 ∷ 120 ∷ []) 20 (omega arith)
      (omega arith, (omega arith, (omega arith, (omega arith, tt)))) (omega arith)

abbrev seven : ℕ
seven = 7

bucket_hash_input-injective_example :
    (2 ^ 16 < length alice → bucket_hash_input bucket_hash_salt alice ≡ panic)
    × (length alice ≤ 2 ^ 16
        → length secret_word ≤ 2 ^ 16
        → bucket_hash_input bucket_hash_salt alice ≡ bucket_hash_input bucket_hash_salt secret_word
        → alice ≡ secret_word)
bucket_hash_input-injective_example = bucket_hash_input-injective alice secret_word

abbrev ciphertext : Bytes
ciphertext = replicate 20 9 ++ (8 ∷ 0 ∷ 0 ∷ 0 ∷ 2 ∷ 104 ∷ 97 ∷ [])

abbrev nine : Bytes
nine = 9 ∷ []

abbrev tag : Bytes
tag = 97 ∷ 104 ∷ []

encrypts : encrypt toy_crypto nine 1 tag ≡ ok ciphertext
unfolding encrypt derive_pad xor_bytes xor_loop copy_at make
encrypts = refl

decrypt-encrypt_example :
    (decrypt_header toy_crypto nine (ciphertext ++ alice) ≡ ok (found true 1 2))
    × (decrypt_body toy_crypto nine (take 2 (drop header_size (ciphertext ++ alice))) ≡ ok tag)
    × (length ciphertext ≡ header_size + 2)
decrypt-encrypt_example =
    decrypt-encrypt toy_crypto toy_crypto-IsCrypto nine 1 tag ciphertext alice encrypts
      (omega arith) (omega arith)

xor_bytes-xor_bytes_example :
    (length alice ≡ length tag
      → (x : Bytes) × (xor_bytes alice tag ≡ ok x)
        × (length x ≡ length alice)
        × (xor_bytes x tag ≡ ok alice))
    × (length alice ≢ length tag → xor_bytes alice tag ≡ panic)
xor_bytes-xor_bytes_example = xor_bytes-xor_bytes alice tag

scan_all_ends_example :
    (r : Outcome Finding) × (scan_bucket toy_crypto hkdf_sha256
        (suc (length ciphertext))
        nine
        ciphertext
        0
      ≡ some r)
    × (scan_all toy_crypto hkdf_sha256 nine ciphertext ≡ r)
scan_all_ends_example = scan_all_ends toy_crypto hkdf_sha256 nine ciphertext

-- An entry of another user in front.
abbrev other : Bytes
other = 77 ∷ []

abbrev other_entry : Bytes
other_entry = replicate 20 77 ++ (78 ∷ 0 ∷ 0 ∷ 0 ∷ 0 ∷ [])

other_encrypts : encrypt toy_crypto other 3 [] ≡ ok other_entry
unfolding encrypt derive_pad xor_bytes xor_loop copy_at make
other_encrypts = refl

abbrev others : List Stored
others = record { secret = other; flag = 3; body = []; ct = other_entry } ∷ []

nine_pad : derive_pad toy_crypto nine derive_pad_header_salt 21 ≡ ok (replicate 21 9)
unfolding derive_pad
nine_pad = refl

other_pad : derive_pad toy_crypto other derive_pad_header_salt 21 ≡ ok (replicate 21 77)
unfolding derive_pad
other_pad = refl

others_foreign : AreForeign toy_crypto toy_crypto-IsCrypto nine (replicate 21 9) nine_pad others
others_foreign = (
  (
    record { encrypted = other_encrypts; fits = omega arith; is_byte = omega arith },
    λ own e.
        ap (λ p. pads_agree toy_crypto toy_crypto-IsCrypto (replicate 21 9) p)
          (ok-injective (sym e ∙ other_pad)),
  ),
  tt,
)

scan_all_finds_example :
    scan_all toy_crypto hkdf_sha256 nine (contents_of others ++ (ciphertext ++ alice))
    ≡ ok (record { status = to_breach_status 1; metadata = tag })
scan_all_finds_example =
    scan_all_finds toy_crypto toy_crypto-IsCrypto nine (replicate 21 9) nine_pad others 1 tag
      ciphertext alice others_foreign encrypts (omega arith) (omega arith)

abbrev response : ServerResponse
response = record { version = 1; evaluated_element = 5 ∷ 6 ∷ 7 ∷ []; bucket_contents = alice }

unmarshal_binary-marshal_binary_example :
    (unmarshal_binary toy_oprf (marshal_binary response) ≡ ok response)
    ↔ (length response.evaluated_element ≡ 3)
unmarshal_binary-marshal_binary_example =
    unmarshal_binary-marshal_binary toy_oprf 3 refl response (omega arith) (omega arith)

bucket_hash_digest_example :
    (d : Bytes) × (bucket_hash toy_crypto new_sha256_bucket_hasher alice ≡ ok d)
    × (length d ≡ 32)
    × All IsByte d
bucket_hash_digest_example = bucket_hash_digest toy_crypto toy_crypto-IsCrypto alice (omega arith)

-- The numbers of the configuration, and the key.
abbrev config_text : Bytes
config_text = 1 ∷ 0 ∷ 20 ∷ 1 ∷ 0 ∷ 1 ∷ 3 ∷ 5 ∷ []

config_written : marshal_json toy_oprf toy_json toy_config ≡ ok config_text
unfolding marshal_json
config_written = refl

unmarshal_json-marshal_json_example : unmarshal_json toy_oprf toy_json config_text ≡ ok toy_config
unmarshal_json-marshal_json_example =
    unmarshal_json-marshal_json toy_oprf toy_json toy_oprf-IsOprfCoding toy_json-IsJson toy_config
      (5 ∷ []) config_text (every_key-KeyOf 3 5) refl (omega arith, tt) config_written
