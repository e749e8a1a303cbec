-- ===== src/Protocol/Exchange/Tests.antt =====
-- A whole exchange on concrete inputs, with the libraries of Protocol/Toy.
use migp.Base.{
  ℕ, ◌≡◌, ◌≢◌, refl, sym, ap, ◌∙◌, Bytes, List, [], ◌∷◌, ◌++◌, arith, make, copy_at, replicate,
  uint16,
}
use migp.Base.Int.{pos}
use migp.Base.Outcome.{ok, err, ok-injective, version_mismatch, ◌>>=◌}
use migp.Protocol.Common.{
  is_valid, to_breach_status, serialize_username_password, bucket_hash_to_id, bucket_id_to_hex,
}
use migp.Protocol.Encryptor.{
  hkdf_sha256, derive_pad, derive_pad_header_salt, encrypt, xor_bytes, xor_loop,
  new_bucket_encryptor,
}
use migp.Protocol.Encryptor.RoundTrip.{pads_agree}
use migp.Protocol.Hasher.{
  new_sha256_bucket_hasher, null_slow_hasher, new_bucket_hasher, new_slow_hasher, bucket_hash_input,
  bucket_hash, slow_hash,
}
use migp.Protocol.Server.{
  ClientRequest, ServerResponse, Server, new_server, derive_bucket_entry_key, server_bucket_id,
  encrypt_bucket_entry, handle_request,
}
use migp.Protocol.Client.{
  Client, ClientRequestContext, new_client, client_bucket_id, request, finalize,
}
use migp.Protocol.Client.Find.{Stored, AreForeign, contents_of}
use migp.Protocol.Exchange.Correct.{request-server_bucket_id, exchange_finds}
use migp.Protocol.Exchange.Version.{handle_request_version}
use migp.Protocol.Toy.{toy_crypto, toy_crypto-IsCrypto, toy_oprf, toy_oprf-IsOprf, toy_config}

abbrev pub user : Bytes
user = 97 ∷ 108 ∷ []

abbrev pub word : Bytes
word = 120 ∷ 121 ∷ []

abbrev pub toy_server : Server toy_oprf
toy_server = record {
  version = 1;
  bucket_id_bit_size = pos 20;
  bucket_hasher = new_sha256_bucket_hasher;
  bucket_encryptor = hkdf_sha256;
  slow_hasher = null_slow_hasher;
  oprf_server = 5;
  oprf_suite = 3;
  private_key = 5;
}

pub server_made : new_server toy_oprf toy_config ≡ ok toy_server
unfolding new_server new_bucket_hasher new_slow_hasher new_bucket_encryptor
server_made = refl

abbrev pub toy_client : Client toy_oprf
toy_client = record {
  version = 1;
  bucket_id_bit_size = pos 20;
  bucket_hasher = new_sha256_bucket_hasher;
  bucket_encryptor = hkdf_sha256;
  slow_hasher = null_slow_hasher;
  oprf_client = tt;
  oprf_suite = 3;
}

pub client_made : new_client toy_oprf toy_config.config ≡ ok toy_client
unfolding new_client new_bucket_hasher new_slow_hasher new_bucket_encryptor
client_made = refl

abbrev pub word_input : Bytes
word_input = 0 ∷ 2 ∷ 97 ∷ 108 ∷ 0 ∷ 2 ∷ 120 ∷ 121 ∷ []

abbrev pub word_key : Bytes
word_key = 5 ∷ word_input

abbrev pub user_bucket : ℕ
user_bucket = 69905

pub identified : server_bucket_id toy_oprf toy_crypto toy_server user ≡ ok user_bucket
unfolding server_bucket_id bucket_hash bucket_hash_to_id bucket_hash_input make copy_at
identified = refl

abbrev pub message : ClientRequest
message = record {
  version = 1;
  bucket_id = bucket_id_to_hex user_bucket;
  blind_element = 1 ∷ 2 ∷ 3 ∷ [];
}

abbrev pub context : ClientRequestContext toy_oprf
context = record { client = toy_client; oprf_request = word_input }

pub requested : request toy_oprf toy_crypto toy_client tt user word ≡ ok (message, context)
unfolding request client_bucket_id bucket_hash bucket_hash_to_id bucket_hash_input
    serialize_username_password slow_hash make copy_at
requested = refl

pub key_derived : derive_bucket_entry_key toy_oprf toy_crypto toy_server user word ≡ ok word_key
unfolding derive_bucket_entry_key serialize_username_password slow_hash make copy_at
key_derived = refl

request-server_bucket_id_example : message.bucket_id ≡ bucket_id_to_hex user_bucket
request-server_bucket_id_example =
    request-server_bucket_id toy_oprf toy_oprf-IsOprf toy_crypto toy_crypto-IsCrypto toy_config
      toy_server toy_client server_made client_made tt user word message context requested
      user_bucket identified

abbrev pub tag : Bytes
tag = 97 ∷ 104 ∷ []

-- The bytes of `tag`, each with the pad 5.
abbrev pub entry : Bytes
entry = replicate 20 5 ++ (4 ∷ 0 ∷ 0 ∷ 0 ∷ 2 ∷ 100 ∷ 109 ∷ [])

pub entry_encrypted : encrypt_bucket_entry toy_oprf toy_crypto toy_server user word 1 tag ≡ ok entry
unfolding encrypt_bucket_entry is_valid derive_bucket_entry_key serialize_username_password
    slow_hash encrypt derive_pad xor_bytes xor_loop make copy_at
entry_encrypted = refl

abbrev pub other : Bytes
other = 77 ∷ []

abbrev pub other_entry : Bytes
other_entry = replicate 20 77 ++ (78 ∷ 0 ∷ 0 ∷ 0 ∷ 0 ∷ [])

other_encrypted : encrypt toy_crypto other 3 [] ≡ ok other_entry
unfolding encrypt derive_pad xor_bytes xor_loop copy_at make
other_encrypted = refl

abbrev pub others : List Stored
others = record { secret = other; flag = 3; body = []; ct = other_entry } ∷ []

pub key_pad : derive_pad toy_crypto word_key derive_pad_header_salt 21 ≡ ok (replicate 21 5)
unfolding derive_pad
key_pad = refl

other_pad : derive_pad toy_crypto other derive_pad_header_salt 21 ≡ ok (replicate 21 77)
unfolding derive_pad
other_pad = refl

pub others_foreign :
    AreForeign toy_crypto toy_crypto-IsCrypto word_key (replicate 21 5) key_pad others
others_foreign = (
  (
    record { encrypted = other_encrypted; fits = omega arith; is_byte = omega arith },
    λ own e.
        ap (λ p. pads_agree toy_crypto toy_crypto-IsCrypto (replicate 21 5) p)
          (ok-injective (sym e ∙ other_pad)),
  ),
  tt,
)

abbrev pub bucket : Bytes
bucket = contents_of others ++ (entry ++ tag)

exchange_finds_example :
    (response : ServerResponse) × (handle_request toy_oprf toy_crypto toy_server message
        (λ id. ok bucket)
      ≡ ok response)
    × (finalize toy_oprf toy_crypto context response
        ≡ ok (record { status = to_breach_status 1; metadata = tag }))
exchange_finds_example =
    exchange_finds toy_oprf toy_oprf-IsOprf toy_crypto toy_crypto-IsCrypto toy_config toy_server
      toy_client server_made client_made tt user word message context requested (omega arith)
      word_key key_derived (λ id. ok bucket) bucket refl (replicate 21 5) key_pad others
      others_foreign 1 tag entry tag entry_encrypted (omega arith) refl

-- The version of the server, with a bit set above its 16 bits.
abbrev pub second_version : ClientRequest
second_version = record message { version = 65537 }

handle_request_version_example :
    (uint16 65537 ≢ 1
      → handle_request toy_oprf toy_crypto toy_server second_version (λ id. ok bucket)
        ≡ err version_mismatch)
    × (uint16 65537 ≡ 1
        → handle_request toy_oprf toy_crypto toy_server second_version (λ id. ok bucket) ≡ (
            handle_request toy_oprf toy_crypto toy_server
              (record second_version { version = 1 })
              (λ id. ok bucket)
            >>= λ response. ok (record response { version = 65537 })))
handle_request_version_example =
    handle_request_version toy_oprf toy_crypto toy_server second_version (λ id. ok bucket)
      (omega arith)
