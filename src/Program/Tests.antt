-- ===== src/Program/Tests.antt =====
-- Tests of the two programs one after the other, with the files and parties of the other tests.
use migp.Base.{
  replicate, ap, Option, arith, ◌≡◌, refl, true, Bytes, [], ◌∷◌, ◌++◌, none, some, length, make,
  copy_at,
}
use migp.Base.Utf8.{rest_width}
use migp.Base.Outcome.{Outcome, ok}
use migp.Protocol.Common.{
  breach_status_string, in_breach, is_valid, serialize_username_password, bucket_hash_to_id,
  hex_encode, bucket_id_to_hex,
}
use migp.Protocol.Encryptor.{new_bucket_encryptor, derive_pad, encrypt, xor_bytes, xor_loop}
use migp.Protocol.Hasher.{
  new_bucket_hasher, new_slow_hasher, bucket_hash_input, bucket_hash, slow_hash,
}
use migp.Protocol.Server.{
  new_server, derive_bucket_entry_key, server_bucket_id, encrypt_bucket_entry,
}
use migp.Protocol.ServerConfig.{unmarshal_json}
use migp.Protocol.Client.Find.{contents_of}
use migp.Protocol.Query.{HttpResponse, Network}
use migp.Protocol.Toy.{
  toy_crypto, toy_crypto-IsCrypto, toy_oprf, toy_config, toy_oprf-IsOprf, toy_oprf-IsOprfCoding,
}
use migp.Service.Tests.{disk, finds_other}
use migp.Program.Server.Found.{InsertsPair, store_before}
use migp.Program.Queried.{loaded_pair_reported}
use migp.Service.Http.{handle_evaluate}
use migp.Protocol.Toy.Texts.{request_text, toy_json, toy_json-IsJson}
use migp.Protocol.Exchange.Tests.{
  other_entry, toy_client, client_made, user_bucket, identified, word_key, key_derived, key_pad,
  message, context, requested, toy_server, server_made, user, word, tag, others, others_foreign,
}
use migp.Store.{
  new_kv_store, assign, find, append, joined, slashed, bucket_dir, load_bucket, write_bucket,
  behind_mkdir, save_in, save_bucket, save_all, save_credentials,
}
use migp.Store.Toy.{toy_files, toy_files-IsFileSystem}
use migp.Mutator.Case.{change_cap}
use migp.Mutator.Edit.{delete_portion, insert as insert_text}
use migp.Mutator.Substitute.{substitute}
use migp.Mutator.Table.{das_rules}
use migp.Mutator.Mutate.{apply_rule, keep_new, mutate_loop, mutate}
use migp.Service.{
  new_demo_server, insert, insert_entry, insert_variants, insert_username, insert_rest,
}
use migp.Service.Process.{split_fields, process_lines}
use migp.Program.Client.{Summary, run_queries}
use migp.Service.Writer.{Writer, fresh}
use migp.Service.Online.{delivered}
use migp.Program.Server as ServerMain
use migp.Program.Server.{
  load, load_directory, process_credentials, save, run_server, main_config, server_main,
}
use migp.Program.Client.Tests.{pair_line, clock, flags}
use migp.Program.Server.Tests.{server_flags, around, main_run}

read : main_config toy_oprf toy_json server_flags around ≡ ok toy_config
unfolding main_config unmarshal_json
read = refl

loads_file : (main_run disk).0 ≡ ok ServerMain.loaded
unfolding server_main main_config run_server load process_credentials save process_lines
    split_fields unmarshal_json new_demo_server new_server new_bucket_hasher new_slow_hasher
    new_bucket_encryptor insert insert_entry insert_rest insert_variants insert_username append
    assign find server_bucket_id bucket_hash bucket_hash_to_id bucket_hash_input bucket_id_to_hex
    hex_encode encrypt_bucket_entry is_valid derive_bucket_entry_key serialize_username_password
    slow_hash encrypt derive_pad xor_bytes xor_loop make copy_at mutate mutate_loop keep_new
    apply_rule change_cap delete_portion insert_text substitute das_rules save_credentials save_all
    save_bucket save_in behind_mkdir write_bucket load_bucket bucket_dir joined slashed rest_width
loads_file = refl

pair_split : split_fields pair_line ≡ some (user, word)
unfolding split_fields
pair_split = refl

inserts_first :
    InsertsPair toy_oprf toy_crypto toy_files length toy_server server_flags around []
      (word ∷ [])
      pair_line
      user
      word
      pair_split
      disk
unfolding insert insert_entry insert_rest insert_variants insert_username append assign find
    server_bucket_id bucket_hash bucket_hash_to_id bucket_hash_input bucket_id_to_hex hex_encode
    encrypt_bucket_entry is_valid derive_bucket_entry_key serialize_username_password slow_hash
    encrypt derive_pad xor_bytes xor_loop make copy_at mutate mutate_loop keep_new apply_rule
    change_cap delete_portion insert_text substitute das_rules process_lines
inserts_first = refl

-- A network with the server on the files that were left.
abbrev answered : Bytes → Outcome Writer
answered payload =
    handle_evaluate toy_oprf toy_crypto toy_files toy_json
      (record { migp_server = toy_server; kv = new_kv_store }) (main_run disk).1.disk (some payload)
      (fresh true)

abbrev posted : Outcome Writer → Option HttpResponse
posted (ok w) = some (delivered w)
posted _ = none

abbrev network : Network
network = record { is_url = λ url. true; post = λ url payload. posted (answered payload) }

in_store :
    other_entry
      ++ find
          (bucket_id_to_hex user_bucket)
          (store_before toy_oprf toy_crypto toy_files length toy_server server_flags around []
            (word ∷ [])
            pair_line
            user
            word
            pair_split
            disk).store
    ≡ contents_of others
unfolding find process_lines
in_store = refl

loaded_pair_reported_example :
    (summary : Summary) × (run_queries toy_oprf toy_crypto toy_json network
        (λ k. tt)
        clock
        flags
        toy_config.config
        (pair_line ∷ [])
      ≡ (ok summary, (user ++ breach_status_string in_breach ++ tag) ∷ []))
    × (summary.count ≡ 1)
loaded_pair_reported_example =
    loaded_pair_reported toy_oprf toy_oprf-IsOprf toy_oprf-IsOprfCoding toy_crypto
      toy_crypto-IsCrypto toy_json toy_json-IsJson toy_files toy_files-IsFileSystem length
      toy_config toy_server toy_client server_made client_made server_flags around disk read
      loads_file refl refl [] (word ∷ []) pair_line user word pair_split refl inserts_first
      user_bucket identified other_entry finds_other word_key key_derived (replicate 21 5) key_pad
      others others_foreign in_store (omega arith) (omega arith) refl network (λ k. tt) clock flags
      message context requested (omega arith, (omega arith, (omega arith, tt)))
      (request_text message) refl refl (λ w e. ap posted e)
      (user ++ breach_status_string in_breach ++ tag) refl
