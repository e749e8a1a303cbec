-- ===== src/Program/Server/Tests.antt =====
-- Tests of cmd/server/main.go on concrete inputs, with the parties of Protocol/Exchange/Tests.
use migp.Base.{
  ◌≡◌, refl, false, Bytes, codes, List, [], ◌∷◌, ◌<◌, ◌≤◌, ◌+◌, ◌*◌, ◌/◌, none, some, length, make,
  copy_at, map,
}
use migp.Base.Int.{pos}
use migp.Base.Utf8.{rest_width}
use migp.Base.Outcome.{Outcome, ok}
use migp.Protocol.Common.{
  is_valid, serialize_username_password, bucket_hash_to_id, hex_encode, bucket_id_to_hex,
}
use migp.Protocol.Encryptor.{new_bucket_encryptor, derive_pad, encrypt, xor_bytes, xor_loop}
use migp.Protocol.Hasher.{
  new_bucket_hasher, new_slow_hasher, bucket_hash_input, bucket_hash, slow_hash,
}
use migp.Protocol.Server.{
  ServerConfig, Server, new_server, derive_bucket_entry_key, server_bucket_id, encrypt_bucket_entry,
}
use migp.Protocol.ServerConfig.{unmarshal_json}
use migp.Protocol.Client.Find.{contents_of}
use migp.Protocol.Toy.{toy_crypto, toy_crypto-IsCrypto, toy_oprf}
use migp.Protocol.Toy.Texts.{toy_json}
use migp.Protocol.Exchange.Tests.{word, tag, others, others_foreign}
use migp.Store.{
  assign, find, append, joined, slashed, bucket_dir, load_bucket, write_bucket, behind_mkdir,
  save_in, save_bucket, save_all, save_credentials,
}
use migp.Store.Toy.{toy_files, toy_files-IsFileSystem}
use migp.Mutator.Case.{change_cap}
use migp.Mutator.Edit.{delete_portion, insert as insert_text}
use migp.Mutator.Substitute.{substitute}
use migp.Mutator.Table.{das_rules}
use migp.Mutator.Mutate.{apply_rule, keep_new, mutate_loop, mutate}
use migp.Service.{
  new_demo_server, insert, insert_entry, insert_variants, insert_username, insert_rest,
}
use migp.Service.Process.{split_fields, process_lines}
use migp.Program.Buckets.{Statistics, sum, statistics}
use migp.Service.System.{System}
use migp.Program.Buckets.Counts.{entry_count, metadata_bytes, statistics_count}
use migp.Program.Server as ServerMain
use migp.Program.Server.{
  load, load_directory, process_credentials, save, run_server, main_config, server_main,
}
use migp.Program.Server.Input.{Loads}
use migp.Program.Server.Main.{server_main-Loads}
use migp.Program.Client.Tests.{pair_line}

-- One bucket with one entry of 25 bytes; the square root is not looked at.
abbrev one_bucket : Statistics
one_bucket = record { num_of_buckets = 1; num_cred = 1; avg = 1; std = 0 }

counts_one : statistics (λ m n. m / n) (map contents_of (others ∷ [])) ≡ ok one_bucket
unfolding statistics
counts_one = refl

statistics_count_example :
    (1 ≡ entry_count (others ∷ []) + sum (map metadata_bytes (others ∷ [])) / 25)
    × (1 * 1 ≤ 1)
    × (1 < 1 * 1 + 1)
    × (1 ≡ length (others ∷ []))
statistics_count_example =
    statistics_count toy_crypto toy_crypto-IsCrypto (λ m n. m / n) (others ∷ []) one_bucket
      ((others_foreign.0.0, tt), tt) counts_one

abbrev pub server_flags : ServerMain.Flags
server_flags = record {
  config_file = codes "config.json";
  dump_config = false;
  start = false;
  test = false;
  input_dirname = [];
  input_filename = codes "-";
  metadata = tag;
  num_variants = pos 0;
  include_username_variant = false;
}

-- The text of `toy_config`, and an input with one pair and a line without a colon.
abbrev pub around : ServerMain.Surroundings toy_oprf
around = record {
  read_file = λ path. some (1 ∷ 0 ∷ 20 ∷ 1 ∷ 0 ∷ 1 ∷ 3 ∷ 5 ∷ []);
  lines_of = λ path. some (pair_line ∷ word ∷ []);
  walk = λ path. [];
  generated_key = none;
  root_of_ratio = λ m n. m / n;
}

abbrev pub main_run : List (Bytes × Bytes) → Outcome ServerMain.Ending × System toy_files
main_run = server_main toy_oprf toy_crypto toy_files length toy_json server_flags around

loads : (main_run []).0 ≡ ok ServerMain.loaded
unfolding server_main main_config run_server load process_credentials save process_lines
    split_fields unmarshal_json new_demo_server new_server new_bucket_hasher new_slow_hasher
    new_bucket_encryptor insert insert_entry insert_rest insert_variants insert_username append
    assign find server_bucket_id bucket_hash bucket_hash_to_id bucket_hash_input bucket_id_to_hex
    hex_encode encrypt_bucket_entry is_valid derive_bucket_entry_key serialize_username_password
    slow_hash encrypt derive_pad xor_bytes xor_loop make copy_at mutate mutate_loop keep_new
    apply_rule change_cap delete_portion insert_text substitute das_rules save_credentials save_all
    save_bucket save_in behind_mkdir write_bucket load_bucket bucket_dir joined slashed rest_width
loads = refl

server_main-Loads_example :
    (cfg : ServerConfig toy_oprf) × (s : Server toy_oprf) × (main_config toy_oprf toy_json
        server_flags around
      ≡ ok cfg)
    × (new_server toy_oprf cfg ≡ ok s)
    × Loads toy_oprf toy_crypto length s server_flags around toy_files toy_files-IsFileSystem []
        (main_run []).1.disk
server_main-Loads_example =
    server_main-Loads toy_oprf toy_crypto toy_files length toy_json server_flags around []
      toy_files-IsFileSystem loads
