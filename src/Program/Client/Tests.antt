-- ===== src/Program/Client/Tests.antt =====
-- Tests of cmd/client/main.go on concrete inputs, with the parties of Protocol/Exchange/Tests.
use migp.Base.{
  ℕ, ◌≡◌, refl, true, false, Bytes, codes, [], ◌∷◌, ◌++◌, ◌<◌, none, some, length, make, copy_at,
}
use migp.Base.Int.{pos, ◌+ℤ◌}
use migp.Base.Utf8.{rest_width}
use migp.Base.Outcome.{ok, panic}
use migp.Protocol.Common.{
  serialize_username_password, bucket_hash_to_id, hex_encode, bucket_id_to_hex,
}
use migp.Protocol.Encryptor.{new_bucket_encryptor}
use migp.Protocol.Hasher.{
  new_bucket_hasher, new_slow_hasher, bucket_hash_input, bucket_hash, slow_hash,
}
use migp.Protocol.Server.{unmarshal_binary}
use migp.Protocol.Client.{new_client, client_bucket_id, request, finalize, scan_bucket}
use migp.Protocol.Query.{Network, Readings, durations, query_response, query_answer, query}
use migp.Protocol.Toy.{toy_crypto, toy_oprf, toy_config}
use migp.Protocol.Toy.Texts.{toy_json, toy_json-IsJson}
use migp.Protocol.Exchange.Tests.{toy_server, server_made, user, word}
use migp.Store.{new_kv_store}
use migp.Store.Toy.{toy_files}
use migp.Service.Process.{split_fields}
use migp.Program.Client.{
  Flags, Surroundings, client_config, Summary, add_answer, summary, query_lines, run_queries,
}
use migp.Program.Client.Output.{
  pair_count, pairs_of, AreRedacted, run_queries-eq-ok, run_queries_panics, run_queries-AreRedacted,
}
use migp.Service.Writer.{fresh}
use migp.Service.Http.{handle_config}
use migp.Service.Online.{delivered}
use migp.Program.Client.Served.{client_config_served}

abbrev pub pair_line : Bytes
pair_line = user ++ b':' ∷ word

-- A server that has nothing in the bucket.
abbrev empty_reply : Bytes
empty_reply = 0 ∷ 0 ∷ 0 ∷ 1 ∷ 5 ∷ 0 ∷ 0 ∷ []

abbrev empty_network : Network
empty_network = record {
  is_url = λ url. true;
  post = λ url payload. some (record { status_code = 200; body = some empty_reply });
}

abbrev pub clock : ℕ → Readings
clock k = record {
  started = 0;
  prepared = 1;
  called = 1;
  answered = 7;
  finalizing = 7;
  finalized = 9;
}

abbrev pub flags : Flags
flags = record {
  config_file = [];
  dump_config = false;
  show_password = false;
  input_filename = codes "-";
  target_url = codes "http://localhost";
}

abbrev one_summary : Summary
one_summary = record {
  count = 1;
  query_prep = pos 1;
  api_call = pos 6;
  finalize = pos 2;
  total = pos 9;
  bytes = 7;
}

ends_with_averages :
    (run_queries toy_oprf toy_crypto toy_json empty_network
      (λ k. tt)
      clock
      flags
      toy_config.config
      (pair_line ∷ word ∷ [])).0
    ≡ ok one_summary
unfolding run_queries query_lines summary add_answer split_fields query query_response query_answer
    durations ◌+ℤ◌ new_client new_bucket_hasher new_slow_hasher new_bucket_encryptor request
    client_bucket_id bucket_hash bucket_hash_to_id bucket_hash_input serialize_username_password
    slow_hash make copy_at unmarshal_binary finalize bucket_id_to_hex hex_encode rest_width
    scan_bucket
ends_with_averages = refl

-- The surroundings of a client, with a server behind the network.
abbrev surroundings : Surroundings
surroundings = record {
  read_file = λ path. none;
  http_get = λ url. some (
      delivered (
        handle_config toy_oprf toy_crypto toy_files toy_json
          (record { migp_server = toy_server; kv = new_kv_store }) (fresh true)));
  lines_of = λ path. some (pair_line ∷ []);
}

client_config_served_example :
    client_config toy_oprf toy_crypto toy_json empty_network flags surroundings
    ≡ ok toy_config.config
client_config_served_example =
    client_config_served toy_oprf toy_crypto toy_files toy_json toy_json-IsJson empty_network
      toy_config toy_server new_kv_store server_made (1 ∷ 0 ∷ 20 ∷ 1 ∷ 0 ∷ 1 ∷ 3 ∷ []) refl flags
      surroundings refl refl

run_queries-eq-ok_example :
    (0 < pair_count (pair_line ∷ word ∷ []))
    × (1 ≡ pair_count (pair_line ∷ word ∷ []))
    × (length
          (run_queries toy_oprf toy_crypto toy_json empty_network
            (λ k. tt)
            clock
            flags
            toy_config.config
            (pair_line ∷ word ∷ [])).1
        ≡ pair_count (pair_line ∷ word ∷ []))
run_queries-eq-ok_example =
    run_queries-eq-ok toy_oprf toy_crypto toy_json empty_network (λ k. tt) clock flags
      toy_config.config (pair_line ∷ word ∷ []) one_summary ends_with_averages

no_pair : pair_count (word ∷ []) ≡ 0
unfolding split_fields
no_pair = refl

run_queries_panics_example :
    run_queries toy_oprf toy_crypto toy_json empty_network
      (λ k. tt)
      clock
      flags
      toy_config.config
      (word ∷ [])
    ≡ (panic, [])
run_queries_panics_example =
    run_queries_panics toy_oprf toy_crypto toy_json empty_network (λ k. tt) clock flags
      toy_config.config (word ∷ []) no_pair

run_queries-AreRedacted_example :
    AreRedacted toy_oprf toy_crypto toy_json empty_network
      (λ k. tt)
      clock
      flags
      toy_config.config
      0
      (pairs_of (pair_line ∷ word ∷ []))
      (run_queries toy_oprf toy_crypto toy_json empty_network
        (λ k. tt)
        clock
        flags
        toy_config.config
        (pair_line ∷ word ∷ [])).1
run_queries-AreRedacted_example =
    run_queries-AreRedacted toy_oprf toy_crypto toy_json empty_network (λ k. tt) clock flags
      toy_config.config (pair_line ∷ word ∷ []) refl
