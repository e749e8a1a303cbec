-- ===== src/Service/System/Tests.antt =====
-- Tests of a run of the demo server: the pair of Protocol/Exchange/Tests is inserted and saved, and
-- then queried over a network that runs `handleEvaluate`.
use migp.Base.{
  ◌≡◌, refl, ap, true, Bytes, [], Option, none, some, arith, length, codes, false, ◌++◌, replicate,
}
use migp.Base.Int.{pos}
use migp.Base.Outcome.{Outcome, ok}
use migp.Protocol.Common.{metadata_breached_password, not_in_breach, in_breach, bucket_id_to_hex}
use migp.Protocol.Server.{encrypt_bucket_entry, handle_request}
use migp.Protocol.Toy.{
  toy_crypto, toy_crypto-IsCrypto, toy_oprf, toy_oprf-IsOprf, toy_oprf-IsOprfCoding, toy_config,
}
use migp.Protocol.Toy.Texts.{request_text, toy_json, toy_json-IsJson}
use migp.Protocol.Query.{Network, HttpResponse, Readings, query}
use migp.Protocol.Exchange.Tests.{
  user, word, toy_server, toy_client, server_made, client_made, word_key, user_bucket, identified,
  message, context, requested, key_derived, tag, others, others_foreign, key_pad, other_entry,
}
use migp.Store.{new_kv_store, find, get}
use migp.Store.Paths.{bucket_id_to_hex-IsId}
use migp.Store.Toy.{toy_files, toy_files-IsFileSystem}
use migp.Service.Invariant.{IsSound, insert-IsSound}
use migp.Service.Tests.{disk, inserts, save_of_pair, finds_other, nothing_yet}
use migp.Service.Writer.{Writer, fresh, status_text, line_end}
use migp.Service.Http.{handle_evaluate}
use migp.Service.Http.Replies.{answer, replied, plain, handle_evaluate_lem}
use migp.Service.Online.{delivered, foreign_pair_queried, unsaved_pair_missed}
use migp.Service.System.{System, after_insert, after_save, Reach, here, next, saves}
use migp.Service.System.Grows.{Grown, Reach-Grown, new_kv_store-IsSound}
use migp.Service.System.Served.{inserted_pair_queried}

abbrev first : System toy_files
first = record { kv = new_kv_store; disk = disk }

abbrev with_pair : System toy_files
with_pair =
    after_insert toy_oprf toy_crypto toy_files length toy_server first user word tag (pos 1) true

abbrev flushed : System toy_files
flushed = after_save toy_oprf toy_crypto toy_files length toy_server with_pair

save_succeeds : Reach toy_oprf toy_crypto toy_files length toy_server with_pair flushed
save_succeeds = next here (saves with_pair save_of_pair)

with_pair-IsSound : IsSound with_pair.kv
with_pair-IsSound =
    insert-IsSound toy_oprf toy_crypto length toy_server user tag word (pos 1) true new_kv_store
      new_kv_store-IsSound

Reach-Grown_example :
    Grown toy_oprf toy_crypto toy_files toy_files-IsFileSystem length toy_server with_pair flushed
      (bucket_id_to_hex user_bucket)
Reach-Grown_example =
    Reach-Grown toy_oprf toy_crypto toy_files toy_files-IsFileSystem length toy_server
      (bucket_id_to_hex user_bucket) (bucket_id_to_hex-IsId user_bucket) with_pair-IsSound
      save_succeeds

-- A network with one server, which has run as above.
abbrev answered : Bytes → Outcome Writer
answered payload =
    handle_evaluate toy_oprf toy_crypto toy_files toy_json
      (record { migp_server = toy_server; kv = flushed.kv }) flushed.disk (some payload)
      (fresh true)

abbrev posted : Outcome Writer → Option HttpResponse
posted (ok w) = some (delivered w)
posted _ = none

abbrev toy_network : Network
toy_network = record { is_url = λ url. true; post = λ url payload. posted (answered payload) }

abbrev payload : Bytes
payload = request_text message

abbrev readings : Readings
readings = record {
  started = 0;
  prepared = 1;
  called = 1;
  answered = 7;
  finalizing = 7;
  finalized = 9;
}

nothing_left : find (bucket_id_to_hex user_bucket) new_kv_store.store ≡ []
unfolding find
nothing_left = refl

inserted_pair_queried_example :
    (query toy_oprf toy_crypto toy_json toy_network toy_config.config
      (codes "http://localhost")
      tt
      readings
      user
      word).finding
    ≡ ok (record { status = in_breach; metadata = tag })
inserted_pair_queried_example =
    inserted_pair_queried toy_oprf toy_oprf-IsOprf toy_oprf-IsOprfCoding toy_crypto
      toy_crypto-IsCrypto toy_json toy_json-IsJson toy_files toy_files-IsFileSystem length
      toy_config toy_server toy_client server_made client_made tt user word message context
      requested (omega arith) word_key key_derived (replicate 21 5) key_pad others others_foreign
      tag (omega arith) (pos 1) true first flushed new_kv_store-IsSound user_bucket identified
      other_entry finds_other nothing_yet inserts save_succeeds nothing_left refl
      (omega arith, (omega arith, (omega arith, tt))) payload refl toy_network
      (codes "http://localhost") refl (λ w e. ap posted e) readings

-- A network with a server on the first files.
abbrev first_answered : Bytes → Outcome Writer
first_answered payload =
    handle_evaluate toy_oprf toy_crypto toy_files toy_json
      (record { migp_server = toy_server; kv = new_kv_store }) disk (some payload) (fresh true)

abbrev first_network : Network
first_network = record {
  is_url = λ url. true;
  post = λ url payload. posted (first_answered payload);
}

foreign_pair_queried_example :
    (query toy_oprf toy_crypto toy_json first_network toy_config.config
      (codes "http://localhost")
      tt
      readings
      user
      word).finding
    ≡ ok (record { status = not_in_breach; metadata = [] })
foreign_pair_queried_example =
    foreign_pair_queried toy_oprf toy_oprf-IsOprfCoding toy_crypto toy_json toy_json-IsJson
      toy_files toy_config toy_server toy_client server_made client_made refl tt user word message
      context requested (omega arith, (omega arith, (omega arith, tt))) payload refl new_kv_store
      disk first_network (codes "http://localhost") refl (λ w e. ap posted e) toy_oprf-IsOprf
      toy_crypto-IsCrypto (omega arith) word_key key_derived (replicate 21 5) key_pad others
      others_foreign user_bucket identified other_entry finds_other nothing_yet nothing_left
      readings

-- The same server when the pair is in memory, and not yet saved.
abbrev unsaved_network : Network
unsaved_network = record {
  is_url = λ url. true;
  post = λ url payload. posted (
      handle_evaluate toy_oprf toy_crypto toy_files toy_json
        (record { migp_server = toy_server; kv = with_pair.kv }) disk (some payload) (fresh true));
}

unsaved_pair_missed_example :
    ((ct : Bytes) × (rest : Bytes) × (encrypt_bucket_entry toy_oprf toy_crypto toy_server user word
          metadata_breached_password tag
        ≡ ok ct)
      × (find (bucket_id_to_hex user_bucket) with_pair.kv.store
          ≡ find (bucket_id_to_hex user_bucket) new_kv_store.store ++ (ct ++ rest)))
    × ((query toy_oprf toy_crypto toy_json unsaved_network toy_config.config
          (codes "http://localhost")
          tt
          readings
          user
          word).finding
        ≡ ok (record { status = not_in_breach; metadata = [] }))
unsaved_pair_missed_example =
    unsaved_pair_missed toy_oprf toy_oprf-IsOprfCoding toy_crypto toy_json toy_json-IsJson toy_files
      toy_config toy_server toy_client server_made client_made refl tt user word message context
      requested (omega arith, (omega arith, (omega arith, tt))) payload refl with_pair.kv disk
      unsaved_network (codes "http://localhost") refl (λ w e. ap posted e) toy_oprf-IsOprf
      toy_crypto-IsCrypto (omega arith) word_key key_derived (replicate 21 5) key_pad others
      others_foreign user_bucket identified finds_other length tag (pos 1) true new_kv_store inserts
      refl readings

handle_evaluate_lem_example :
    (handle_evaluate toy_oprf toy_crypto toy_files toy_json
        (record { migp_server = toy_server; kv = new_kv_store })
        disk
        none
        (fresh true)
      ≡ ok (replied 400 plain (status_text 400 ++ line_end)))
    × (handle_evaluate toy_oprf toy_crypto toy_files toy_json
          (record { migp_server = toy_server; kv = new_kv_store })
          disk
          (some [])
          (fresh true)
        ≡ answer toy_oprf toy_crypto toy_files toy_json
            (record { migp_server = toy_server; kv = new_kv_store })
            disk
            false
            (handle_request toy_oprf toy_crypto toy_server
              (record { version = 0; bucket_id = []; blind_element = [] })
              (get toy_files disk)))
handle_evaluate_lem_example =
    handle_evaluate_lem toy_oprf toy_crypto toy_files toy_json
      (record { migp_server = toy_server; kv = new_kv_store }) disk []
