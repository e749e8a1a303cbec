-- ===== src/Service/Tests.antt =====
-- Tests of cmd/server/server.go on concrete inputs: the parties of Protocol/Exchange/Tests, and a file
-- that holds an entry of another user. The hash of a text is its length.
use migp.Base.{
  ◌≡◌, refl, true, Bytes, codes, List, [], ◌∷◌, ◌++◌, arith, length, replicate, make, copy_at,
}
use migp.Base.Utf8.{rest_width}
use migp.Base.Int.{pos}
use migp.Base.Outcome.{ok, ◌>>=◌}
use migp.Mutator.Case.{change_cap}
use migp.Mutator.Edit.{delete_portion, insert as insert_text}
use migp.Mutator.Substitute.{substitute}
use migp.Mutator.Table.{das_rules}
use migp.Mutator.Mutate.{apply_rule, keep_new, mutate_loop, mutate}
use migp.Protocol.Common.{
  is_valid, bucket_id_to_hex, hex_encode, in_breach, serialize_username_password, bucket_hash_to_id,
}
use migp.Protocol.Encryptor.{derive_pad, encrypt, xor_bytes, xor_loop}
use migp.Protocol.Hasher.{bucket_hash, bucket_hash_input, slow_hash}
use migp.Protocol.Server.{
  ServerResponse, derive_bucket_entry_key, server_bucket_id, encrypt_bucket_entry, handle_request,
}
use migp.Protocol.Client.{finalize}
use migp.Protocol.Client.Find.{contents_of}
use migp.Protocol.Toy.{toy_crypto, toy_crypto-IsCrypto, toy_oprf, toy_oprf-IsOprf, toy_config}
use migp.Protocol.Exchange.Tests.{
  user, word, toy_server, toy_client, server_made, client_made, word_key, user_bucket, identified,
  message, context, requested, key_derived, tag, entry, other_entry, others, others_foreign,
  key_pad,
}
use migp.Store.{
  new_kv_store, assign, find, append, get, joined, slashed, bucket_dir, load_bucket, write_bucket,
  behind_mkdir, save_in, save_bucket, save_all, save_credentials,
}
use migp.Store.Toy.{toy_files, toy_files-IsFileSystem}
use migp.Service.{insert, insert_entry, insert_variants, insert_username, insert_rest}
use migp.Service.Writes.{Grows}
use migp.Service.Insert.{pair_entries, insert_writes_entries}
use migp.Service.Entries.{failure, entries, inserted_bytes, insert_on_every_outcome}
use migp.Service.Invariant.{IsSound, insert-IsSound}
use migp.Service.Process.{Counts, process_lines, IsCounted, process_lines-total}
use migp.Service.System.Grows.{new_kv_store-IsSound}
use migp.Service.Found.{inserted_pair_found}

-- The pads of the entries are all 5: the entry of the pair, of its first mutation and of the username.
abbrev three_entries : Bytes
three_entries =
    entry
    ++ (replicate 20 5 ++ (7 ∷ 0 ∷ 0 ∷ 0 ∷ 2 ∷ 100 ∷ 109 ∷ []))
    ++ (replicate 20 5 ++ (6 ∷ 0 ∷ 0 ∷ 0 ∷ 2 ∷ 100 ∷ 109 ∷ []))

encrypts_three :
    pair_entries toy_oprf toy_crypto length toy_server user tag word (pos 1) true ≡ ok three_entries
unfolding encrypt_bucket_entry is_valid derive_bucket_entry_key serialize_username_password
    slow_hash encrypt derive_pad xor_bytes xor_loop make copy_at mutate mutate_loop keep_new
    apply_rule change_cap delete_portion insert_text substitute das_rules
encrypts_three = refl

insert_writes_entries_example :
    let r = insert toy_oprf toy_crypto length toy_server user tag word (pos 1) true new_kv_store in
    (r.0 ≡ ok tt) × Grows (bucket_id_to_hex user_bucket) three_entries new_kv_store r.1
insert_writes_entries_example =
    insert_writes_entries toy_oprf toy_crypto length toy_server user tag word (pos 1) true
      new_kv_store user_bucket three_entries identified encrypts_three

insert_on_every_outcome_example :
    let r = insert toy_oprf toy_crypto length toy_server user tag word (pos 1) true new_kv_store in
    (r.0 ≡ (
      server_bucket_id toy_oprf toy_crypto toy_server user >>= λ id.
      failure (entries toy_oprf toy_crypto length toy_server user tag word (pos 1) true)))
    × ((j : Bytes)
        → find j r.1.store
          ≡ find j new_kv_store.store
            ++ inserted_bytes toy_oprf toy_crypto length toy_server user tag word (pos 1) true j)
insert_on_every_outcome_example =
    insert_on_every_outcome toy_oprf toy_crypto length toy_server user tag word (pos 1) true
      new_kv_store

insert-IsSound_example :
    IsSound (insert toy_oprf toy_crypto length toy_server user tag word (pos 1) true new_kv_store).1
insert-IsSound_example =
    insert-IsSound toy_oprf toy_crypto length toy_server user tag word (pos 1) true new_kv_store
      new_kv_store-IsSound

-- The bucket's file holds the entry of another user.
abbrev pub disk : List (Bytes × Bytes)
disk = (codes "./store_test/0/0/0/1/1/1/1/00011111", other_entry) ∷ []

pub inserts :
    (insert toy_oprf toy_crypto length toy_server user tag word (pos 1) true new_kv_store).0 ≡ ok tt
inserts =
    (insert_writes_entries toy_oprf toy_crypto length toy_server user tag word (pos 1) true
      new_kv_store user_bucket three_entries identified encrypts_three).0

pub save_of_pair :
    (save_credentials toy_files
      (insert toy_oprf toy_crypto length toy_server user tag word (pos 1) true new_kv_store).1
      disk).0
    ≡ ok tt
unfolding insert insert_entry insert_rest insert_variants insert_username append assign find
    server_bucket_id bucket_hash bucket_hash_to_id bucket_hash_input bucket_id_to_hex hex_encode
    encrypt_bucket_entry is_valid derive_bucket_entry_key serialize_username_password slow_hash
    encrypt derive_pad xor_bytes xor_loop make copy_at mutate mutate_loop keep_new apply_rule
    change_cap delete_portion insert_text substitute das_rules save_credentials save_all save_bucket
    save_in behind_mkdir write_bucket load_bucket bucket_dir joined slashed rest_width
save_of_pair = refl

pub finds_other : get toy_files disk (bucket_id_to_hex user_bucket) ≡ ok other_entry
unfolding get load_bucket bucket_dir joined slashed rest_width bucket_id_to_hex hex_encode make
    copy_at
finds_other = refl

pub nothing_yet :
    other_entry ++ find (bucket_id_to_hex user_bucket) new_kv_store.store ≡ contents_of others
unfolding find
nothing_yet = refl

inserted_pair_found_example :
    let r = insert toy_oprf toy_crypto length toy_server user tag word (pos 1) true new_kv_store in
    let disk' = (save_credentials toy_files r.1 disk).1 in
    (response : ServerResponse) × (handle_request toy_oprf toy_crypto toy_server message
        (get toy_files disk')
      ≡ ok response)
    × (finalize toy_oprf toy_crypto context response
        ≡ ok (record { status = in_breach; metadata = tag }))
inserted_pair_found_example =
    inserted_pair_found toy_oprf toy_oprf-IsOprf toy_crypto toy_crypto-IsCrypto toy_files
      toy_files-IsFileSystem length toy_config toy_server toy_client server_made client_made tt user
      word message context requested (omega arith) word_key key_derived (replicate 21 5) key_pad
      others others_foreign tag (omega arith) (pos 1) true new_kv_store new_kv_store-IsSound disk
      user_bucket identified inserts save_of_pair other_entry finds_other nothing_yet

-- A pair, and a line without a colon.
abbrev two_lines : List Bytes
two_lines = (user ++ b':' ∷ word) ∷ word ∷ []

abbrev no_counts : Counts
no_counts = record { success_count = 0; failure_count = 0 }

process_lines-total_example :
    IsCounted toy_oprf toy_crypto length toy_server tag (pos 1) true no_counts 2 (
      process_lines toy_oprf toy_crypto length toy_server tag
        (pos 1)
        true
        two_lines
        no_counts
        new_kv_store)
process_lines-total_example =
    process_lines-total toy_oprf toy_crypto length toy_server tag (pos 1) true two_lines no_counts
      new_kv_store new_kv_store-IsSound
