-- ===== src/Program/Queried.antt =====
-- cmd/server/main.go and cmd/client/main.go one after the other, for one credential pair.
use migp.Base.{
  ℕ, ◌^◌, ◌<◌, ◌≡◌, refl, ap, sym, ◌∙◌, true, false, Bytes, bytes_eq, codes, All, IsByte, List, [],
  ◌∷◌, ◌++◌, some, length, if◌then◌else◌,
}
use mathlib.Core.Path.{subst}
use migp.Base.Outcome.{ok, ok-injective}
use migp.Protocol.Common.{bucket_id_to_hex, in_breach, breach_status_string}
use migp.Protocol.Libraries.{Crypto, IsCrypto, Oprf, IsOprf, IsOprfCoding}
use migp.Protocol.Json.{Json, IsJson}
use migp.Protocol.Encryptor.{derive_pad, derive_pad_header_salt}
use migp.Protocol.Server.{
  ClientRequest, ServerConfig, Server, new_server, derive_bucket_entry_key, server_bucket_id,
}
use migp.Protocol.Client.{Client, ClientRequestContext, new_client, request}
use migp.Protocol.Client.Find.{Stored, AreForeign, contents_of}
use migp.Protocol.Query.{Network, Readings, query}
use migp.Store.{new_kv_store, find, get}
use migp.Store.Files.{FileSystem, IsFileSystem}
use migp.Service.Process.{split_fields, process_lines-total}
use migp.Service.Writer.{Writer, fresh}
use migp.Service.Http.{handle_evaluate}
use migp.Service.Online.{delivered}
use migp.Service.System.Grows.{new_kv_store-IsSound}
use migp.Service.System.Served.{inserted_pair_queried}
use migp.Program.Client as Client
use migp.Program.Client.{
  averages, no_totals, answer_to, Summary, summary, add_answer, printed, add_answer, query_lines,
  run_queries,
}
use migp.Program.Server as Server
use migp.Program.Server.{load, loaded, main_config, server_main}
use migp.Program.Server.Main.{start, server_main-LoadedBy}
use migp.Program.Server.Found.{store_before, InsertsPair, load-Kept}

module _ (o : Oprf) (oprf_lawful : IsOprf o) (coding : IsOprfCoding o) (c : Crypto)
    (lawful : IsCrypto c) (json : Json) (json_lawful : IsJson json) (fs : FileSystem)
    (fs_lawful : IsFileSystem fs) (sum32 : Bytes → ℕ) (cfg : ServerConfig o) (s : Server o)
    (client : Client o) (server_made : new_server o cfg ≡ ok s)
    (client_made : new_client o cfg.config ≡ ok client) where
  module _ (flags : Server.Flags) (around : Server.Surroundings o) (disk : fs.State)
      (read : main_config o json flags around ≡ ok cfg)
      (ended : (server_main o c fs sum32 json flags around disk).0 ≡ ok loaded) where
    abbrev left : fs.State
    left = (server_main o c fs sum32 json flags around disk).1.disk

    -- The run has loaded its input with this server.
    loads_left :
        ((load o c fs sum32 s flags around (start o c fs sum32 disk)).0 ≡ ok tt)
        × ((load o c fs sum32 s flags around (start o c fs sum32 disk)).1.disk ≡ left)
    loads_left =
        let (cfg', s', by) = server_main-LoadedBy o c fs sum32 json flags around disk ended in
        let same_cfg : cfg' ≡ cfg = ok-injective (sym by.read ∙ read) in
        let same : s' ≡ s = ok-injective (sym by.made ∙ ap (new_server o) same_cfg ∙ server_made) in
        subst
          (λ t.
            ((load o c fs sum32 t flags around (start o c fs sum32 disk)).0 ≡ ok tt)
            × ((load o c fs sum32 t flags around (start o c fs sum32 disk)).1.disk ≡ left))
          same (by.done, ap (λ y. y.disk) (sym by.left))

    module _ (no_directory : bytes_eq flags.input_dirname [] ≡ true)
        (file : bytes_eq flags.input_filename [] ≡ false) (earlier later : List Bytes)
        (line username password : Bytes) (pair : split_fields line ≡ some (username, password))
        (lines : around.lines_of flags.input_filename ≡ some (earlier ++ line ∷ later))
        (inserts : InsertsPair o c fs sum32 s flags around earlier later line username password pair
          disk)
        (id : ℕ) (named : server_bucket_id o c s username ≡ ok id) (old : Bytes)
        (got : get fs disk (bucket_id_to_hex id) ≡ ok old) (key : Bytes)
        (derives : derive_bucket_entry_key o c s username password ≡ ok key) (pad : Bytes)
        (derived : derive_pad c key derive_pad_header_salt 21 ≡ ok pad) (before : List Stored)
        (foreign : AreForeign c lawful key pad derived before)
        (holds : old
            ++ find
                (bucket_id_to_hex id)
                (store_before o c fs sum32 s flags around earlier later line username password pair
                  disk).store
          ≡ contents_of before)
        (fits : length flags.metadata < 2 ^ 32) (small : cfg.config.version < 2 ^ 16)
        (suite : cfg.config.oprf_suite ≡ o.default_suite) where
      module _ (network : Network) (coins : ℕ → o.Coins) (clock : ℕ → Readings)
          (client_flags : Client.Flags) (message : ClientRequest) (ctx : ClientRequestContext o)
          (requested : request o c client (coins 0) username password ≡ ok (message, ctx))
          (bytes : All IsByte message.blind_element) (payload : Bytes)
          (written : json.marshal_request message ≡ some payload)
          (is_url : network.is_url (client_flags.target_url ++ codes "/evaluate") ≡ true)
          (delivers : (w : Writer)
            → handle_evaluate o c fs json
                (record { migp_server = s; kv = new_kv_store })
                left
                (some payload)
                (fresh true)
              ≡ ok w
            → network.post (client_flags.target_url ++ codes "/evaluate") payload
              ≡ some (delivered w)) where
        query_finds :
            (query o c json network cfg.config
              (client_flags.target_url ++ codes "/evaluate")
              (coins 0)
              (clock 0)
              username
              password).finding
            ≡ ok (record { status = in_breach; metadata = flags.metadata })
        unfolding find
        query_finds =
            let (done, same) = loads_left in
            let kept =
              load-Kept o c fs sum32 s flags around earlier later line username password pair disk
                inserts no_directory file lines done in
            let sound =
              (process_lines-total o c sum32 s flags.metadata flags.num_variants
                flags.include_username_variant earlier
                (record { success_count = 0; failure_count = 0 }) new_kv_store
                new_kv_store-IsSound).1 in
            inserted_pair_queried o oprf_lawful coding c lawful json json_lawful fs fs_lawful sum32
              cfg s client server_made client_made (coins 0) username password message ctx requested
              small key derives pad derived before foreign flags.metadata fits flags.num_variants
              flags.include_username_variant
              (record {
                kv =
                    store_before o c fs sum32 s flags around earlier later line username password
                      pair disk;
                disk = disk;
              })
              _ sound id named old got holds inserts kept.run refl suite bytes payload written
              network (client_flags.target_url ++ codes "/evaluate") is_url
              (subst
                (λ d.
                  (w : Writer)
                  → handle_evaluate o c fs json (record { migp_server = s; kv = new_kv_store }) d
                      (some payload) (fresh true)
                    ≡ ok w
                  → network.post (client_flags.target_url ++ codes "/evaluate") payload
                    ≡ some (delivered w))
                (sym (kept.same_files ∙ same)) delivers)
              (clock 0)

        -- The server program ends after loading a file with a line that holds a credential pair, whose
        -- `insert` succeeds, into a bucket that until then holds only entries that are foreign to the
        -- pair's key. A server that is then started on the same configuration, of the default suite and
        -- with a version below 2 ^ 16, answers over a network that delivers. Then the client program,
        -- with this configuration and this line as its input, prints one text for its query, that of
        -- `InBreach` and the metadata of the load, and ends with the averages of one query, if the
        -- metadata has less than 2 ^ 32 bytes.
        pub loaded_pair_reported :
            (text : Bytes)
            → json.marshal_result username
                (if client_flags.show_password then password else [])
                (breach_status_string in_breach)
                flags.metadata
              ≡ some text
            → (summary : Summary) × (run_queries o c json network coins clock client_flags
                  cfg.config
                  (line ∷ [])
                ≡ (ok summary, text ∷ []))
              × (summary.count ≡ 1)
        unfolding run_queries query_lines summary add_answer
        loaded_pair_reported text prints = (
          averages (
              add_answer no_totals (
                answer_to o c json network coins clock client_flags cfg.config 0 username
                  password)),
          rw (pair, query_finds, prints, query_lines) refl,
          refl,
        )
