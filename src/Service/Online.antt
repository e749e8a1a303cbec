-- ===== src/Service/Online.antt =====
-- `Query` of pkg/migp/client.go against `handleEvaluate` of cmd/server/server.go.
use migp.Base.{
  append-nil, Bool, ◌++◌, ℕ, ◌^◌, ◌<◌, List, ◌≡◌, refl, ap, sym, ◌∙◌, true, Bytes, All, IsByte, [],
  ◌∷◌, none, some, arith,
}
use mathlib.Core.Path.{subst}
use migp.Base.Utf8.{IsAscii}
use migp.Base.Outcome.{ok}
use migp.Protocol.Common.{oprf_info, not_in_breach, metadata_breached_password, bucket_id_to_hex}
use migp.Protocol.Libraries.{Crypto, IsCrypto, Oprf, IsOprf, IsOprfCoding}
use migp.Protocol.Encryptor.{derive_pad, derive_pad_header_salt}
use migp.Protocol.Json.{Json, IsJson, IsWire}
use migp.Protocol.Server.{
  ClientRequest, ServerResponse, ServerConfig, Server, new_server, handle_request, marshal_binary,
  derive_bucket_entry_key, server_bucket_id, encrypt_bucket_entry,
}
use migp.Protocol.Client.{Client, ClientRequestContext, new_client, request, finalize}
use migp.Protocol.Client.Find.{Stored, AreForeign, contents_of}
use migp.Protocol.Exchange.Correct.{request-server_bucket_id, exchange_misses}
use migp.Protocol.Exchange.Parties.{new_server-IsServerOf, request-IsRequestOf}
use migp.Protocol.Query.{HttpResponse, Network, Readings, query}
use migp.Protocol.Query.Answers.{handle_request-Answers, query-finalize}
use migp.Store.{KvStore, find, get}
use migp.Service.Found.{insert-Inserted}
use migp.Base.Int.{ℤ}
use migp.Store.Files.{FileSystem}
use migp.Store.Paths.{bucket_id_to_hex-IsId}
use migp.Service.{DemoServer, insert}
use migp.Service.Writer.{Writer, fresh}
use migp.Service.Http.{handle_evaluate}
use migp.Service.Http.Replies.{replied, octets, handle_evaluate_lem}

-- What the client reads of a reply: a handler that sends no status answers 200.
abbrev pub delivered : Writer → HttpResponse
delivered w = record {
  status_code = elim w.status [ none ↦ 200 | some code ↦ code ];
  body = some w.body;
}

module _ (o : Oprf) (coding : IsOprfCoding o) (c : Crypto) (json : Json) (json_lawful : IsJson json)
    (fs : FileSystem) where
  module _ (cfg : ServerConfig o) (s : Server o) (client : Client o)
      (server_made : new_server o cfg ≡ ok s) (client_made : new_client o cfg.config ≡ ok client)
      (suite : cfg.config.oprf_suite ≡ o.default_suite) (coins : o.Coins)
      (username password : Bytes) (message : ClientRequest) (ctx : ClientRequestContext o)
      (requested : request o c client coins username password ≡ ok (message, ctx))
      (bytes : All IsByte message.blind_element) (payload : Bytes)
      (written : json.marshal_request message ≡ some payload) where
    request-IsWire : IsWire message
    request-IsWire =
        let rq = request-IsRequestOf o c client coins username password message ctx requested in
        record {
          version = omega (arith, rq.version);
          name = subst (All IsAscii) (sym rq.names) (bucket_id_to_hex-IsId rq.bucket_id).1;
          element = bytes;
        }

    module _ (kv : KvStore) (disk : fs.State) (network : Network) (url : Bytes)
        (is_url : network.is_url url ≡ true)
        (delivers : (w : Writer)
          → handle_evaluate o c fs json
              (record { migp_server = s; kv = kv })
              disk
              (some payload)
              (fresh true)
            ≡ ok w
          → network.post url payload ≡ some (delivered w)) where
      -- A request that the server can handle comes back to `Query` as it was handled.
      pub query_handled :
          (readings : Readings) (response : ServerResponse)
          → handle_request o c s message (get fs disk) ≡ ok response
          → (query o c json network cfg.config url coins readings username password).finding
            ≡ finalize o c ctx response
      query_handled readings response handled =
          let wire = request-IsWire in
          let d : DemoServer o = record { migp_server = s; kv = kv } in
          let answers = handle_request-Answers o c s message (get fs disk) response handled in
          let read = json_lawful.request_read message payload wire written in
          let replies : handle_evaluate o c fs json d disk (some payload) (fresh true)
              ≡ ok (replied 200 octets (marshal_binary response)) =
            (handle_evaluate_lem o c fs json d disk payload).1 ∙ rw (read, handled) refl in
          let sv = new_server-IsServerOf o c cfg s server_made in
          let size =
            coding.element_size cfg.config.oprf_suite cfg.private_key s.oprf_server
              (message.blind_element ∷ []) answers.others oprf_info response.evaluated_element
              sv.oprf answers.evaluated in
          query-finalize o c json network cfg.config url coins readings username password payload
            client message ctx response client_made requested written is_url (delivers _ replies)
            (omega (arith, answers.version, wire.version)) (ap o.element_length (sym suite) ∙ size)

      -- The answer depends on the bucket's file alone.
      pub foreign_file_queried :
          (oprf_lawful : IsOprf o) (lawful : IsCrypto c)
          → cfg.config.version < 2 ^ 16
          → (key : Bytes) → derive_bucket_entry_key o c s username password ≡ ok key
          → (pad : Bytes) (derived : derive_pad c key derive_pad_header_salt 21 ≡ ok pad)
            (others : List Stored)
          → AreForeign c lawful key pad derived others
          → (id : ℕ) → server_bucket_id o c s username ≡ ok id
          → get fs disk (bucket_id_to_hex id) ≡ ok (contents_of others)
          → (readings : Readings)
          → (query o c json network cfg.config url coins readings username password).finding
            ≡ ok (record { status = not_in_breach; metadata = [] })
      foreign_file_queried oprf_lawful lawful small key derives pad derived others foreign id named
            gets readings =
          let names =
            request-server_bucket_id o oprf_lawful c lawful cfg s client server_made client_made
              coins username password message ctx requested id named in
          let (response, handled, misses) =
            exchange_misses o oprf_lawful c lawful cfg s client server_made client_made coins
              username password message ctx requested small key derives (get fs disk)
              (contents_of others) (ap (get fs disk) names ∙ gets) pad derived others foreign
              refl in
          query_handled readings response handled ∙ misses

      -- A server, and a client that has its configuration, of the default suite and with a version below
      -- 2 ^ 16, over a network that delivers: if the bucket of the username holds, in the file and in
      -- memory together, only entries that are foreign to the key of a pair, and memory holds nothing
      -- of it, then the query of the pair ends with `NotInBreach`.
      pub foreign_pair_queried :
          (oprf_lawful : IsOprf o) (lawful : IsCrypto c)
          → cfg.config.version < 2 ^ 16
          → (key : Bytes) → derive_bucket_entry_key o c s username password ≡ ok key
          → (pad : Bytes) (derived : derive_pad c key derive_pad_header_salt 21 ≡ ok pad)
            (others : List Stored)
          → AreForeign c lawful key pad derived others
          → (id : ℕ) → server_bucket_id o c s username ≡ ok id
          → (old : Bytes) → get fs disk (bucket_id_to_hex id) ≡ ok old
          → old ++ find (bucket_id_to_hex id) kv.store ≡ contents_of others
          → find (bucket_id_to_hex id) kv.store ≡ []
          → (readings : Readings)
          → (query o c json network cfg.config url coins readings username password).finding
            ≡ ok (record { status = not_in_breach; metadata = [] })
      foreign_pair_queried oprf_lawful lawful small key derives pad derived others foreign id named
            old got holds flushed readings =
          let whole : old ≡ contents_of others =
            sym (append-nil old) ∙ ap (λ t. old ++ t) (sym flushed) ∙ holds in
          foreign_file_queried oprf_lawful lawful small key derives pad derived others foreign id
            named (got ∙ ap ok whole) readings

      -- The same server and client, where the store is what a successful `insert` of the pair has left:
      -- memory holds the entry of the pair in the bucket of the username, and still, until a save, the
      -- query of the pair ends with `NotInBreach` if the bucket's file holds only foreign entries.
      pub unsaved_pair_missed :
          (oprf_lawful : IsOprf o) (lawful : IsCrypto c)
          → cfg.config.version < 2 ^ 16
          → (key : Bytes) → derive_bucket_entry_key o c s username password ≡ ok key
          → (pad : Bytes) (derived : derive_pad c key derive_pad_header_salt 21 ≡ ok pad)
            (others : List Stored)
          → AreForeign c lawful key pad derived others
          → (id : ℕ) → server_bucket_id o c s username ≡ ok id
          → get fs disk (bucket_id_to_hex id) ≡ ok (contents_of others)
          → (sum32 : Bytes → ℕ) (metadata : Bytes) (n : ℤ) (include : Bool) (before : KvStore)
          → (insert o c sum32 s username metadata password n include before).0 ≡ ok tt
          → kv ≡ (insert o c sum32 s username metadata password n include before).1
          → (readings : Readings)
          → ((ct : Bytes) × (rest : Bytes) × (encrypt_bucket_entry o c s username password
                  metadata_breached_password metadata
                ≡ ok ct)
              × (find (bucket_id_to_hex id) kv.store
                  ≡ find (bucket_id_to_hex id) before.store ++ (ct ++ rest)))
            × ((query o c json network cfg.config url coins readings username password).finding
                ≡ ok (record { status = not_in_breach; metadata = [] }))
      unsaved_pair_missed oprf_lawful lawful small key derives pad derived others foreign id named
            got sum32 metadata n include before done left readings =
          let i =
            insert-Inserted o c sum32 s username metadata password n include before id named done in
          (
            (
              i.ct,
              i.rest,
              i.encrypted,
              ap (λ k. find (bucket_id_to_hex id) k.store) left ∙ i.holds,
            ),
            foreign_file_queried oprf_lawful lawful small key derives pad derived others foreign id
                named got readings,
          )
