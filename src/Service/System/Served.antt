-- ===== src/Service/System/Served.antt =====
-- A pair that was inserted, as clients see it at every later time.
use migp.Base.{
  ℕ, ◌^◌, ◌<◌, ◌≡◌, ap, ap₂, sym, ◌∙◌, Bool, true, Bytes, All, IsByte, List, [], ◌++◌, some, length,
  append_assoc, append-nil,
}
use migp.Base.Int.{ℤ}
use migp.Base.Outcome.{ok, ok-injective}
use migp.Protocol.Common.{bucket_id_to_hex, in_breach, to_breach_status, metadata_breached_password}
use migp.Protocol.Libraries.{Crypto, IsCrypto, Oprf, IsOprf, IsOprfCoding}
use migp.Protocol.Json.{Json, IsJson}
use migp.Protocol.Encryptor.{derive_pad, derive_pad_header_salt}
use migp.Protocol.Server.{
  ClientRequest, ServerResponse, ServerConfig, Server, new_server, derive_bucket_entry_key,
  server_bucket_id, handle_request,
}
use migp.Protocol.Client.{Client, ClientRequestContext, new_client, request, finalize}
use migp.Protocol.Client.Find.{Stored, AreForeign, contents_of}
use migp.Protocol.Exchange.Correct.{request-server_bucket_id, exchange_finds}
use migp.Protocol.Query.{Network, Readings, query}
use migp.Store.{find, get}
use migp.Store.Files.{FileSystem, IsFileSystem}
use migp.Store.Paths.{bucket_id_to_hex-IsId}
use migp.Store.Save.{saved, get-saved}
use migp.Service.{insert}
use migp.Service.Invariant.{IsSound, insert-IsSound}
use migp.Service.Found.{insert-Inserted}
use migp.Service.Writer.{Writer, fresh}
use migp.Service.Http.{handle_evaluate}
use migp.Service.Online.{delivered, query_handled}
use migp.Service.System.{System, after_insert, Reach}
use migp.Service.System.Grows.{bucket, Reach-Grown}

module _ (o : Oprf) (c : Crypto) (fs : FileSystem) (fs_lawful : IsFileSystem fs) (sum32 : Bytes → ℕ)
    (s : Server o) where
  -- What `Get` returns once the memory is empty: what the bucket held, and more.
  served :
      (y z : System fs) (id : ℕ) (held : Bytes)
      → IsSound y.kv
      → Reach o c fs sum32 s y z
      → bucket o c fs fs_lawful sum32 s y (bucket_id_to_hex id) ≡ held
      → find (bucket_id_to_hex id) z.kv.store ≡ []
      → (more : Bytes) × (get fs z.disk (bucket_id_to_hex id) ≡ ok (held ++ more))
  unfolding bucket
  served y z id held sound run holds flushed =
      let hex = bucket_id_to_hex id in
      let g = Reach-Grown o c fs fs_lawful sum32 s hex (bucket_id_to_hex-IsId id) sound run in
      (
        g.more,
        get-saved fs fs_lawful z.disk hex (bucket_id_to_hex-IsId id)
            ∙ ap ok (
                sym (append-nil (saved fs fs_lawful z.disk hex))
                ∙ ap (λ t. saved fs fs_lawful z.disk hex ++ t) (sym flushed)
                ∙ g.longer
                ∙ ap (λ t. t ++ g.more) holds),
      )

module _ (o : Oprf) (oprf_lawful : IsOprf o) (coding : IsOprfCoding o) (c : Crypto)
    (lawful : IsCrypto c) (json : Json) (json_lawful : IsJson json) (fs : FileSystem)
    (fs_lawful : IsFileSystem fs) (sum32 : Bytes → ℕ) where
  module _ (cfg : ServerConfig o) (s : Server o) (client : Client o)
      (server_made : new_server o cfg ≡ ok s) (client_made : new_client o cfg.config ≡ ok client)
      (coins : o.Coins) (username password : Bytes) (message : ClientRequest)
      (ctx : ClientRequestContext o)
      (requested : request o c client coins username password ≡ ok (message, ctx))
      (small : cfg.config.version < 2 ^ 16) (key : Bytes)
      (derives : derive_bucket_entry_key o c s username password ≡ ok key) (pad : Bytes)
      (derived : derive_pad c key derive_pad_header_salt 21 ≡ ok pad) (before : List Stored)
      (foreign : AreForeign c lawful key pad derived before) (metadata : Bytes)
      (fits : length metadata < 2 ^ 32) (n : ℤ) (include : Bool) (y z : System fs)
      (sound : IsSound y.kv) (id : ℕ) (named : server_bucket_id o c s username ≡ ok id)
      (old : Bytes) (got : get fs y.disk (bucket_id_to_hex id) ≡ ok old)
      (holds : old ++ find (bucket_id_to_hex id) y.kv.store ≡ contents_of before)
      (done : (insert o c sum32 s username metadata password n include y.kv).0 ≡ ok tt)
      (run : Reach o c fs sum32 s
        (after_insert o c fs sum32 s y username password metadata n include)
        z)
      (flushed : find (bucket_id_to_hex id) z.kv.store ≡ []) where
    stays_found :
        (response : ServerResponse) × (handle_request o c s message (get fs z.disk) ≡ ok response)
        × (finalize o c ctx response ≡ ok (record { status = in_breach; metadata = metadata }))
    unfolding to_breach_status bucket
    stays_found =
        let hex = bucket_id_to_hex id in
        let x = after_insert o c fs sum32 s y username password metadata n include in
        let in_store =
          insert-Inserted o c sum32 s username metadata password n include y.kv id named done in
        let file : old ≡ saved fs fs_lawful y.disk hex =
          ok-injective (sym got ∙ get-saved fs fs_lawful y.disk hex (bucket_id_to_hex-IsId id)) in
        let held : bucket o c fs fs_lawful sum32 s x hex
            ≡ contents_of before ++ (in_store.ct ++ in_store.rest) =
          ap₂ (λ a b. a ++ b) (sym file) in_store.holds
          ∙ sym (append_assoc old (find hex y.kv.store) (in_store.ct ++ in_store.rest))
          ∙ ap (λ t. t ++ (in_store.ct ++ in_store.rest)) holds in
        let after = insert-IsSound o c sum32 s username metadata password n include y.kv sound in
        let (more, gets) = served o c fs fs_lawful sum32 s x z id _ after run held flushed in
        let names =
          request-server_bucket_id o oprf_lawful c lawful cfg s client server_made client_made coins
            username password message ctx requested id named in
        exchange_finds o oprf_lawful c lawful cfg s client server_made client_made coins username
          password message ctx requested small key derives (get fs z.disk)
          ((contents_of before ++ (in_store.ct ++ in_store.rest)) ++ more)
          (ap (get fs z.disk) names ∙ gets) pad derived before foreign metadata_breached_password
          metadata in_store.ct (in_store.rest ++ more) in_store.encrypted fits
          (append_assoc (contents_of before) (in_store.ct ++ in_store.rest) more
            ∙ ap (λ t. contents_of before ++ t) (append_assoc in_store.ct in_store.rest more))

    -- A server, and a client that calls `Query` with the server's own configuration, of the default
    -- suite and with a version below 2 ^ 16, over a network that delivers: if `insert` of a credential
    -- pair succeeds in a sound system whose bucket for the username holds only entries that are foreign
    -- to the key of the pair, then after any further insertions, which may fail, and saves, at every
    -- time at which memory holds nothing for that bucket, the query of the pair ends with `InBreach`
    -- and the metadata, if that has less than 2 ^ 32 bytes.
    pub inserted_pair_queried :
        (suite : cfg.config.oprf_suite ≡ o.default_suite) (bytes : All IsByte message.blind_element)
        (payload : Bytes) (written : json.marshal_request message ≡ some payload)
        (network : Network) (url : Bytes) (is_url : network.is_url url ≡ true)
        (delivers : (w : Writer)
          → handle_evaluate o c fs json
              (record { migp_server = s; kv = z.kv })
              z.disk
              (some payload)
              (fresh true)
            ≡ ok w
          → network.post url payload ≡ some (delivered w))
        (readings : Readings)
        → (query o c json network cfg.config url coins readings username password).finding
          ≡ ok (record { status = in_breach; metadata = metadata })
    inserted_pair_queried suite bytes payload written network url is_url delivers readings =
        let (response, handled, finds) = stays_found in
        query_handled o coding c json json_lawful fs cfg s client server_made client_made suite
          coins username password message ctx requested bytes payload written z.kv z.disk network
          url is_url delivers readings response handled
        ∙ finds
