-- ===== src/Service/Found.antt =====
-- From `insert` of cmd/server/server.go over the files of cmd/server/kv.go to a client of pkg/migp.
use migp.Base.{
  ℕ, ◌^◌, ◌<◌, ◌≡◌, refl, ap, ap₂, sym, ◌∙◌, Bool, true, Bytes, List, [], ◌++◌, length, bytes_eq,
  bytes_eq_iff, append_assoc, if◌then◌else◌,
}
use migp.Base.Int.{ℤ}
use migp.Base.Outcome.{ok, >>=-eq-ok, ok-injective}
use migp.Protocol.Common.{metadata_breached_password, bucket_id_to_hex, in_breach, to_breach_status}
use migp.Protocol.Libraries.{Crypto, IsCrypto, Oprf, IsOprf}
use migp.Protocol.Encryptor.{derive_pad, derive_pad_header_salt}
use migp.Protocol.Server.{
  ClientRequest, ServerResponse, ServerConfig, Server, new_server, derive_bucket_entry_key,
  server_bucket_id, handle_request,
}
use migp.Protocol.Client.{Client, ClientRequestContext, new_client, request, finalize}
use migp.Protocol.Client.Find.{Stored, AreForeign, contents_of}
use migp.Protocol.Exchange.Correct.{request-server_bucket_id, exchange_finds}
use migp.Store.{KvStore, find, get, save_credentials}
use migp.Store.Files.{FileSystem, IsFileSystem}
use migp.Store.Paths.{bucket_id_to_hex-IsId}
use migp.Store.Save.{get-save_credentials}
use migp.Service.{insert}
use migp.Service.Insert.{entry, more_entries, pair_entries, insert_writes_entries, insert_result}
use migp.Service.Invariant.{IsSound, insert-IsSound}

module _ (o : Oprf) (c : Crypto) (sum32 : Bytes → ℕ) (s : Server o)
    (username metadata : Bytes) where
  -- After an insertion that succeeds, what the bucket has been given begins with the pair's entry.
  pub record Inserted (password : Bytes) (n : ℤ) (include : Bool) (kv : KvStore) (id : ℕ)
      : Type 0 where
    pub ct : Bytes
    pub rest : Bytes
    pub encrypted : entry o c sum32 s username metadata password metadata_breached_password ≡ ok ct
    pub holds :
        find
          (bucket_id_to_hex id)
          (insert o c sum32 s username metadata password n include kv).1.store
        ≡ find (bucket_id_to_hex id) kv.store ++ (ct ++ rest)

  pub insert-Inserted :
      (password : Bytes) (n : ℤ) (include : Bool) (kv : KvStore) (id : ℕ)
      → server_bucket_id o c s username ≡ ok id
      → (insert o c sum32 s username metadata password n include kv).0 ≡ ok tt
      → Inserted password n include kv id
  insert-Inserted password n include kv id named done =
      let (result, g) =
        insert_result o c sum32 s username metadata password n include kv id named in
      let (added, described, e) =
        >>=-eq-ok (pair_entries o c sum32 s username metadata password n include) _
          (sym result ∙ done) in
      let (ct, first, e) =
        >>=-eq-ok (entry o c sum32 s username metadata password metadata_breached_password) _
          described in
      let (others, second, e) =
        >>=-eq-ok (more_entries o c sum32 s username metadata password n include)
          (λ b. ok (ct ++ b)) e in
      let (all, grows) =
        insert_writes_entries o c sum32 s username metadata password n include kv id added named
          described in
      let hex = bucket_id_to_hex id in
      let own : bytes_eq hex hex ≡ true = (bytes_eq_iff hex hex).1 refl in
      record {
        ct = ct;
        rest = others;
        encrypted = first;
        holds =
            grows hex
            ∙ ap (λ b. find hex kv.store ++ (if b then added else [])) own
            ∙ ap (λ t. find hex kv.store ++ t) (sym (ok-injective e));
      }

module _ (o : Oprf) (oprf_lawful : IsOprf o) (c : Crypto) (lawful : IsCrypto c) (fs : FileSystem)
    (fs_lawful : IsFileSystem fs) (sum32 : Bytes → ℕ) where
  -- A server and a client that were made from one configuration with a version below 2 ^ 16, and a
  -- store with one pair to a key and keys of eight ASCII characters, whose bucket for the username
  -- holds, in the file and in memory together, only entries that are foreign to the key of a
  -- credential pair: if `insert` of the pair succeeds and so does `saveCredentials`, then a client that
  -- asks for the pair is answered from the files, and ends with `InBreach` and the metadata, if that
  -- has less than 2 ^ 32 bytes.
  pub inserted_pair_found :
      (cfg : ServerConfig o) (s : Server o) (client : Client o)
      (server_made : new_server o cfg ≡ ok s) (client_made : new_client o cfg.config ≡ ok client)
      (coins : o.Coins) (username password : Bytes) (message : ClientRequest)
      (ctx : ClientRequestContext o)
      (requested : request o c client coins username password ≡ ok (message, ctx))
      (small : cfg.config.version < 2 ^ 16) (key : Bytes)
      (derives : derive_bucket_entry_key o c s username password ≡ ok key) (pad : Bytes)
      (derived : derive_pad c key derive_pad_header_salt 21 ≡ ok pad) (before : List Stored)
      (foreign : AreForeign c lawful key pad derived before) (metadata : Bytes)
      (fits : length metadata < 2 ^ 32) (n : ℤ) (include : Bool) (kv : KvStore) (sound : IsSound kv)
      (disk : fs.State) (id : ℕ) (named : server_bucket_id o c s username ≡ ok id)
      (done : (insert o c sum32 s username metadata password n include kv).0 ≡ ok tt)
      (saves : (save_credentials fs
          (insert o c sum32 s username metadata password n include kv).1
          disk).0
        ≡ ok tt)
      (old : Bytes) (got : get fs disk (bucket_id_to_hex id) ≡ ok old)
      (holds : old ++ find (bucket_id_to_hex id) kv.store ≡ contents_of before)
      → let disk' =
          (save_credentials fs
            (insert o c sum32 s username metadata password n include kv).1
            disk).1 in
        (response : ServerResponse) × (handle_request o c s message (get fs disk') ≡ ok response)
        × (finalize o c ctx response ≡ ok (record { status = in_breach; metadata = metadata }))
  unfolding to_breach_status
  inserted_pair_found cfg s client server_made client_made coins username password message ctx
        requested small key derives pad derived before foreign metadata fits n include kv sound disk
        id named done saves old got holds =
      let hex = bucket_id_to_hex id in
      let kv' = (insert o c sum32 s username metadata password n include kv).1 in
      let disk' = (save_credentials fs kv' disk).1 in
      let after = insert-IsSound o c sum32 s username metadata password n include kv sound in
      let (old', got', got_after) =
        get-save_credentials fs fs_lawful kv' disk hex after.map after.ids
          (bucket_id_to_hex-IsId id) saves in
      let in_store =
        insert-Inserted o c sum32 s username metadata password n include kv id named done in
      let names : message.bucket_id ≡ hex =
        request-server_bucket_id o oprf_lawful c lawful cfg s client server_made client_made coins
          username password message ctx requested id named in
      exchange_finds o oprf_lawful c lawful cfg s client server_made client_made coins username
        password message ctx requested small key derives (get fs disk') (old' ++ find hex kv'.store)
        (ap (get fs disk') names ∙ got_after) pad derived before foreign metadata_breached_password
        metadata in_store.ct in_store.rest in_store.encrypted fits
        (ap₂ (λ a b. a ++ b) (ok-injective (sym got' ∙ got)) in_store.holds
          ∙ sym (append_assoc old (find hex kv.store) (in_store.ct ++ in_store.rest))
          ∙ ap (λ t. t ++ (in_store.ct ++ in_store.rest)) holds)
