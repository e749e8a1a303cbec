-- ===== src/Protocol/Exchange/Correct.antt =====
-- A whole exchange of pkg/migp, from the request to the breach status.
use migp.Base.{
  ℕ, ◌^◌, ◌<◌, ◌≡◌, refl, ap, ap₂, sym, ◌∙◌, not, Bytes, List, [], ◌∷◌, ◌++◌, some, arith, be32,
  uint16, uint32, length, ==_iff,
}
use migp.Base.Outcome.{
  Outcome, ok, ◌>>=◌, fail_if, >>=-eq-ok, ok-injective, or_fail-eq-ok, oprf_failed,
  invalid_metadata_flag,
}
use migp.Protocol.Common.{
  MetadataType, is_valid, to_breach_status, not_in_breach, oprf_info, serialize_username_password,
  bucket_hash_to_id, bucket_id_to_hex, hex_decode,
}
use migp.Protocol.Common.BucketId.{bucket_id_to_hex_lem}
use migp.Protocol.Libraries.{Crypto, IsCrypto, Oprf, IsOprf}
use migp.Protocol.Encryptor.{
  BucketEncryptor, hkdf_sha256, derive_pad, derive_pad_header_salt, encrypt,
}
use migp.Protocol.Hasher.{bucket_hash, slow_hash}
use migp.Protocol.Server.{
  ClientRequest, ServerResponse, ServerConfig, Server, new_server, derive_bucket_entry_key,
  server_bucket_id, encrypt_bucket_entry, encrypt_with, handle_request,
}
use migp.Protocol.Client.{
  Client, ClientRequestContext, new_client, client_bucket_id, request, finalize, scan_all,
  first_blinded,
}
use migp.Protocol.Client.Find.{Stored, AreForeign, contents_of, scan_all_finds, scan_all_misses}
use migp.Protocol.Exchange.Parties.{
  new_server-IsServerOf, new_client-IsClientOf, request-IsRequestOf,
}

only_encryptor : (e : BucketEncryptor) → e ≡ hkdf_sha256
only_encryptor hkdf_sha256 = refl

abbrev answer_to : ClientRequest → Bytes → Bytes → ServerResponse
answer_to r element contents = record {
  version = r.version;
  evaluated_element = element;
  bucket_contents = contents;
}

handle_request_served :
    (o : Oprf) (c : Crypto) (s : Server o) (r : ClientRequest) (get : Bytes → Outcome Bytes)
    (element decoded contents : Bytes)
    → uint16 r.version ≡ s.version
    → o.evaluate s.oprf_server (r.blind_element ∷ []) oprf_info ≡ some (element ∷ [])
    → hex_decode r.bucket_id ≡ some decoded
    → get r.bucket_id ≡ ok contents
    → handle_request o c s r get ≡ ok (answer_to r element contents)
unfolding handle_request
handle_request_served o c s r get element decoded contents v evaluated hex got =
    rw ((==_iff (uint16 r.version) s.version).1 v, not, fail_if, evaluated, hex, got)

finalize_scans :
    (o : Oprf) (c : Crypto) (ctx : ClientRequestContext o) (r : ServerResponse) (key : Bytes)
    → uint16 r.version ≡ ctx.client.version
    → o.finalize ctx.client.oprf_client ctx.oprf_request (r.evaluated_element ∷ []) oprf_info
      ≡ some (key ∷ [])
    → finalize o c ctx r ≡ scan_all c hkdf_sha256 key r.bucket_contents
unfolding finalize
finalize_scans o c ctx r key v output =
    rw ((==_iff (uint16 r.version) ctx.client.version).1 v, not, fail_if, output)
      (ap (λ e. scan_all c e key r.bucket_contents) (only_encryptor ctx.client.bucket_encryptor))

-- A flag that is accepted is a byte, and the entry is encrypted under the derived key.
encrypt_bucket_entry-parts :
    (o : Oprf) (c : Crypto) (s : Server o) (username password : Bytes) (flag : MetadataType)
    (metadata ct key : Bytes)
    → derive_bucket_entry_key o c s username password ≡ ok key
    → encrypt_bucket_entry o c s username password flag metadata ≡ ok ct
    → (flag < 256) × (encrypt c key flag metadata ≡ ok ct)
unfolding encrypt_bucket_entry is_valid
encrypt_bucket_entry-parts o c s username password flag metadata ct key derives e =
    let (u, valid, e) = >>=-eq-ok (fail_if (not (is_valid flag)) invalid_metadata_flag) _ e in
    let (key', derives', e) = >>=-eq-ok (derive_bucket_entry_key o c s username password) _ e in
    let keys : key' ≡ key = ok-injective (sym derives' ∙ derives) in
    (
      ground arith,
      ap₂ (λ n k. encrypt_with o c n k flag metadata) (sym (only_encryptor s.bucket_encryptor))
            (sym keys)
          ∙ e,
    )

module _ (o : Oprf) (oprf_lawful : IsOprf o) (c : Crypto) (lawful : IsCrypto c) where
  module _ (cfg : ServerConfig o) (s : Server o) (client : Client o)
      (server_made : new_server o cfg ≡ ok s) (client_made : new_client o cfg.config ≡ ok client)
      (coins : o.Coins) (username password : Bytes) (message : ClientRequest)
      (ctx : ClientRequestContext o)
      (requested : request o c client coins username password ≡ ok (message, ctx)) where
    -- A server and a client that were made from one configuration: the request for a username names
    -- the bucket that the server identifies for that username.
    pub request-server_bucket_id :
        (id : ℕ) → server_bucket_id o c s username ≡ ok id → message.bucket_id ≡ bucket_id_to_hex id
    unfolding server_bucket_id client_bucket_id
    request-server_bucket_id id e =
        let sv = new_server-IsServerOf o c cfg s server_made in
        let cv = new_client-IsClientOf o c cfg.config client client_made in
        let rq = request-IsRequestOf o c client coins username password message ctx requested in
        let hashers : s.bucket_hasher ≡ client.bucket_hasher =
          ok-injective (sym sv.hasher ∙ cv.hasher) in
        let sizes : s.bucket_id_bit_size ≡ client.bucket_id_bit_size = sv.size ∙ sym cv.size in
        let ids : ok id ≡ ok rq.bucket_id =
          sym e
          ∙ ap₂ (λ h n. bucket_hash c h username >>= λ d. bucket_hash_to_id d n) hashers sizes
          ∙ rq.identifies in
        rq.names ∙ ap bucket_id_to_hex (sym (ok-injective ids))

    module _ (small : cfg.config.version < 2 ^ 16) (key : Bytes)
        (derives : derive_bucket_entry_key o c s username password ≡ ok key)
        (get : Bytes → Outcome Bytes) (contents : Bytes)
        (got : get message.bucket_id ≡ ok contents) where
      -- The client ends by scanning the bucket under the key that the server derives.
      exchange_scans :
          (response : ServerResponse) × (handle_request o c s message get ≡ ok response)
          × (finalize o c ctx response ≡ scan_all c hkdf_sha256 key contents)
      unfolding derive_bucket_entry_key
      exchange_scans =
          let sv = new_server-IsServerOf o c cfg s server_made in
          let cv = new_client-IsClientOf o c cfg.config client client_made in
          let rq = request-IsRequestOf o c client coins username password message ctx requested in
          let (ser, serializes, e) =
            >>=-eq-ok (serialize_username_password username password) _ derives in
          let (input, hashes, e) = >>=-eq-ok (slow_hash c s.slow_hasher ser) _ e in
          let evaluates =
            or_fail-eq-ok oprf_failed (o.full_evaluate s.oprf_server input oprf_info) e in
          let slows : s.slow_hasher ≡ client.slow_hasher = ok-injective (sym sv.slow ∙ cv.slow) in
          let texts : ser ≡ rq.serialized = ok-injective (sym serializes ∙ rq.serializes) in
          let inputs : input ≡ rq.input =
            ok-injective (sym hashes ∙ ap₂ (slow_hash c) slows texts ∙ rq.hashes) in
          let (b, one) =
            oprf_lawful.blinds_one client.oprf_client coins rq.input ctx.oprf_request rq.requests in
          let sent : message.blind_element ≡ b =
            ok-injective (sym rq.blinded ∙ ap (first_blinded o c) one) in
          let (element, answer, output) =
            oprf_lawful.agrees cfg.config.oprf_suite cfg.private_key s.oprf_server
              client.oprf_client coins rq.input oprf_info b key ctx.oprf_request sv.oprf cv.oprf
              rq.requests one
              (ap (λ x. o.full_evaluate s.oprf_server x oprf_info) (sym inputs) ∙ evaluates) in
          let versions : uint16 message.version ≡ cfg.config.version =
            ap uint16 (rq.version ∙ ap uint32 cv.version) ∙ omega arith in
          (
            answer_to message element contents,
            handle_request_served o c s message get element (be32 rq.bucket_id) contents
                (versions ∙ sym sv.version)
                (ap (λ x. o.evaluate s.oprf_server (x ∷ []) oprf_info) sent ∙ answer)
                (ap hex_decode rq.names ∙ (bucket_id_to_hex_lem rq.bucket_id).1) got,
            finalize_scans o c ctx (answer_to message element contents) key
                (versions ∙ sym cv.version ∙ ap (λ k. k.version) (sym rq.client))
                (ap (λ k. o.finalize k.oprf_client ctx.oprf_request (element ∷ []) oprf_info)
                    rq.client
                  ∙ output),
          )

      -- The key's pad, which the client compares with the headers of the bucket.
      module _ (pad : Bytes) (derived : derive_pad c key derive_pad_header_salt 21 ≡ ok pad)
          (before : List Stored) (foreign : AreForeign c lawful key pad derived before) where
        -- A server and a client that were made from one configuration with a version below 2 ^ 16, a
        -- request that the client made, and a bucket that holds the entry which the server encrypted
        -- for the same credential pair, behind entries that are foreign to its key and in front of any
        -- bytes: the server answers the request, and the client ends with the status of the flag that
        -- was encrypted and with the metadata, if the metadata has less than 2 ^ 32 bytes.
        pub exchange_finds :
            (flag : MetadataType) (metadata ct rest : Bytes)
            → encrypt_bucket_entry o c s username password flag metadata ≡ ok ct
            → length metadata < 2 ^ 32
            → contents ≡ contents_of before ++ (ct ++ rest)
            → (response : ServerResponse) × (handle_request o c s message get ≡ ok response)
              × (finalize o c ctx response
                  ≡ ok (record { status = to_breach_status flag; metadata = metadata }))
        exchange_finds flag metadata ct rest encrypted fits holds =
            let (is_byte, made) =
              encrypt_bucket_entry-parts o c s username password flag metadata ct key derives
                encrypted in
            let (response, handled, scanned) = exchange_scans in
            (
              response,
              handled,
              scanned
                  ∙ ap (scan_all c hkdf_sha256 key) holds
                  ∙ scan_all_finds c lawful key pad derived before flag metadata ct rest foreign
                      made fits is_byte,
            )

        -- With a server, a client and a request as they are above, if all entries of the bucket are
        -- foreign to the key of the credential pair, then the server answers the request and the client
        -- ends with `NotInBreach`.
        pub exchange_misses :
            contents ≡ contents_of before
            → (response : ServerResponse) × (handle_request o c s message get ≡ ok response)
              × (finalize o c ctx response ≡ ok (record { status = not_in_breach; metadata = [] }))
        exchange_misses holds =
            let (response, handled, scanned) = exchange_scans in
            (
              response,
              handled,
              scanned
                  ∙ ap (scan_all c hkdf_sha256 key) holds
                  ∙ scan_all_misses c lawful key pad derived before foreign,
            )
