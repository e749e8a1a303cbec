-- ===== src/Protocol/Exchange/Parties.antt =====
-- What `NewServer`, `NewClient` and `Request` of pkg/migp give when they succeed.
use migp.Base.{ℕ, ◌≡◌, ap, sym, ◌∙◌, Bytes, [], ◌∷◌, some, uint32}
use migp.Base.Outcome.{ok, or_fail, >>=-eq-ok, ok-injective, or_fail-eq-ok, oprf_failed}
use migp.Protocol.Common.{Config, serialize_username_password, bucket_id_to_hex}
use migp.Protocol.Libraries.{Crypto, Oprf}
use migp.Protocol.Hasher.{new_bucket_hasher, new_slow_hasher, slow_hash}
use migp.Protocol.Encryptor.{new_bucket_encryptor}
use migp.Protocol.Server.{ClientRequest, ServerConfig, Server, new_server}
use migp.Protocol.Client.{
  Client, ClientRequestContext, new_client, client_bucket_id, request, first_blinded,
}

module _ (o : Oprf) (c : Crypto) where
  -- What a server takes from its configuration.
  pub record IsServerOf (cfg : ServerConfig o) (s : Server o) : Type 0 where
    pub version : s.version ≡ cfg.config.version
    pub size : s.bucket_id_bit_size ≡ cfg.config.bucket_id_bit_size
    pub hasher : new_bucket_hasher cfg.config.bucket_hasher_id ≡ ok s.bucket_hasher
    pub slow : new_slow_hasher cfg.config.slow_hasher_id ≡ ok s.slow_hasher
    pub oprf : o.new_server cfg.config.oprf_suite cfg.private_key ≡ some s.oprf_server

  pub record IsClientOf (cfg : Config) (s : Client o) : Type 0 where
    pub version : s.version ≡ cfg.version
    pub size : s.bucket_id_bit_size ≡ cfg.bucket_id_bit_size
    pub hasher : new_bucket_hasher cfg.bucket_hasher_id ≡ ok s.bucket_hasher
    pub slow : new_slow_hasher cfg.slow_hasher_id ≡ ok s.slow_hasher
    pub oprf : o.new_client cfg.oprf_suite ≡ some s.oprf_client

  pub new_server-IsServerOf :
      (cfg : ServerConfig o) (s : Server o) → new_server o cfg ≡ ok s → IsServerOf cfg s
  unfolding new_server
  new_server-IsServerOf cfg s e =
      let (hasher, h, e) = >>=-eq-ok (new_bucket_hasher cfg.config.bucket_hasher_id) _ e in
      let (slow, l, e) = >>=-eq-ok (new_slow_hasher cfg.config.slow_hasher_id) _ e in
      let (encryptor, n, e) = >>=-eq-ok (new_bucket_encryptor cfg.config.bucket_encryptor_id) _ e in
      let (oprf, p, e) =
        >>=-eq-ok (or_fail oprf_failed (o.new_server cfg.config.oprf_suite cfg.private_key)) _ e in
      let same = ok-injective e in
      record {
        version = sym (ap (λ t. t.version) same);
        size = sym (ap (λ t. t.bucket_id_bit_size) same);
        hasher = h ∙ ap (λ t. ok t.bucket_hasher) same;
        slow = l ∙ ap (λ t. ok t.slow_hasher) same;
        oprf = or_fail-eq-ok oprf_failed _ p ∙ ap (λ t. some t.oprf_server) same;
      }

  pub new_client-IsClientOf :
      (cfg : Config) (s : Client o) → new_client o cfg ≡ ok s → IsClientOf cfg s
  unfolding new_client
  new_client-IsClientOf cfg s e =
      let (hasher, h, e) = >>=-eq-ok (new_bucket_hasher cfg.bucket_hasher_id) _ e in
      let (slow, l, e) = >>=-eq-ok (new_slow_hasher cfg.slow_hasher_id) _ e in
      let (encryptor, n, e) = >>=-eq-ok (new_bucket_encryptor cfg.bucket_encryptor_id) _ e in
      let (oprf, p, e) = >>=-eq-ok (or_fail oprf_failed (o.new_client cfg.oprf_suite)) _ e in
      let same = ok-injective e in
      record {
        version = sym (ap (λ t. t.version) same);
        size = sym (ap (λ t. t.bucket_id_bit_size) same);
        hasher = h ∙ ap (λ t. ok t.bucket_hasher) same;
        slow = l ∙ ap (λ t. ok t.slow_hasher) same;
        oprf = or_fail-eq-ok oprf_failed _ p ∙ ap (λ t. some t.oprf_client) same;
      }

  -- What a request that was made holds.
  pub record IsRequestOf (s : Client o) (coins : o.Coins) (username password : Bytes)
      (message : ClientRequest) (ctx : ClientRequestContext o) : Type 0 where
    pub serialized : Bytes
    pub input : Bytes
    pub bucket_id : ℕ
    pub serializes : serialize_username_password username password ≡ ok serialized
    pub hashes : slow_hash c s.slow_hasher serialized ≡ ok input
    pub requests : o.request s.oprf_client coins (input ∷ []) ≡ some ctx.oprf_request
    pub blinded : first_blinded o c (o.blinded_elements ctx.oprf_request) ≡ ok message.blind_element
    pub identifies : client_bucket_id o c s username ≡ ok bucket_id
    pub version : message.version ≡ uint32 s.version
    pub names : message.bucket_id ≡ bucket_id_to_hex bucket_id
    pub client : ctx.client ≡ s

  pub request-IsRequestOf :
      (s : Client o) (coins : o.Coins) (username password : Bytes) (message : ClientRequest)
      (ctx : ClientRequestContext o)
      → request o c s coins username password ≡ ok (message, ctx)
      → IsRequestOf s coins username password message ctx
  unfolding request
  request-IsRequestOf s coins username password message ctx e =
      let (serialized, ser, e) = >>=-eq-ok (serialize_username_password username password) _ e in
      let (input, hash, e) = >>=-eq-ok (slow_hash c s.slow_hasher serialized) _ e in
      let (req, r, e) =
        >>=-eq-ok (or_fail oprf_failed (o.request s.oprf_client coins (input ∷ []))) _ e in
      let (blinded, b, e) = >>=-eq-ok (first_blinded o c (o.blinded_elements req)) _ e in
      let (id, i, e) = >>=-eq-ok (client_bucket_id o c s username) _ e in
      let same = ok-injective e in
      record {
        serialized = serialized;
        input = input;
        bucket_id = id;
        serializes = ser;
        hashes = hash;
        requests = or_fail-eq-ok oprf_failed _ r ∙ ap (λ t. some t.1.oprf_request) same;
        blinded =
            ap (λ t. first_blinded o c (o.blinded_elements t.1.oprf_request)) (sym same)
            ∙ b
            ∙ ap (λ t. ok t.0.blind_element) same;
        identifies = i;
        version = sym (ap (λ t. t.0.version) same);
        names = sym (ap (λ t. t.0.bucket_id) same);
        client = sym (ap (λ t. t.1.client) same);
      }
