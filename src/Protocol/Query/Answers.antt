-- ===== src/Protocol/Query/Answers.antt =====
-- What `Query` of pkg/migp/client.go returns.
use migp.Base.{
  ◌^◌, ◌<◌, ◌≡◌, refl, ap, sym, ◌∙◌, true, not, Bytes, List, [], ◌∷◌, some, ◌==◌, arith, uint16,
  length,
}
use migp.Base.Outcome.{
  Outcome, ok, or_fail, >>=-eq-ok, ok-injective, or_fail-eq-ok, fail_if, version_mismatch,
  oprf_failed, bucket_id_not_hex,
}
use migp.Protocol.Common.{Config, oprf_info, hex_decode}
use migp.Protocol.Libraries.{Crypto, Oprf}
use migp.Protocol.Json.{Json}
use migp.Protocol.Server.{
  ClientRequest, ServerResponse, Server, handle_request, marshal_binary, first_element,
}
use migp.Protocol.Server.Response.{unmarshal_binary-marshal_binary}
use migp.Protocol.Client.{Client, ClientRequestContext, new_client, request, finalize}
use migp.Protocol.Query.{Network, Readings, query_response, query_answer, query}

module _ (o : Oprf) (c : Crypto) where
  -- What a response takes from the request that it answers.
  pub record Answers (s : Server o) (r : ClientRequest) (response : ServerResponse) : Type 0 where
    pub version : response.version ≡ r.version
    pub others : List Bytes
    pub evaluated :
        o.evaluate s.oprf_server (r.blind_element ∷ []) oprf_info
        ≡ some (response.evaluated_element ∷ others)

  first_element-eq-ok :
      (es : List Bytes) {e : Bytes}
      → first_element o c es ≡ ok e
      → (others : List Bytes) × (es ≡ e ∷ others)
  first_element-eq-ok [] h = cc
  first_element-eq-ok (e ∷ es) h = (es, ap (λ t. t ∷ es) (ok-injective h))

  pub handle_request-Answers :
      (s : Server o) (r : ClientRequest) (get : Bytes → Outcome Bytes) (response : ServerResponse)
      → handle_request o c s r get ≡ ok response
      → Answers s r response
  unfolding handle_request
  handle_request-Answers s r get response e =
      let (u, same, e) =
        >>=-eq-ok (fail_if (not (uint16 r.version == s.version)) version_mismatch) _ e in
      let (elements, evaluates, e) =
        >>=-eq-ok (or_fail oprf_failed (o.evaluate s.oprf_server (r.blind_element ∷ []) oprf_info))
          _ e in
      let (element, first, e) = >>=-eq-ok (first_element o c elements) _ e in
      let (decoded, hex, e) = >>=-eq-ok (or_fail bucket_id_not_hex (hex_decode r.bucket_id)) _ e in
      let (contents, got, e) = >>=-eq-ok (get r.bucket_id) _ e in
      let (others, all) = first_element-eq-ok elements first in
      let same = ok-injective e in
      record {
        version = sym (ap (λ t. t.version) same);
        others = others;
        evaluated =
            or_fail-eq-ok oprf_failed _ evaluates
            ∙ ap some all
            ∙ ap (λ t. some (t.evaluated_element ∷ others)) same;
      }

  module _ (json : Json) (network : Network) where
    -- A network that delivers a request and comes back with an encoded response, whose element has the
    -- length of the default suite's: `Query` ends with what `Finalize` makes of that response.
    pub query-finalize :
        (cfg : Config) (url : Bytes) (coins : o.Coins) (readings : Readings)
        (username password payload : Bytes) (client : Client o) (message : ClientRequest)
        (ctx : ClientRequestContext o) (response : ServerResponse)
        → new_client o cfg ≡ ok client
        → request o c client coins username password ≡ ok (message, ctx)
        → json.marshal_request message ≡ some payload
        → network.is_url url ≡ true
        → network.post url payload
          ≡ some (record { status_code = 200; body = some (marshal_binary response) })
        → response.version < 2 ^ 32
        → o.element_length o.default_suite ≡ some (length response.evaluated_element)
        → (query o c json network cfg url coins readings username password).finding
          ≡ finalize o c ctx response
    unfolding query query_response query_answer
    query-finalize cfg url coins readings username password payload client message ctx response made
          requested written is_url posted small size =
        let n = length response.evaluated_element in
        let read = (unmarshal_binary-marshal_binary o n size response small (omega arith)).1 refl in
        rw (made, requested, written, is_url, posted, not, fail_if, read) refl
