-- ===== src/Protocol/Query.antt =====
-- `Query` of pkg/migp/client.go: one exchange over HTTP. The network, the clock and encoding/json are
-- parameters.
pub mod Answers
use migp.Base.{ℕ, Bytes, Bool, not, Option, none, some, length, ◌==◌}
use migp.Base.Int.{ℤ, sub_ℕ, ◌+ℤ◌}
use migp.Base.Outcome.{
  Outcome, ok, err, panic, ◌>>=◌, ◌>>◌, fail_if, or_fail, json_failed, http_failed, read_failed,
  bad_status,
}
use migp.Protocol.Common.{Config}
use migp.Protocol.Libraries.{Crypto, Oprf}
use migp.Protocol.Json.{Json}
use migp.Protocol.Server.{ServerResponse, unmarshal_binary}
use migp.Protocol.Client.{ClientRequestContext, Finding, new_client, request, finalize}

-- A response of `http.Client`: its status, and its body unless reading it fails.
pub record HttpResponse : Type 0 where
  pub status_code : ℕ
  pub body : Option Bytes

pub record Network : Type 0 where
  -- `http.NewRequest` accepts the URL.
  pub is_url : Bytes → Bool
  -- `http.DefaultClient.Do` of a POST with a JSON body
  pub post : Bytes → Bytes → Option HttpResponse

-- The readings of `time.Now`, in nanoseconds, in the order of the code.
pub record Readings : Type 0 where
  pub started : ℕ
  pub prepared : ℕ
  pub called : ℕ
  pub answered : ℕ
  pub finalizing : ℕ
  pub finalized : ℕ

-- The map of durations, by its keys.
pub record Durations : Type 0 where
  pub query_prep : ℤ
  pub api_call : ℤ
  pub finalize : ℤ
  pub total : ℤ

-- What `Query` returns. The bandwidth is the length of the body; the code divides it by 2 ^ 20, which
-- is exact.
pub record Answer : Type 0 where
  pub finding : Outcome Finding
  pub duration : Option Durations
  pub bandwidth : ℕ

unfoldable pub durations : Readings → Durations
unfolding ◌+ℤ◌
durations r =
    let query_prep_time = sub_ℕ r.prepared r.started in
    let api_call_time = sub_ℕ r.answered r.called in
    let finalize_time = sub_ℕ r.finalized r.finalizing in
    record {
      query_prep = query_prep_time;
      api_call = api_call_time;
      finalize = finalize_time;
      total = query_prep_time +ℤ api_call_time +ℤ finalize_time;
    }

module _ (o : Oprf) (c : Crypto) (json : Json) (network : Network) where
  -- `http.StatusOK`
  abbrev status_ok : ℕ
  status_ok = 200

  -- `Query` up to the response's payload, and the length of its body.
  unfoldable pub query_response :
      Config
      → Bytes
      → o.Coins
      → Bytes
      → Bytes
      → Outcome (ClientRequestContext o × ServerResponse × ℕ)
  query_response cfg target_url coins username password = do
    client ← new_client o cfg
    (migp_request, context) ← request o c client coins username password
    payload ← or_fail json_failed (json.marshal_request migp_request)
    fail_if (not (network.is_url target_url)) http_failed
    response ← or_fail http_failed (network.post target_url payload)
    fail_if (not (response.status_code == status_ok)) (bad_status response.status_code)
    body ← or_fail read_failed response.body
    response_payload ← unmarshal_binary o body
    ok (context, response_payload, length body)

  -- The end of `Query`: an error of `Finalize` is returned with the durations.
  unfoldable pub query_answer :
      Outcome (ClientRequestContext o × ServerResponse × ℕ) → Readings → Answer
  unfolding durations
  query_answer panic readings = record { finding = panic; duration = none; bandwidth = 0 }
  query_answer (err e) readings = record { finding = err e; duration = none; bandwidth = 0 }
  query_answer (ok (context, response, bandwidth)) readings = record {
    finding = finalize o c context response;
    duration = some (durations readings);
    bandwidth = bandwidth;
  }

  unfoldable pub query : Config → Bytes → o.Coins → Readings → Bytes → Bytes → Answer
  unfolding query_response query_answer
  query cfg target_url coins readings username password =
      query_answer (query_response cfg target_url coins username password) readings
