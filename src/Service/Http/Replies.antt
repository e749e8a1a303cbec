-- ===== src/Service/Http/Replies.antt =====
-- What `handleEvaluate` of cmd/server/server.go answers.
use migp.Base.{ℕ, ◌≡◌, refl, Bool, true, false, Bytes, codes, ◌++◌, none, some, if◌then◌else◌}
use migp.Base.Outcome.{Outcome, ok, err, panic}
use migp.Protocol.Libraries.{Crypto, Oprf}
use migp.Protocol.Json.{Json}
use migp.Protocol.Server.{ServerResponse, handle_request, marshal_binary}
use migp.Store.{get}
use migp.Store.Files.{FileSystem}
use migp.Service.{DemoServer}
use migp.Service.Writer.{Writer, fresh, http_error, status_text, line_end}
use migp.Service.Http.{write_or_error, reply, evaluate_request, handle_evaluate}

abbrev pub octets : Bytes
octets = codes "application/octet-stream"

abbrev pub plain : Bytes
plain = codes "text/plain; charset=utf-8"

-- A reply over a connection that takes it.
abbrev pub replied : ℕ → Bytes → Bytes → Writer
replied code content_type body = record {
  status = some code;
  content_type = content_type;
  body = body;
  writable = true;
}

module _ (o : Oprf) (c : Crypto) (fs : FileSystem) (json : Json) (d : DemoServer o)
    (disk : fs.State) where
  -- What is answered to a request that is handled, by the answer to it.
  abbrev pub answer : Bool → Outcome ServerResponse → Outcome Writer
  answer parsed panic = panic
  answer true (err e) = ok (replied 500 plain (status_text 500 ++ line_end))
  answer true (ok r) = ok (replied 200 octets (marshal_binary r))
  answer false (err e) =
      ok (replied 400 plain ((status_text 400 ++ line_end) ++ (status_text 500 ++ line_end)))
  answer false (ok r) = ok (replied 400 plain ((status_text 400 ++ line_end) ++ marshal_binary r))

  reply-answer :
      (parsed : Bool) (r : Outcome ServerResponse)
      → reply o c fs json r (if parsed then fresh true else http_error 400 (fresh true))
        ≡ answer parsed r
  unfolding reply write_or_error
  reply-answer parsed panic = refl
  reply-answer true (err e) = refl
  reply-answer true (ok r) = refl
  reply-answer false (err e) = refl
  reply-answer false (ok r) = refl

  -- Every answer of `handleEvaluate` over a connection that takes it: 400 where the body cannot be
  -- read; where it is a request, 500 if `HandleRequest` fails on it, else 200 and the encoded
  -- response; where it is not, 400 and, behind that text, what would have been written for the request
  -- that the parser left. It panics where `HandleRequest` does.
  pub handle_evaluate_lem :
      (body : Bytes)
      → (handle_evaluate o c fs json d disk none (fresh true)
          ≡ ok (replied 400 plain (status_text 400 ++ line_end)))
        × (let (parsed, request) = json.unmarshal_request body in
            handle_evaluate o c fs json d disk (some body) (fresh true)
            ≡ answer parsed (handle_request o c d.migp_server request (get fs disk)))
  unfolding handle_evaluate evaluate_request
  handle_evaluate_lem body = (
    refl,
    reply-answer (json.unmarshal_request body).0
        (handle_request o c d.migp_server (json.unmarshal_request body).1 (get fs disk)),
  )
