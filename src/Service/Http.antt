-- ===== src/Service/Http.antt =====
-- The handlers of cmd/server/server.go. net/http is modelled by Service/Writer, encoding/json is a
-- parameter. A handler that panics gives `panic`.
pub mod Replies
use migp.Base.{
  ℕ, Bool, true, false, Bytes, codes, [], ◌++◌, Option, none, some, bytes_eq, if◌then◌else◌,
}
use migp.Base.Outcome.{Outcome, ok, err, panic}
use migp.Protocol.Libraries.{Crypto, Oprf}
use migp.Protocol.Json.{Json}
use migp.Protocol.Server.{
  ClientRequest, ServerResponse, server_config, handle_request, marshal_binary,
}
use migp.Store.{get}
use migp.Store.Files.{FileSystem}
use migp.Service.{DemoServer}
use migp.Service.Writer.{Writer, set_content_type, write, http_error, line_end}

-- `handleIndex`
unfoldable pub handle_index : Writer → Writer
handle_index w = (write (codes "Welcome to the MIGP demo server\n") w).1

-- The end of a handler that writes: an error of `Write` is answered by `http.Error`.
unfoldable pub write_or_error : Bytes → Writer → Writer
write_or_error text w = let (done, w') = write text w in if done then w' else http_error 500 w'

module _ (o : Oprf) (c : Crypto) (fs : FileSystem) (json : Json) where
  -- `handleConfig`; `Encode` writes the JSON and a line end at once.
  unfoldable pub handle_config : DemoServer o → Writer → Writer
  unfolding write_or_error
  handle_config d w = elim (json.marshal_config (server_config o d.migp_server).config) [
    | none ↦ http_error 500 w
    | some text ↦ write_or_error (text ++ line_end) w
  ]

  -- `handleEvaluate` from the answer of `HandleRequest` on; `MarshalBinary` does not fail.
  unfoldable pub reply : Outcome ServerResponse → Writer → Outcome Writer
  unfolding write_or_error
  reply panic w = panic
  reply (err e) w = ok (http_error 500 w)
  reply (ok response) w = ok (
      write_or_error (marshal_binary response)
        (set_content_type (codes "application/octet-stream") w))

  -- The same from `json.Unmarshal` on. Its error is answered, and the request is handled all the same.
  unfoldable pub evaluate_request :
      DemoServer o → fs.State → Bool × ClientRequest → Writer → Outcome Writer
  unfolding reply
  evaluate_request d disk (parsed, request) w =
      reply (handle_request o c d.migp_server request (get fs disk))
        (if parsed then w else http_error 400 w)

  -- `handleEvaluate`, for the body that was read, or an error of reading it.
  unfoldable pub handle_evaluate : DemoServer o → fs.State → Option Bytes → Writer → Outcome Writer
  unfolding evaluate_request
  handle_evaluate d disk none w = ok (http_error 400 w)
  handle_evaluate d disk (some body) w = evaluate_request d disk (json.unmarshal_request body) w

  -- `handler`: the longest pattern of `http.ServeMux` that fits a clean path.
  unfoldable pub serve : DemoServer o → fs.State → Bytes → Option Bytes → Writer → Outcome Writer
  unfolding handle_evaluate handle_config handle_index
  serve d disk path body w =
      if bytes_eq path (codes "/evaluate")
      then handle_evaluate d disk body w
      else if bytes_eq path (codes "/config")
      then ok (handle_config d w)
      else ok (handle_index w)
