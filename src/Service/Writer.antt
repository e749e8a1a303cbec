-- ===== src/Service/Writer.antt =====
-- `http.ResponseWriter` of net/http, as the handlers of cmd/server/server.go use it: a status is sent
-- once, and with it the headers; a text goes behind it. `content_type` is empty where no handler sets
-- it.
use migp.Base.{ℕ, Bool, Bytes, codes, [], ◌++◌, Option, none, some, ◌==◌, if◌then◌else◌}

pub record Writer : Type 0 where
  pub status : Option ℕ
  pub content_type : Bytes
  pub body : Bytes
  -- The connection takes what is written.
  pub writable : Bool

-- The writer that a handler is given.
abbrev pub fresh : Bool → Writer
fresh writable = record { status = none; content_type = []; body = []; writable = writable }

-- `w.Header().Set("Content-Type", …)`, without effect once the headers are sent.
abbrev pub set_content_type : Bytes → Writer → Writer
set_content_type t w = record w {
  content_type = elim w.status [ none ↦ t | some code ↦ w.content_type ];
}

-- `WriteHeader`: a second status is ignored.
abbrev pub write_header : ℕ → Writer → Writer
write_header code w = record w {
  status = elim w.status [ none ↦ some code | some sent ↦ some sent ];
}

-- `Write`, which sends the status 200 if none was sent: did it succeed, and the writer.
abbrev pub write : Bytes → Writer → Bool × Writer
write text w =
    let sent = write_header 200 w in
    (sent.writable, record sent { body = if sent.writable then sent.body ++ text else sent.body })

-- `http.StatusText`, for the two codes that the handlers use.
abbrev pub status_text : ℕ → Bytes
status_text code = if code == 400 then codes "Bad Request" else codes "Internal Server Error"

abbrev pub line_end : Bytes
line_end = codes "\n"

-- `http.Error(w, http.StatusText(code), code)`
abbrev pub http_error : ℕ → Writer → Writer
http_error code w =
    (write (status_text code ++ line_end)
      (write_header code (set_content_type (codes "text/plain; charset=utf-8") w))).1
