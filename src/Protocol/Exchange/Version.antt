-- ===== src/Protocol/Exchange/Version.antt =====
-- The version test of `HandleRequest` of pkg/migp/server.go.
use migp.Base.{◌^◌, ◌<◌, ◌≡◌, ◌≢◌, true, not, Bytes, arith, uint16, ◌==◌, ==_iff}
use migp.Base.Outcome.{Outcome, ok, err, ◌>>=◌, fail_if, >>=_assoc, version_mismatch}
use migp.Protocol.Libraries.{Crypto, Oprf}
use migp.Protocol.Server.{ClientRequest, Server, handle_request}

-- The version of a request is compared in 16 bits: the server refuses every version that differs
-- from its own modulo 2 ^ 16 before it does anything else, and serves every other one as if it were
-- its own version, which it writes into the response as it came.
pub handle_request_version :
    (o : Oprf) (c : Crypto) (s : Server o) (r : ClientRequest) (get : Bytes → Outcome Bytes)
    → s.version < 2 ^ 16
    → (uint16 r.version ≢ s.version → handle_request o c s r get ≡ err version_mismatch)
      × (uint16 r.version ≡ s.version
          → handle_request o c s r get ≡ (
              handle_request o c s (record r { version = s.version }) get >>= λ response.
              ok (record response { version = r.version })))
unfolding handle_request
handle_request_version o c s r get small = (
  λ differ. ground (arith, differ),
  λ same.
      let own : uint16 s.version ≡ s.version = omega arith in
      let test : (uint16 r.version == s.version) ≡ true =
        (==_iff (uint16 r.version) s.version).1 same in
      let test' : (uint16 s.version == s.version) ≡ true =
        (==_iff (uint16 s.version) s.version).1 own in
      rw (test, test', not, fail_if) (simp >>=_assoc),
)
