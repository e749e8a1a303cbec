-- ===== src/Protocol/Server/Response.antt =====
-- `MarshalBinary` and `UnmarshalBinary` of pkg/migp/server.go.
use migp.Base.{
  ℕ, zero, suc, ◌+◌, ◌^◌, ◌≤◌, ◌<◌, ◌≡◌, refl, ap, ap₂, sym, ◌∙◌, ◌↔◌, false, not, Bytes, [], ◌∷◌,
  ◌++◌, some, arith, length, length-append, length-take, take, drop, take_exact, drop_exact, ◌==◌,
  ==_iff,
}
use migp.Base.Outcome.{ok, fail_if, ok-injective}
use migp.Protocol.Libraries.{Oprf}
use migp.Protocol.Server.{ServerResponse, marshal_binary, unmarshal_binary, buffer_read}

buffer_read_whole :
    (buffer : Bytes) (n : ℕ)
    → n ≤ length buffer
    → buffer_read buffer n ≡ ok (take n buffer, drop n buffer)
buffer_read_whole [] zero h = refl
buffer_read_whole [] (suc n) h = absurd (omega arith)
buffer_read_whole (b ∷ buffer) n h = refl

module _ (o : Oprf) (n : ℕ) (size : o.element_length o.default_suite ≡ some n)
    (r : ServerResponse) where
  -- The bytes behind the version.
  body : Bytes
  body = r.evaluated_element ++ r.bucket_contents

  split : ℕ → ServerResponse
  split v = record { version = v; evaluated_element = take n body; bucket_contents = drop n body }

  -- The element is read by the length that the default suite has, whatever was written.
  unmarshal_binary-marshal_binary_any :
      r.version < 2 ^ 32
      → n ≤ length body
      → unmarshal_binary o (marshal_binary r) ≡ ok (split r.version)
  unfolding unmarshal_binary marshal_binary body split
  unmarshal_binary-marshal_binary_any small enough =
      let whole : length (take n body) ≡ n = length-take n body ∙ omega arith in
      let test : not (length (take n body) == n) ≡ false =
        ap not ((==_iff (length (take n body)) n).1 whole) in
      rw
        (
          size,
          buffer_read_whole body n
              (omega (arith, length-append r.evaluated_element r.bucket_contents)),
          test,
          fail_if,
        )
        (ap (λ v. ok (split v)) {y = r.version} (omega arith))

  -- A response survives its encoding exactly if its element has the length of an element of the
  -- default suite. (The element and the contents are at least that long together.)
  pub unmarshal_binary-marshal_binary :
      r.version < 2 ^ 32
      → n ≤ length r.evaluated_element + length r.bucket_contents
      → (unmarshal_binary o (marshal_binary r) ≡ ok r) ↔ (length r.evaluated_element ≡ n)
  unfolding body split
  unmarshal_binary-marshal_binary small enough = (
    λ back.
        let same : split r.version ≡ r = ok-injective (sym read ∙ back) in
        sym (ap (λ t. length t.evaluated_element) same)
        ∙ length-take n body
        ∙ omega (arith, size_of_body),
    λ exact.
        read
        ∙ ap₂
            (λ e c. ok (record { version = r.version; evaluated_element = e; bucket_contents = c }))
            (take_exact n r.evaluated_element r.bucket_contents exact)
            (drop_exact n r.evaluated_element r.bucket_contents exact),
  )
    where
      size_of_body : length body ≡ length r.evaluated_element + length r.bucket_contents
      size_of_body = length-append r.evaluated_element r.bucket_contents

      read : unmarshal_binary o (marshal_binary r) ≡ ok (split r.version)
      read = unmarshal_binary-marshal_binary_any small (omega (arith, size_of_body))
