-- ===== src/Protocol/Client/Scan.antt =====
-- The loop of `Finalize` of pkg/migp/client.go over the entries of a bucket.
use migp.Base.{
  ℕ, zero, suc, ◌+◌, ◌≤◌, ◌<◌, ◌≡◌, refl, ◌∙◌, inl, inr, true, false, Bytes, some, arith, length,
  take, drop, ltb, Bool-cases, lt→ltb,
}
use migp.Base.Outcome.{Outcome, Error, ok, err, panic, ◌>>=◌, bucket_parse_error}
use migp.Protocol.Common.{header_size, to_breach_status}
use migp.Protocol.Libraries.{Crypto}
use migp.Protocol.Encryptor.{BucketEncryptor, Header}
use migp.Protocol.Client.{
  Finding, no_finding, scan_bucket, scan_all, decrypt_header_with, decrypt_body_with,
}

-- One round of the loop, on each of its branches.
module _ (c : Crypto) (encryptor : BucketEncryptor) (rounds : ℕ) (secret contents : Bytes)
    (offset : ℕ) where
  pub scan_bucket_end :
      length contents < offset + header_size
      → scan_bucket c encryptor (suc rounds) secret contents offset ≡ some (ok no_finding)
  unfolding scan_bucket
  scan_bucket_end h = rw (lt→ltb _ _ h, scan_bucket)

  module _ (room : ltb (length contents) (offset + header_size) ≡ false) (h : Header)
      (header : decrypt_header_with c encryptor secret (drop offset contents) ≡ ok h) where
    scan_bucket_overrun :
        ltb (length contents) (offset + header_size + h.body_length) ≡ true
        → scan_bucket c encryptor (suc rounds) secret contents offset
          ≡ some (err bucket_parse_error)
    unfolding scan_bucket
    scan_bucket_overrun e = rw (room, header, e, scan_bucket)

    pub scan_bucket_hit :
        ltb (length contents) (offset + header_size + h.body_length) ≡ false
        → h.key_check ≡ true
        → scan_bucket c encryptor (suc rounds) secret contents offset
          ≡ some (
              decrypt_body_with c encryptor secret
                (take h.body_length (drop (offset + header_size) contents))
              >>= λ metadata. ok (record { status = to_breach_status h.flag; metadata = metadata }))
    unfolding scan_bucket
    scan_bucket_hit e k = rw (room, header, e, k, scan_bucket)

    pub scan_bucket_skip :
        ltb (length contents) (offset + header_size + h.body_length) ≡ false
        → h.key_check ≡ false
        → scan_bucket c encryptor (suc rounds) secret contents offset
          ≡ scan_bucket c encryptor rounds secret contents (offset + header_size + h.body_length)
    unfolding scan_bucket
    scan_bucket_skip e k = rw (room, header, e, k, scan_bucket)

  module _ (room : ltb (length contents) (offset + header_size) ≡ false) where
    scan_bucket_header_err :
        (e : Error)
        → decrypt_header_with c encryptor secret (drop offset contents) ≡ err e
        → scan_bucket c encryptor (suc rounds) secret contents offset ≡ some (err e)
    unfolding scan_bucket
    scan_bucket_header_err e header = rw (room, header, scan_bucket)

    scan_bucket_header_panic :
        decrypt_header_with c encryptor secret (drop offset contents) ≡ panic
        → scan_bucket c encryptor (suc rounds) secret contents offset ≡ some panic
    unfolding scan_bucket
    scan_bucket_header_panic header = rw (room, header, scan_bucket)

module _ (c : Crypto) (encryptor : BucketEncryptor) (secret contents : Bytes) where
  -- The loop with these rounds from this offset comes to an end.
  abbrev Ends : ℕ → ℕ → Type 0
  Ends rounds offset =
      (r : Outcome Finding) × (scan_bucket c encryptor rounds secret contents offset ≡ some r)

  Ends-behind_header :
      (rounds offset : ℕ)
      → ltb (length contents) (offset + header_size) ≡ false
      → ((n : ℕ)
          → ltb (length contents) (offset + header_size + n) ≡ false
          → Ends rounds (offset + header_size + n))
      → (d : Outcome Header) → decrypt_header_with c encryptor secret (drop offset contents) ≡ d
      → Ends (suc rounds) offset
  Ends-behind_header rounds offset room rest (err e) header =
      (err e, scan_bucket_header_err c encryptor rounds secret contents offset room e header)
  Ends-behind_header rounds offset room rest panic header =
      (panic, scan_bucket_header_panic c encryptor rounds secret contents offset room header)
  Ends-behind_header rounds offset room rest (ok h) header =
      elim (Bool-cases (ltb (length contents) (offset + header_size + h.body_length))) [
        | inl over ↦
            (_, scan_bucket_overrun c encryptor rounds secret contents offset room h header over)
        | inr fits ↦ elim (Bool-cases h.key_check) [
          | inl k ↦
              (_, scan_bucket_hit c encryptor rounds secret contents offset room h header fits k)
          | inr k ↦
              let (r, e) = rest h.body_length fits in
              (
                r,
                scan_bucket_skip c encryptor rounds secret contents offset room h header fits k ∙ e,
              )
        ]
      ]

  -- As many rounds as there are bytes behind the offset, and one more, are enough, whatever the
  -- bytes are.
  scan_bucket-Ends :
      (rounds offset : ℕ)
      → offset ≤ length contents
      → length contents < offset + rounds
      → Ends rounds offset
  scan_bucket-Ends zero offset h k = absurd (omega arith)
  scan_bucket-Ends (suc rounds) offset h k =
      elim (Bool-cases (ltb (length contents) (offset + header_size))) [
        | inl short ↦ (
          ok no_finding,
          scan_bucket_end c encryptor rounds secret contents offset (ground arith),
        )
        | inr room ↦
            Ends-behind_header rounds offset room
              (λ n e.
                let inside : offset + header_size + n ≤ length contents = ground arith in
                scan_bucket-Ends rounds (offset + header_size + n) inside (omega arith))
              _ refl
      ]

  -- The loop of `Finalize` ends on every bucket and under every key: the rounds that the model gives
  -- it are enough, and its result is what the last of them returns.
  pub scan_all_ends :
      (r : Outcome Finding) × (scan_bucket c encryptor (suc (length contents)) secret contents 0
        ≡ some r)
      × (scan_all c encryptor secret contents ≡ r)
  scan_all_ends =
      let (r, e) = scan_bucket-Ends (suc (length contents)) 0 (omega arith) (omega arith) in
      (r, e, rw (e, scan_all))
