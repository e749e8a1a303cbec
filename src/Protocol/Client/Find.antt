-- ===== src/Protocol/Client/Find.antt =====
-- What the loop of `Finalize` of pkg/migp/client.go finds in a bucket of entries.
use migp.Base.{
  ℕ, zero, suc, ◌+◌, ◌-◌, ◌^◌, ◌≤◌, ◌<◌, ◌≡◌, refl, ap, ap₂, sym, ◌∙◌, true, false, Bytes, All,
  List, [], ◌∷◌, ◌++◌, Option, some, arith, length, length-append, take, drop-length-append,
  drop_past, ltb, append_assoc, append-nil,
}
use migp.Base.Outcome.{Outcome, ok, ◌>>=◌}
use migp.Protocol.Common.{MetadataType, header_size, to_breach_status}
use migp.Protocol.Libraries.{Crypto, IsCrypto}
use migp.Protocol.Encryptor.{
  hkdf_sha256, derive_pad, derive_pad_header_salt, encrypt, decrypt_header, decrypt_body,
}
use migp.Protocol.Encryptor.Laws.{length-encrypt}
use migp.Protocol.Encryptor.RoundTrip.{found, IsForeign, decrypt-encrypt, decrypt_header_foreign}
use migp.Protocol.Client.{Finding, no_finding, scan_bucket, scan_all}
use migp.Protocol.Client.Scan.{scan_bucket_end, scan_bucket_hit, scan_bucket_skip}

-- An entry of a bucket, with the key and the contents that it was made of.
pub record Stored : Type 0 where
  pub secret : Bytes
  pub flag : MetadataType
  pub body : Bytes
  pub ct : Bytes

pub record IsStored (c : Crypto) (e : Stored) : Type 0 where
  pub encrypted : encrypt c e.secret e.flag e.body ≡ ok e.ct
  pub fits : length e.body < 2 ^ 32
  pub is_byte : e.flag < 256

-- The bytes of a bucket that holds these entries.
abbrev pub contents_of : List Stored → Bytes
contents_of [] = []
contents_of (e ∷ es) = e.ct ++ contents_of es

module _ (c : Crypto) (lawful : IsCrypto c) (key pad : Bytes)
    (derived : derive_pad c key derive_pad_header_salt 21 ≡ ok pad) where
  -- Entries that a reader with the key has to pass over.
  abbrev pub AreForeign : List Stored → Type 0
  AreForeign = All (λ e. IsStored c e × IsForeign c lawful pad e.secret)

  -- The loop in front of a bucket's rest.
  abbrev from : ℕ → Bytes → Bytes → Option (Outcome Finding)
  from rounds front rest = scan_bucket c hkdf_sha256 rounds key (front ++ rest) (length front)

  skip_entry :
      (rounds : ℕ) (front rest : Bytes) (e : Stored)
      → IsStored c e
      → IsForeign c lawful pad e.secret
      → from (suc rounds) front (e.ct ++ rest) ≡ from rounds (front ++ e.ct) rest
  skip_entry rounds front rest e stored foreign =
      let whole = front ++ (e.ct ++ rest) in
      let n = length e.body in
      let size = length-encrypt c lawful e.secret e.flag e.body e.ct stored.encrypted in
      let total : length whole ≡ length front + (header_size + n + length rest) =
        length-append front (e.ct ++ rest) ∙ omega (arith, length-append e.ct rest, size) in
      let room : ltb (length whole) (length front + header_size) ≡ false = ground arith in
      let fits : ltb (length whole) (length front + header_size + n) ≡ false = ground arith in
      let (f, header) =
        decrypt_header_foreign c lawful e.secret e.flag e.body e.ct stored.encrypted stored.fits key
          pad rest derived foreign in
      scan_bucket_skip c hkdf_sha256 rounds key whole (length front) room (found false f n)
        (ap (decrypt_header c key) (drop-length-append front (e.ct ++ rest)) ∙ header) fits refl
      ∙ ap₂ (λ s k. scan_bucket c hkdf_sha256 rounds key s k) (sym (append_assoc front e.ct rest))
          (omega (arith, length-append front e.ct, size))

  skip_entries :
      (es : List Stored) (total rounds : ℕ) (front rest : Bytes)
      → AreForeign es
      → total ≡ length es + rounds
      → from total front (contents_of es ++ rest) ≡ from rounds (front ++ contents_of es) rest
  skip_entries [] total rounds front rest h e =
      ap₂ (λ k s. from k s rest) {x = total} {y = rounds} (omega arith) (sym (append-nil front))
  skip_entries (e ∷ es) zero rounds front rest h k = absurd (omega arith)
  skip_entries (e ∷ es) (suc total) rounds front rest ((stored, foreign), h) k =
      ap (from (suc total) front) (append_assoc e.ct (contents_of es) rest)
      ∙ skip_entry total front (contents_of es ++ rest) e stored foreign
      ∙ skip_entries es total rounds (front ++ e.ct) rest h (omega arith)
      ∙ ap (λ s. from rounds s rest) (append_assoc front e.ct (contents_of es))

  length-contents_of : (es : List Stored) → AreForeign es → length es ≤ length (contents_of es)
  length-contents_of [] h = omega arith
  length-contents_of (e ∷ es) ((stored, foreign), h) = omega (
    arith,
    length-append e.ct (contents_of es),
    length-encrypt c lawful e.secret e.flag e.body e.ct stored.encrypted,
    length-contents_of es h,
  )

  hit_entry :
      (rounds : ℕ) (front rest : Bytes) (flag : MetadataType) (body ct : Bytes)
      → encrypt c key flag body ≡ ok ct
      → length body < 2 ^ 32
      → flag < 256
      → from (suc rounds) front (ct ++ rest)
        ≡ some (ok (record { status = to_breach_status flag; metadata = body }))
  hit_entry rounds front rest flag body ct encrypted small is_byte =
      let whole = front ++ (ct ++ rest) in
      let n = length body in
      let (header, opened, size) =
        decrypt-encrypt c lawful key flag body ct rest encrypted small is_byte in
      let total : length whole ≡ length front + (header_size + n + length rest) =
        length-append front (ct ++ rest) ∙ omega (arith, length-append ct rest, size) in
      let room : ltb (length whole) (length front + header_size) ≡ false = ground arith in
      let fits : ltb (length whole) (length front + header_size + n) ≡ false = ground arith in
      let behind = drop_past front (ct ++ rest) (length front + header_size) header_size refl in
      scan_bucket_hit c hkdf_sha256 rounds key whole (length front) room (found true flag n)
        (ap (decrypt_header c key) (drop-length-append front (ct ++ rest)) ∙ header) fits refl
      ∙ ap (λ o. some (o >>= λ b. ok (record { status = to_breach_status flag; metadata = b })))
          (ap (λ s. decrypt_body c key (take n s)) behind ∙ opened)

  end_of_bucket : (rounds : ℕ) (front : Bytes) → from (suc rounds) front [] ≡ some (ok no_finding)
  end_of_bucket rounds front =
      scan_bucket_end c hkdf_sha256 rounds key (front ++ []) (length front)
        (omega (arith, length-append {0} front []))

  -- The rounds of `scan_all`, after the entries in front.
  rounds_left :
      (es : List Stored) (rest : Bytes)
      → AreForeign es
      → (rounds : ℕ) × (suc (length (contents_of es ++ rest)) ≡ length es + suc rounds)
  rounds_left es rest h = (
    length (contents_of es ++ rest) - length es,
    omega (arith, length-append (contents_of es) rest, length-contents_of es h),
  )

  scan_all_skips :
      (es : List Stored) (rest : Bytes) (r : Outcome Finding)
      → AreForeign es
      → ((rounds : ℕ) → from (suc rounds) (contents_of es) rest ≡ some r)
      → scan_all c hkdf_sha256 key (contents_of es ++ rest) ≡ r
  scan_all_skips es rest r h at_rest =
      let (rounds, e) = rounds_left es rest h in
      let scanned = skip_entries es _ (suc rounds) [] rest h e ∙ at_rest rounds in
      rw (scanned, scan_all)

  -- In a bucket of entries that are all foreign to a key, followed by one that was encrypted under the
  -- key, with a flag that is a byte and a body below 2 ^ 32 bytes, and by any bytes: the loop passes
  -- over the entries in front and returns the status of that entry's flag and its body.
  pub scan_all_finds :
      (before : List Stored) (flag : MetadataType) (body ct rest : Bytes)
      → AreForeign before
      → encrypt c key flag body ≡ ok ct
      → length body < 2 ^ 32
      → flag < 256
      → scan_all c hkdf_sha256 key (contents_of before ++ (ct ++ rest))
        ≡ ok (record { status = to_breach_status flag; metadata = body })
  scan_all_finds before flag body ct rest foreign encrypted small is_byte =
      scan_all_skips before (ct ++ rest) _ foreign
        (λ rounds. hit_entry rounds (contents_of before) rest flag body ct encrypted small is_byte)

  -- In a bucket of entries that are all foreign to a key the loop finds nothing, and fails nowhere.
  pub scan_all_misses :
      (es : List Stored)
      → AreForeign es
      → scan_all c hkdf_sha256 key (contents_of es) ≡ ok no_finding
  scan_all_misses es foreign =
      ap (scan_all c hkdf_sha256 key) (sym (append-nil (contents_of es)))
      ∙ scan_all_skips es [] _ foreign (λ rounds. end_of_bucket rounds (contents_of es))
