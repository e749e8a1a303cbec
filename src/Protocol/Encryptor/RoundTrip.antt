-- ===== src/Protocol/Encryptor/RoundTrip.antt =====
-- Decryption undoes encryption: pkg/migp/encryptor.go.
use migp.Base.{
  ℕ, ◌+◌, ◌^◌, ◌<◌, ◌≡◌, ap, ap₂, sym, ◌∙◌, Bool, true, false, Bytes, ◌++◌, some, arith, be32,
  uint32, byte, length, length-append, get_elem?, take, drop, take_exact, drop_exact, take_prefix,
  get_elem?_prefix, get_elem?_inside, bit_xor, bit_xor_cancel_left, ltb, bytes_eq, bytes_eq_self,
  append_assoc,
}
use migp.Base.Outcome.{ok, fail_if}
use migp.Protocol.Common.{MetadataType, header_size}
use migp.Protocol.Libraries.{Crypto, IsCrypto}
use migp.Protocol.Encryptor.{
  xor_loop, derive_pad, encrypt, decrypt_header, decrypt_body, Header, derive_pad_header_salt,
  derive_pad_body_salt,
}
use migp.Protocol.Encryptor.Laws.{
  Entry, encrypt-Entry, header_of, length_header, length-encrypt, length-derive_pad,
  length-xor_loop, xor_bytes_same, xor_loop_twice, take-xor_zeros,
}

-- What `DecryptHeader` returns.
abbrev pub found : Bool → MetadataType → ℕ → Header
found k f n = record { key_check = k; flag = f; body_length = n }

module _ (c : Crypto) (lawful : IsCrypto c) where
  -- What `DecryptHeader` reads of the three parts of an entry, under any key.
  decrypt_header_parts :
      (key pad eh eb : Bytes) (v p q : ℕ)
      → derive_pad c key derive_pad_header_salt 21 ≡ ok pad
      → get_elem? pad 20 ≡ some p
      → length eh ≡ 21
      → get_elem? eh 20 ≡ some q
      → v < 2 ^ 32
      → decrypt_header c key (eh ++ (be32 v ++ eb))
        ≡ ok (record {
          key_check = bytes_eq (take 20 pad) (take 20 eh);
          flag = bit_xor p q;
          body_length = v;
        })
  unfolding decrypt_header
  decrypt_header_parts key pad eh eb v p q derived at_pad len at_header small =
      let room : ltb (length (eh ++ (be32 v ++ eb))) header_size ≡ false =
        ground (arith, length-append eh (be32 v ++ eb)) in
      let front = take_prefix 20 eh (be32 v ++ eb) (omega arith) in
      let flag_byte = get_elem?_prefix 20 eh (be32 v ++ eb) (omega arith) ∙ at_header in
      let behind = drop_exact 21 eh (be32 v ++ eb) len in
      rw (room, fail_if, derived, at_pad, flag_byte, front, behind)
        (ap (λ n. ok (found (bytes_eq (take 20 pad) (take 20 eh)) (bit_xor p q) n)) {y = v}
          (omega arith))

  -- The key check on an entry: do the two keys give header pads with the same first 20 bytes?
  abbrev pub pads_agree : Bytes → Bytes → Bool
  pads_agree pad pad' = bytes_eq (take 20 pad) (take 20 pad')

  module _ (secret : Bytes) (flag : MetadataType) (body ct : Bytes)
      (encrypted : encrypt c secret flag body ≡ ok ct) (fits : length body < 2 ^ 32) where
    pub t : Entry c secret flag body ct
    t = encrypt-Entry c lawful secret flag body ct encrypted

    -- The encrypted header and the encrypted body.
    eh : Bytes
    eh = xor_loop (header_of flag) t.header_pad

    eb : Bytes
    eb = xor_loop body t.body_pad

    own_length : length t.header_pad ≡ 21
    own_length = length-derive_pad c lawful secret derive_pad_header_salt 21 _ t.header_derived

    body_pad_length : length body ≡ length t.body_pad
    body_pad_length =
        sym (length-derive_pad c lawful secret derive_pad_body_salt (length body) _ t.body_derived)

    with_rest : (rest : Bytes) → ct ++ rest ≡ eh ++ (be32 (length body) ++ (eb ++ rest))
    unfolding eh eb
    with_rest rest =
        ap (λ s. s ++ rest) t.parts
        ∙ ap (λ n. (eh ++ (be32 n ++ eb)) ++ rest) {x = uint32 (length body)} {y = length body}
            (omega arith)
        ∙ append_assoc eh (be32 (length body) ++ eb) rest

    -- Under any key the header of an entry gives the length of its body, and the key check passes
    -- exactly if the two keys agree on it.
    pub decrypt_header_any :
        (key pad rest : Bytes)
        → derive_pad c key derive_pad_header_salt 21 ≡ ok pad
        → (f : ℕ) × (decrypt_header c key (ct ++ rest)
            ≡ ok (found (pads_agree pad t.header_pad) f (length body)))
    unfolding eh
    decrypt_header_any key pad rest derived =
        let (p, at_pad) =
          get_elem?_inside 20 pad
            (omega (arith, length-derive_pad c lawful key derive_pad_header_salt 21 pad derived)) in
        let (front, (q, _, at_header)) = take-xor_zeros 20 (byte flag) t.header_pad own_length in
        (
          bit_xor p (bit_xor (byte flag) q),
          ap (decrypt_header c key) (with_rest rest)
              ∙ decrypt_header_parts key pad eh (eb ++ rest) (length body) p (bit_xor (byte flag) q)
                  derived at_pad (length_header c lawful flag t.header_pad own_length) at_header
                  fits
              ∙ ap
                  (λ s. ok (
                    found (bytes_eq (take 20 pad) s) (bit_xor p (bit_xor (byte flag) q))
                      (length body)))
                  front,
        )

    decrypt_header_own :
        (rest : Bytes)
        → flag < 256
        → decrypt_header c secret (ct ++ rest) ≡ ok (found true flag (length body))
    unfolding eh
    decrypt_header_own rest is_byte =
        let (front, (q, at_pad, at_header)) =
          take-xor_zeros 20 (byte flag) t.header_pad own_length in
        let same : byte flag ≡ flag = omega arith in
        ap (decrypt_header c secret) (with_rest rest)
        ∙ decrypt_header_parts secret t.header_pad eh (eb ++ rest) (length body) q
            (bit_xor (byte flag) q) t.header_derived at_pad
            (length_header c lawful flag t.header_pad own_length) at_header fits
        ∙ ap
            (λ s. ok (
              found (bytes_eq (take 20 t.header_pad) s) (bit_xor q (bit_xor (byte flag) q))
                (length body)))
            front
        ∙ ap₂ (λ k f. ok (found k f (length body))) (bytes_eq_self (take 20 t.header_pad))
            (bit_xor_cancel_left (byte flag) q ∙ same)

    body_part : (rest : Bytes) → take (length body) (drop header_size (ct ++ rest)) ≡ eb
    unfolding eh eb
    body_part rest =
        let header_length = length_header c lawful flag t.header_pad own_length in
        let size : length (eh ++ be32 (length body)) ≡ header_size =
          length-append eh (be32 (length body)) ∙ omega (arith, header_length) in
        ap (λ s. take (length body) (drop header_size s))
          (with_rest rest ∙ sym (append_assoc eh (be32 (length body)) (eb ++ rest)))
        ∙ ap (take (length body))
            (drop_exact header_size (eh ++ be32 (length body)) (eb ++ rest) size)
        ∙ take_exact (length body) eb rest (length-xor_loop body t.body_pad body_pad_length)

    decrypt_body_own :
        (rest : Bytes)
        → decrypt_body c secret (take (length body) (drop header_size (ct ++ rest))) ≡ ok body
    unfolding decrypt_body eb
    decrypt_body_own rest =
        let size = length-xor_loop body t.body_pad body_pad_length in
        ap (decrypt_body c secret) (body_part rest)
        ∙ rw (size, t.body_derived)
            (xor_bytes_same eb t.body_pad (size ∙ body_pad_length)
              ∙ ap ok (xor_loop_twice body t.body_pad body_pad_length))

  -- An entry that was encrypted under a key, with a body below 2 ^ 32 bytes, at the front of any
  -- bytes: with the same key the key check passes, the flag, the length of the body and the body come
  -- back, and the entry takes exactly the bytes of its header and its body.
  pub decrypt-encrypt :
      (secret : Bytes) (flag : MetadataType) (body ct rest : Bytes)
      → encrypt c secret flag body ≡ ok ct
      → length body < 2 ^ 32
      → flag < 256
      → (decrypt_header c secret (ct ++ rest) ≡ ok (found true flag (length body)))
        × (decrypt_body c secret (take (length body) (drop header_size (ct ++ rest))) ≡ ok body)
        × (length ct ≡ header_size + length body)
  decrypt-encrypt secret flag body ct rest encrypted fits is_byte = (
    decrypt_header_own secret flag body ct encrypted fits rest is_byte,
    decrypt_body_own secret flag body ct encrypted fits rest,
    length-encrypt c lawful secret flag body ct encrypted,
  )

  -- The keys of the entry and of the reader give header pads that differ in their first 20 bytes.
  abbrev pub IsForeign : Bytes → Bytes → Type 0
  IsForeign pad secret =
      (own : Bytes)
      → derive_pad c secret derive_pad_header_salt 21 ≡ ok own
      → pads_agree pad own ≡ false

  -- Read with a key that is foreign to it, an entry fails the key check and gives its length.
  pub decrypt_header_foreign :
      (secret : Bytes) (flag : MetadataType) (body ct : Bytes)
      → encrypt c secret flag body ≡ ok ct
      → length body < 2 ^ 32
      → (key pad rest : Bytes) → derive_pad c key derive_pad_header_salt 21 ≡ ok pad
      → IsForeign pad secret
      → (f : ℕ) × (decrypt_header c key (ct ++ rest) ≡ ok (found false f (length body)))
  decrypt_header_foreign secret flag body ct encrypted fits key pad rest derived foreign =
      let own = t secret flag body ct encrypted fits in
      let (f, e) = decrypt_header_any secret flag body ct encrypted fits key pad rest derived in
      (f, e ∙ ap (λ k. ok (found k f (length body))) (foreign own.header_pad own.header_derived))
