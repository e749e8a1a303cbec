-- ===== src/Protocol/Encryptor/Laws.antt =====
-- Encryption and decryption of an entry, of pkg/migp/encryptor.go.
use migp.Base.{
  ℕ, zero, suc, ◌+◌, ◌≡◌, ◌≢◌, refl, ap, sym, ◌∙◌, inl, inr, not, Bytes, [], ◌∷◌, ◌++◌, some, arith,
  make, be32, fill_three, uint32, byte, length, length-append, get_elem?, take, replicate, bit_xor,
  bit_xor_cancel, zero-bit_xor, ◌==◌, ==_iff, Bool-cases, Option-cases,
}
use migp.Base.Outcome.{ok, panic, panic_if, >>=-eq-ok, ok-injective}
use migp.Protocol.Common.{MetadataType, header_size}
use migp.Protocol.Libraries.{Crypto, IsCrypto}
use migp.Protocol.Encryptor.{
  xor_loop, xor_bytes, derive_pad, encrypt, derive_pad_header_salt, derive_pad_body_salt,
}

pub length-xor_loop : (a b : Bytes) → length a ≡ length b → length (xor_loop a b) ≡ length a
unfolding xor_loop
length-xor_loop [] b h = refl
length-xor_loop (x ∷ a) [] h = absurd (omega arith)
length-xor_loop (x ∷ a) (y ∷ b) h = ap suc (length-xor_loop a b (omega arith))

pub xor_loop_twice : (a b : Bytes) → length a ≡ length b → xor_loop (xor_loop a b) b ≡ a
unfolding xor_loop
xor_loop_twice [] b h = refl
xor_loop_twice (x ∷ a) [] h = absurd (omega arith)
xor_loop_twice (x ∷ a) (y ∷ b) h = cc (bit_xor_cancel x y, xor_loop_twice a b (omega arith))

pub xor_bytes_same : (a b : Bytes) → length a ≡ length b → xor_bytes a b ≡ ok (xor_loop a b)
unfolding xor_bytes
xor_bytes_same a b h = rw ((==_iff (length a) (length b)).1 h, not, panic_if)

-- `xorBytes` of two slices of one length gives a slice of that length, from which the second slice
-- gives the first back; it panics where the lengths differ.
pub xor_bytes-xor_bytes :
    (a b : Bytes)
    → (length a ≡ length b
        → (x : Bytes) × (xor_bytes a b ≡ ok x) × (length x ≡ length a) × (xor_bytes x b ≡ ok a))
      × (length a ≢ length b → xor_bytes a b ≡ panic)
xor_bytes-xor_bytes a b = (
  λ h. (
    xor_loop a b,
    xor_bytes_same a b h,
    length-xor_loop a b h,
    xor_bytes_same (xor_loop a b) b (length-xor_loop a b h ∙ h) ∙ ap ok (xor_loop_twice a b h),
  ),
  λ differ. unfold xor_bytes in ground (arith, differ),
)

-- The header that is encrypted is zero but for its last byte: the pad shows through.
pub take-xor_zeros :
    (n f : ℕ) (pad : Bytes)
    → length pad ≡ suc n
    → (take n (xor_loop (replicate n 0 ++ f ∷ []) pad) ≡ take n pad)
      × ((p : ℕ) × (get_elem? pad n ≡ some p)
          × (get_elem? (xor_loop (replicate n 0 ++ f ∷ []) pad) n ≡ some (bit_xor f p)))
unfolding xor_loop
take-xor_zeros n f [] h = absurd (omega arith)
take-xor_zeros zero f (p ∷ pad) h = (refl, (p, refl, refl))
take-xor_zeros (suc n) f (p ∷ pad) h =
    let (before, (q, at_pad, at_xor)) = take-xor_zeros n f pad (omega arith) in
    (cc (before, zero-bit_xor p), (q, at_pad, at_xor))

-- The plain header of an entry.
abbrev pub header_of : MetadataType → Bytes
header_of flag = replicate 20 0 ++ byte flag ∷ []

-- The parts of an encrypted entry.
pub record Entry (c : Crypto) (secret : Bytes) (flag : MetadataType) (body ct : Bytes)
    : Type 0 where
  pub header_pad : Bytes
  pub body_pad : Bytes
  pub header_derived : derive_pad c secret derive_pad_header_salt 21 ≡ ok header_pad
  pub body_derived : derive_pad c secret derive_pad_body_salt (length body) ≡ ok body_pad
  pub parts :
      ct
      ≡ xor_loop (header_of flag) header_pad
        ++ (be32 (uint32 (length body)) ++ xor_loop body body_pad)

module _ (c : Crypto) (lawful : IsCrypto c) where
  pub length-derive_pad :
      (secret salt : Bytes) (n : ℕ) (pad : Bytes)
      → derive_pad c secret salt n ≡ ok pad
      → length pad ≡ n
  unfolding derive_pad
  length-derive_pad secret salt n pad e = elim (Option-cases (c.hkdf_read secret salt n)) [
    | inl failed ↦ let bad = rw (failed, derive_pad) at e in absurd (cc)
    | inr ((p, k), read) ↦ elim (Bool-cases (k == n)) [
      | inl whole ↦
          let same : ok p ≡ ok pad = rw (read, derive_pad, whole) at e in
          lawful.pad_length secret salt n pad k (read ∙ ap (λ q. some (q, k)) (ok-injective same))
      | inr short ↦ let bad = rw (read, derive_pad, short) at e in absurd (cc)
    ]
  ]

  pub encrypt-Entry :
      (secret : Bytes) (flag : MetadataType) (body ct : Bytes)
      → encrypt c secret flag body ≡ ok ct
      → Entry c secret flag body ct
  unfolding encrypt make
  encrypt-Entry secret flag body ct e =
      let (hp, he, rest) = >>=-eq-ok (derive_pad c secret derive_pad_header_salt 21) _ e in
      let (eh, xh, rest) = >>=-eq-ok (xor_bytes (header_of flag) hp) _ rest in
      let (bp, be, rest) =
        >>=-eq-ok (derive_pad c secret derive_pad_body_salt (length body)) _ rest in
      let (eb, xb, rest) = >>=-eq-ok (xor_bytes body bp) _ rest in
      let hl = length-derive_pad secret derive_pad_header_salt 21 hp he in
      let bl = length-derive_pad secret derive_pad_body_salt (length body) bp be in
      let head : eh ≡ xor_loop (header_of flag) hp =
        sym (ok-injective (sym (xor_bytes_same (header_of flag) hp (omega arith)) ∙ xh)) in
      let tail : eb ≡ xor_loop body bp =
        sym (ok-injective (sym (xor_bytes_same body bp (sym bl)) ∙ xb)) in
      let size : length eb ≡ length body = ap length tail ∙ length-xor_loop body bp (sym bl) in
      record {
        header_pad = hp;
        body_pad = bp;
        header_derived = he;
        body_derived = be;
        parts =
            sym (ok-injective rest)
            ∙ fill_three _ (length eh) (length eh + 4) eh (be32 (uint32 (length eb))) eb refl refl
                refl
            ∙ parts_path head (ap (λ n. be32 (uint32 n)) size) tail;
      }
    where
      parts_path :
          {a a' b b' d d' : Bytes} → a ≡ a' → b ≡ b' → d ≡ d' → a ++ (b ++ d) ≡ a' ++ (b' ++ d')
      parts_path p q r = λ i. p i ++ (q i ++ r i)

  pub length_header :
      (flag : MetadataType) (pad : Bytes)
      → length pad ≡ 21
      → length (xor_loop (header_of flag) pad) ≡ 21
  length_header flag pad h = length-xor_loop (header_of flag) pad (omega arith)

  -- An encrypted entry is as long as its header and its body together.
  pub length-encrypt :
      (secret : Bytes) (flag : MetadataType) (body ct : Bytes)
      → encrypt c secret flag body ≡ ok ct
      → length ct ≡ header_size + length body
  length-encrypt secret flag body ct e =
      let t = encrypt-Entry secret flag body ct e in
      let hl = length-derive_pad secret derive_pad_header_salt 21 t.header_pad t.header_derived in
      let bl =
        length-derive_pad secret derive_pad_body_salt (length body) t.body_pad t.body_derived in
      ap length t.parts
      ∙ omega (
        arith,
        length-append (xor_loop (header_of flag) t.header_pad)
            (be32 (uint32 (length body)) ++ xor_loop body t.body_pad),
        length_header flag t.header_pad hl,
        length-xor_loop body t.body_pad (sym bl),
      )
