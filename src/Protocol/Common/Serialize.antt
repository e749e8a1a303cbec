-- ===== src/Protocol/Common/Serialize.antt =====
-- The encoding of a credential pair: `serializeUsernamePassword` of pkg/migp/common.go.
use migp.Base.{
  ℕ, ◌-◌, ◌^◌, ◌≤◌, ◌<◌, ◌≡◌, refl, ap, sym, ◌∙◌, inl, inr, Bool, false, ◌||◌, Bytes, [], ◌∷◌, ◌++◌,
  arith, length, length-append, ltb, be16, be16_injective, uint16, fill_four, append_split,
  append_assoc, Bool-cases, if◌then◌else◌,
}
use migp.Base.Outcome.{ok, panic, panic_if}
use migp.Protocol.Common.{serialize_username_password}

-- The four parts side by side.
abbrev pub serialized : Bytes → Bytes → Bytes
serialized username password =
    be16 (uint16 (length username)) ++ (username ++ (be16 (uint16 (length password)) ++ password))

abbrev too_long : Bytes → Bytes → Bool
too_long username password = ltb (2 ^ 16) (length username) || ltb (2 ^ 16) (length password)

-- The code panics if a part is longer than 2 ^ 16 bytes, and else writes both lengths, as uint16,
-- each before its part.
pub serialize_username_password_lem :
    (username password : Bytes)
    → serialize_username_password username password
      ≡ (if too_long username password then panic else ok (serialized username password))
unfolding serialize_username_password
serialize_username_password_lem username password = elim (Bool-cases (too_long username password)) [
  | inl long ↦ rw (long, panic_if)
  | inr short ↦
      rw (short, panic_if)
        (ap ok (
          fill_four _ 2 _ _ (be16 (uint16 (length username))) username
            (be16 (uint16 (length password))) password refl (omega arith) (omega arith)
            (omega arith)))
]

regroup :
    (u p x : Bytes) (lu lp : ℕ)
    → (be16 lu ++ (u ++ (be16 lp ++ p))) ++ x ≡ be16 lu ++ (u ++ (be16 lp ++ (p ++ x)))
regroup u p x lu lp = simp append_assoc

-- Two texts behind their uint16 lengths, at the front of two equal texts, are equal.
length_prefix_split :
    (s s' x y : Bytes)
    → length s < 2 ^ 16
    → length s' < 2 ^ 16
    → be16 (uint16 (length s)) ++ (s ++ x) ≡ be16 (uint16 (length s')) ++ (s' ++ y)
    → (s ≡ s') × (x ≡ y)
length_prefix_split s s' x y h h' e =
    let (lengths, rest) =
      append_split (be16 (uint16 (length s))) (be16 (uint16 (length s'))) _ _ refl e in
    let same =
      be16_injective (uint16 (length s)) (uint16 (length s')) (omega arith) (omega arith) lengths in
    append_split s s' x y (omega arith) rest

serialized_ok : (u p a : Bytes) → serialize_username_password u p ≡ ok a → a ≡ serialized u p
serialized_ok u p a e = elim (Bool-cases (too_long u p)) [
  | inl long ↦
      let bad : panic ≡ ok a = rw (serialize_username_password_lem, long) at e in absurd (cc)
  | inr short ↦
      let good : ok (serialized u p) ≡ ok a = rw (serialize_username_password_lem, short) at e in cc
]

-- Below 2 ^ 16 bytes the encoding of a credential pair is injective and free of prefixes: if two
-- encodings, each with some text behind it, are equal, then so are the usernames, the passwords and
-- the texts behind.
pub serialize_username_password-prefix_free :
    (u p u' p' a a' x y : Bytes)
    → length u < 2 ^ 16
    → length p < 2 ^ 16
    → length u' < 2 ^ 16
    → length p' < 2 ^ 16
    → serialize_username_password u p ≡ ok a
    → serialize_username_password u' p' ≡ ok a'
    → a ++ x ≡ a' ++ y
    → (u ≡ u') × (p ≡ p') × (x ≡ y)
serialize_username_password-prefix_free u p u' p' a a' x y hu hp hu' hp' e e' same =
    let joined : serialized u p ++ x ≡ serialized u' p' ++ y =
      sym (ap (λ t. t ++ x) (serialized_ok u p a e))
      ∙ same
      ∙ ap (λ t. t ++ y) (serialized_ok u' p' a' e') in
    let grouped = sym (regroup u p x _ _) ∙ joined ∙ regroup u' p' y _ _ in
    let (users, rest) = length_prefix_split u u' _ _ hu hu' grouped in
    let (passwords, tails) = length_prefix_split p p' x y hp hp' rest in (users, passwords, tails)

serialize_fits :
    (u p : Bytes)
    → length u ≤ 2 ^ 16
    → length p ≤ 2 ^ 16
    → serialize_username_password u p ≡ ok (serialized u p)
serialize_fits u p hu hp =
    let short : too_long u p ≡ false = ground arith in rw (serialize_username_password_lem, short)

-- A part of exactly 2 ^ 16 bytes is let through, and its length is written as 0: then two different
-- pairs, of which one has an empty username, are both given the same encoding, for every text of
-- 2 ^ 16 - 2 bytes.
pub serialize_username_password-collision :
    (w : Bytes)
    → length w ≡ 2 ^ 16 - 2
    → (serialize_username_password (0 ∷ 0 ∷ w) [] ≡ ok (serialized (0 ∷ 0 ∷ w) []))
      × (serialize_username_password [] (w ++ 0 ∷ 0 ∷ []) ≡ ok (serialized (0 ∷ 0 ∷ w) []))
serialize_username_password-collision w h = (
  serialize_fits (0 ∷ 0 ∷ w) [] (omega arith) (omega arith),
  serialize_fits [] (w ++ 0 ∷ 0 ∷ []) (omega arith) (omega (arith, length-append w (0 ∷ 0 ∷ [])))
      ∙ ap ok (sym same),
)
  where
    left : uint16 (length (0 ∷ 0 ∷ w)) ≡ 0
    left = omega arith

    right : uint16 (length (w ++ 0 ∷ 0 ∷ [])) ≡ 0
    right = omega (arith, length-append w (0 ∷ 0 ∷ []))

    same : serialized (0 ∷ 0 ∷ w) [] ≡ serialized [] (w ++ 0 ∷ 0 ∷ [])
    same =
        ap (λ v. be16 v ++ (0 ∷ 0 ∷ (w ++ 0 ∷ 0 ∷ []))) left
        ∙ sym (ap (λ v. be16 0 ++ (be16 v ++ (w ++ 0 ∷ 0 ∷ []))) right)
