-- ===== src/Mutator/Case/Positions.antt =====
-- `changeCap` of pkg/mutator/rdasmutator.go at every position of an ASCII buffer.
use migp.Base.{
  ℕ, zero, suc, ◌+◌, ◌-◌, ◌<◌, ◌≡◌, refl, ap, ap₂, sym, ◌∙◌, inl, inr, Bool, true, false, Bytes,
  All, [], ◌∷◌, none, some, arith, length, get_elem?, set, leb, ◌==◌, ==_iff, Bool-cases,
  Option-cases, if◌then◌else◌,
}
use migp.Base.Utf8.{within}
use migp.Base.Int.{ℤ, pos, negsuc, ◌+ℤ◌, sub_ℕ}
use migp.Base.Outcome.{ok, err, panic, Outcome-cases}
use migp.Mutator.Case.{switch_case, write_case, change_cap_at, change_cap}
use migp.Mutator.Case.Laws.{
  holds_below, holds_below_lem, change_cap_at-some, change_cap_at-none, All-get_elem?,
}

-- The other case of an ASCII letter; other characters have none.
abbrev pub flipped : ℕ → ℕ
flipped b = if within b'A' b'Z' b then b + 32 else if within b'a' b'z' b then b - 32 else b

-- One character of a buffer flipped, or none where there is no such character.
abbrev pub flip_nth : Bytes → ℕ → Bytes
flip_nth [] k = []
flip_nth (b ∷ s) zero = flipped b ∷ s
flip_nth (b ∷ s) (suc k) = b ∷ flip_nth s k

-- The position is counted from the front, or from the back, where -1 is the last character.
abbrev pub flipped_at : Bytes → ℤ → Bytes
flipped_at s (pos p) = flip_nth s p
flipped_at s (negsuc n) = if leb (suc n) (length s) then flip_nth s (length s - suc n) else s

abbrev flips : ℕ → Bool
flips b = elim (switch_case b) [ ok c ↦ c == flipped b | err e ↦ b == flipped b | panic ↦ false ]

flips_table : holds_below flips 128 ≡ true
unfolding holds_below switch_case
flips_table = refl

flip_nth-none : (s : Bytes) (p : ℕ) → get_elem? s p ≡ none → flip_nth s p ≡ s
flip_nth-none [] p e = refl
flip_nth-none (x ∷ s) zero e = cc
flip_nth-none (x ∷ s) (suc p) e = ap (◌∷◌ x) (flip_nth-none s p e)

set-flip_nth : (s : Bytes) (p b : ℕ) → get_elem? s p ≡ some b → set s p (flipped b) ≡ flip_nth s p
set-flip_nth [] p b e = refl
set-flip_nth (x ∷ s) zero b e = let same : x ≡ b = cc in ap (λ c. flipped c ∷ s) (sym same)
set-flip_nth (x ∷ s) (suc p) b e = ap (◌∷◌ x) (set-flip_nth s p b e)

set_same : (s : Bytes) (p b : ℕ) → get_elem? s p ≡ some b → set s p b ≡ s
set_same [] p b e = refl
set_same (x ∷ s) zero b e = let same : x ≡ b = cc in ap (λ c. c ∷ s) (sym same)
set_same (x ∷ s) (suc p) b e = ap (◌∷◌ x) (set_same s p b e)

write_case-flipped :
    (s : Bytes) (p b : ℕ)
    → b < 128
    → get_elem? s p ≡ some b
    → write_case s p (switch_case b) ≡ set s p (flipped b)
unfolding write_case
write_case-flipped s p b ascii e =
    let test : flips b ≡ true = holds_below_lem flips 128 b ascii flips_table in
    elim (Outcome-cases (switch_case b)) [
      | inl (c, h) ↦
          let same : c == flipped b ≡ true = rw (h, flips) at test in
          rw h (ap (set s p) ((==_iff c (flipped b)).0 same))
      | inr (inl (x, h)) ↦
          let same : b == flipped b ≡ true = rw (h, flips) at test in
          rw h (sym (set_same s p b e) ∙ ap (set s p) ((==_iff b (flipped b)).0 same))
      | inr (inr h) ↦ let wrong : false ≡ true = rw (h, flips) at test in absurd (cc)
    ]

change_cap_at-flip_nth :
    (s : Bytes) (p : ℕ) → All (λ b. b < 128) s → change_cap_at s (pos p) ≡ flip_nth s p
change_cap_at-flip_nth s p ascii = elim (Option-cases (get_elem? s p)) [
  | inl e ↦ change_cap_at-none s p e ∙ sym (flip_nth-none s p e)
  | inr (b, e) ↦
      change_cap_at-some s p b e
      ∙ write_case-flipped s p b (All-get_elem? (λ b. b < 128) s p b ascii e) e
      ∙ set-flip_nth s p b e
]

from_back : (m n : ℕ) → pos m +ℤ negsuc n ≡ sub_ℕ m (suc n)
unfolding ◌+ℤ◌
from_back m n =
    ap₂ sub_ℕ {x = m + 0} {y = m} {u = 0 + suc n} {v = suc n} (omega arith) (omega arith)

-- On a buffer of ASCII characters, `changeCap` switches the case of the letter at the position, which
-- is counted from the front, or from the back if it is negative, and changes nothing else; it returns
-- the buffer where there is no letter at the position, or the position is outside.
pub change_cap-eq-flipped :
    (s : Bytes) (position : ℤ)
    → All (λ b. b < 128) s
    → change_cap s position ≡ flipped_at s position
unfolding change_cap
change_cap-eq-flipped s (pos p) ascii = change_cap_at-flip_nth s p ascii
change_cap-eq-flipped s (negsuc n) ascii =
    let index : change_cap s (negsuc n) ≡ change_cap_at s (sub_ℕ (length s) (suc n)) =
      ap (change_cap_at s) (from_back (length s) n) in
    index ∙ elim (Bool-cases (leb (suc n) (length s))) [
      | inl inside ↦ rw inside (change_cap_at-flip_nth s (length s - suc n) ascii)
      | inr outside ↦ rw outside (unfold change_cap_at in refl)
    ]
