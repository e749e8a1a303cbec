-- ===== src/Mutator/Case/Laws.antt =====
-- What `switchCase` and `changeCap` of pkg/mutator/rdasmutator.go do.
use migp.Base.{
  ℕ, zero, suc, ◌<◌, ◌≡◌, refl, ap, ◌∙◌, inl, inr, Bool, true, false, ◌&&◌, ◌||◌, Bytes, [], ◌∷◌,
  none, some, arith, length, length-set, get_elem?, set, ltb, ◌==◌, Bool-cases, Option-cases,
  lt→ltb, All, if◌then◌else◌, IsByte,
}
use mathlib.Core.Path.{subst}
use migp.Base.Int.{ℤ, pos, negsuc, is_negative, ◌+ℤ◌}
use migp.Base.Outcome.{Outcome, ok, err, panic}
use migp.Mutator.Case.{switch_case, write_case, change_cap_at, change_cap}

-- A test on all numbers below a bound.
unfoldable pub holds_below : (ℕ → Bool) → ℕ → Bool
holds_below test (suc bound) = holds_below test bound && test bound
holds_below test zero = true

pub holds_below_lem :
    (test : ℕ → Bool) (bound n : ℕ) → n < bound → holds_below test bound ≡ true → test n ≡ true
unfolding holds_below
holds_below_lem test (suc bound) n less all = ground (arith, holds_below_lem test bound n)
holds_below_lem test zero n less all = absurd (omega arith)

-- A result that is the given byte.
abbrev is_ok : Outcome ℕ → ℕ → Bool
is_ok (ok c) b = c == b
is_ok (err e) b = false
is_ok panic b = false

-- The bytes whose upper case is no byte: U+00B5 and U+00FF.
abbrev pub loses_its_case : ℕ → Bool
loses_its_case b = b == 0xb5 || b == 0xff

abbrev switches_back : ℕ → Bool
switches_back b = elim (switch_case b) [
  | ok c ↦ is_ok (switch_case c) b || loses_its_case b
  | err e ↦ true
  | panic ↦ false
]

switches_back_table : holds_below switches_back 256 ≡ true
unfolding holds_below switch_case
switches_back_table = refl

is_ok-eq : (o : Outcome ℕ) (b : ℕ) → is_ok o b ≡ true → o ≡ ok b
is_ok-eq (ok c) b h = ground arith
is_ok-eq (err e) b h = cc
is_ok-eq panic b h = cc

-- On every byte but two, `switchCase` undoes itself wherever it succeeds.
pub switch_case-switch_case :
    (b c : ℕ) → IsByte b → loses_its_case b ≡ false → switch_case b ≡ ok c → switch_case c ≡ ok b
switch_case-switch_case b c byte plain e =
    let back = holds_below_lem switches_back 256 b byte switches_back_table in
    let here : is_ok (switch_case c) b || loses_its_case b ≡ true = rw (e, switches_back) at back in
    is_ok-eq (switch_case c) b (ground (arith, here))

get_elem?-set_self :
    (s : Bytes) (p b c : ℕ) → get_elem? s p ≡ some b → get_elem? (set s p c) p ≡ some c
get_elem?-set_self [] p b c h = cc
get_elem?-set_self (x ∷ s) zero b c h = refl
get_elem?-set_self (x ∷ s) (suc p) b c h = get_elem?-set_self s p b c h

set-set_self : (s : Bytes) (p b c : ℕ) → get_elem? s p ≡ some b → set (set s p c) p b ≡ s
set-set_self [] p b c h = refl
set-set_self (x ∷ s) zero b c h = cc
set-set_self (x ∷ s) (suc p) b c h = ap (◌∷◌ x) (set-set_self s p b c h)

pub All-get_elem? : (P : ℕ → Type 0) (s : Bytes) (p b : ℕ) → All P s → get_elem? s p ≡ some b → P b
All-get_elem? P [] p b h e = absurd (cc)
All-get_elem? P (x ∷ s) zero b (px, h) e = let same : x ≡ b = cc in subst P same px
All-get_elem? P (x ∷ s) (suc p) b (px, h) e = All-get_elem? P s p b h e

get_elem?-lt : (s : Bytes) (p b : ℕ) → get_elem? s p ≡ some b → p < length s
get_elem?-lt [] p b h = absurd (cc)
get_elem?-lt (x ∷ s) zero b h = omega arith
get_elem?-lt (x ∷ s) (suc p) b h = omega (arith, get_elem?-lt s p b h)

-- `changeCap` at a position counted from the front: inside the buffer, and outside.
pub change_cap_at-some :
    (s : Bytes) (p b : ℕ)
    → get_elem? s p ≡ some b
    → change_cap_at s (pos p) ≡ write_case s p (switch_case b)
unfolding change_cap_at
change_cap_at-some s p b e = rw (lt→ltb p (length s) (get_elem?-lt s p b e), e, change_cap_at)

pub change_cap_at-none : (s : Bytes) (p : ℕ) → get_elem? s p ≡ none → change_cap_at s (pos p) ≡ s
unfolding change_cap_at
change_cap_at-none s p e = elim (Bool-cases (ltb p (length s))) [
  | inl t ↦ rw (t, e, change_cap_at)
  | inr t ↦ rw (t, change_cap_at)
]

-- A byte that the buffer may hold for a second change to undo the first.
abbrev pub IsPlain : ℕ → Type 0
IsPlain b = IsByte b × (loses_its_case b ≡ false)

write_case_twice :
    (s : Bytes) (p b : ℕ) (o : Outcome ℕ)
    → IsPlain b
    → get_elem? s p ≡ some b
    → switch_case b ≡ o
    → change_cap_at (write_case s p o) (pos p) ≡ s
unfolding write_case
write_case_twice s p b (ok c) (is_byte, plain) e switched =
    change_cap_at-some (set s p c) p c (get_elem?-set_self s p b c e)
    ∙ ap (write_case (set s p c) p) (switch_case-switch_case b c is_byte plain switched)
    ∙ set-set_self s p b c e
write_case_twice s p b (err x) h e switched =
    change_cap_at-some s p b e ∙ ap (write_case s p) switched
write_case_twice s p b panic h e switched =
    change_cap_at-some s p b e ∙ ap (write_case s p) switched

change_cap_at_twice : (s : Bytes) (q : ℤ) → All IsPlain s → change_cap_at (change_cap_at s q) q ≡ s
change_cap_at_twice s (negsuc n) h = unfold change_cap_at in refl
change_cap_at_twice s (pos p) h = elim (Option-cases (get_elem? s p)) [
  | inl none_there ↦ rw (change_cap_at-none s p none_there) (change_cap_at-none s p none_there)
  | inr (b, e) ↦
      rw (change_cap_at-some s p b e)
        (write_case_twice s p b (switch_case b) (All-get_elem? IsPlain s p b h e) e refl)
]

length-write_case : (s : Bytes) (p : ℕ) (o : Outcome ℕ) → length (write_case s p o) ≡ length s
unfolding write_case
length-write_case s p (ok c) = length-set s p c
length-write_case s p (err x) = refl
length-write_case s p panic = refl

length-change_cap_at : (s : Bytes) (q : ℤ) → length (change_cap_at s q) ≡ length s
length-change_cap_at s (negsuc n) = unfold change_cap_at in refl
length-change_cap_at s (pos p) = elim (Option-cases (get_elem? s p)) [
  | inl none_there ↦ rw (change_cap_at-none s p none_there)
  | inr (b, e) ↦ rw (change_cap_at-some s p b e) (length-write_case s p (switch_case b))
]

-- In a buffer of bytes without U+00B5 and U+00FF, `changeCap` keeps the length, and a second change at
-- the same position undoes the first, whatever the position.
pub change_cap-change_cap :
    (s : Bytes) (position : ℤ)
    → All IsPlain s
    → (length (change_cap s position) ≡ length s)
      × (change_cap (change_cap s position) position ≡ s)
unfolding change_cap
change_cap-change_cap s position h = (
  length-change_cap_at s (index s position),
  rw (length-change_cap_at s (index s position)) (change_cap_at_twice s (index s position) h),
)
  where
    index : Bytes → ℤ → ℤ
    index s position = if is_negative position then pos (length s) +ℤ position else position
