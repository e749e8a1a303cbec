-- ===== src/Mutator/Case.antt =====
-- `switchCase` and `changeCap` of pkg/mutator/rdasmutator.go. A byte is read as the rune of the
-- same number, so the functions of package unicode are needed on U+0000 to U+00FF only.
pub mod Laws
pub mod Positions
use migp.Base.{
  ℕ, ◌+◌, ◌-◌, Bool, ◌&&◌, ◌||◌, Bytes, none, some, byte, length, get_elem?, set, ltb, leb, ◌==◌,
  if◌then◌else◌,
}
use migp.Base.Utf8.{within}
use migp.Base.Int.{ℤ, pos, negsuc, is_negative, ◌+ℤ◌}
use migp.Base.Outcome.{Outcome, ok, err, panic, invalid_rune, not_a_letter}

-- `unicode.IsUpper`
pub is_upper : ℕ → Bool
is_upper r = within 0x41 0x5a r || within 0xc0 0xd6 r || within 0xd8 0xde r

-- `unicode.IsLower`
pub is_lower : ℕ → Bool
is_lower r = within 0x61 0x7a r || r == 0xb5 || within 0xdf 0xf6 r || within 0xf8 0xff r

-- `unicode.IsLetter`: also the ordinal indicators, which have no case.
pub is_letter : ℕ → Bool
unfolding is_upper is_lower
is_letter r = is_upper r || is_lower r || r == 0xaa || r == 0xba

-- `unicode.ToLower` on an upper-case letter
pub to_lower : ℕ → ℕ
to_lower r = r + 32

-- `unicode.ToUpper` on a lower-case letter: U+00B5 and U+00FF have theirs above U+00FF, and
-- U+00DF has none.
pub to_upper : ℕ → ℕ
to_upper r =
    if r == 0xb5 then 0x39c else if r == 0xff then 0x178 else if r == 0xdf then 0xdf else r - 32

unfoldable pub switch_case : ℕ → Outcome ℕ
unfolding is_letter is_upper is_lower to_lower to_upper
switch_case b =
    if is_letter b
    then (if is_upper b
        then ok (byte (to_lower b))
        else if is_lower b
        then ok (byte (to_upper b))
        else err invalid_rune)
    else err not_a_letter

-- `newBuf[position] = b`, if there was no error
pub write_case : Bytes → ℕ → Outcome ℕ → Bytes
write_case new_buf p (ok b) = set new_buf p b
write_case new_buf p (err e) = new_buf
write_case new_buf p panic = new_buf

pub change_cap_at : Bytes → ℤ → Bytes
unfolding write_case
change_cap_at old_buf (negsuc n) = old_buf
change_cap_at old_buf (pos p) =
    if ltb p (length old_buf)
    then (elim (get_elem? old_buf p) [
      | none ↦ old_buf
      | some b ↦ write_case old_buf p (switch_case b)
    ])
    else old_buf

unfoldable pub change_cap : Bytes → ℤ → Bytes
unfolding change_cap_at ◌+ℤ◌ switch_case
change_cap old_buf position =
    change_cap_at old_buf
      (if is_negative position then pos (length old_buf) +ℤ position else position)
