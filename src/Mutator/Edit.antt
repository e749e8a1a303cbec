-- ===== src/Mutator/Edit.antt =====
-- `deletePortion` and `insert` of pkg/mutator/rdasmutator.go.
pub mod Laws
use migp.Base.{
  suc, ◌+◌, ◌-◌, Bool, ◌&&◌, Bytes, make, copy_at, length, take, drop, leb, ◌==◌, if◌then◌else◌,
}
use migp.Base.Int.{ℤ, pos, negsuc, is_negative, ◌+ℤ◌}

unfoldable pub delete_portion : Bytes → ℤ → Bytes
unfolding make copy_at
delete_portion old_buf (pos p) =
    if leb p (length old_buf)
    then copy_at (make (length old_buf - p)) 0 (drop p old_buf)
    else copy_at (make (length old_buf)) 0 old_buf
delete_portion old_buf (negsuc n) =
    if leb (suc n) (length old_buf)
    then copy_at (make (length old_buf - suc n)) 0 (take (length old_buf - suc n) old_buf)
    else copy_at (make (length old_buf)) 0 old_buf

-- The three copies, at a position that is not negative.
insert_at : Bytes → ℤ → Bytes → Bytes
unfolding make copy_at
insert_at old_buf (negsuc n) string1 = copy_at (make (length old_buf)) 0 old_buf
insert_at old_buf (pos p) string1 =
    if leb p (length old_buf)
    then (let new_buf = make (length old_buf + length string1) in
        let new_buf = copy_at new_buf 0 (take p old_buf) in
        let new_buf = copy_at new_buf p string1 in
        copy_at new_buf (p + length string1) (drop p old_buf))
    else copy_at (make (length old_buf)) 0 old_buf

-- position == 0 || position == -1
abbrev at_an_end : ℤ → Bool
at_an_end (pos p) = p == 0
at_an_end (negsuc n) = n == 0

unfoldable pub insert : Bytes → ℤ → Bytes → Bytes
unfolding insert_at ◌+ℤ◌
insert old_buf position string1 =
    if length old_buf == 0 && at_an_end position
    then copy_at (make (length string1)) 0 string1
    else insert_at old_buf
        (if is_negative position then position +ℤ pos (length old_buf) +ℤ pos 1 else position)
        string1
