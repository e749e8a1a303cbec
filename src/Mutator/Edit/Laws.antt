-- ===== src/Mutator/Edit/Laws.antt =====
-- What `deletePortion` and `insert` of pkg/mutator/rdasmutator.go do at every position.
use migp.Base.{
  ℕ, zero, suc, ◌-◌, ◌≤◌, ◌<◌, ◌≡◌, refl, sym, ◌∙◌, inl, inr, true, false, ◌&&◌, Bytes, [], ◌∷◌,
  ◌++◌, Option, none, some, arith, copy_whole, fill_three, length, length-append, length-take,
  length-drop, take, drop, take_exact, drop_exact, take_all, drop_all, leb, ◌==◌, Bool-cases,
  append-nil, if◌then◌else◌,
}
use migp.Base.Int.{ℤ, pos, negsuc, is_negative, ◌+ℤ◌}
use migp.Mutator.Edit.{delete_portion, insert, insert_at, at_an_end}

-- Where a position between two bytes lies: from the front, or from the back, where -1 is the end.
abbrev pub slot : Bytes → ℤ → Option ℕ
slot s (pos p) = if leb p (length s) then some p else none
slot s (negsuc n) = if leb n (length s) then some (length s - n) else none

abbrev pub inserted : Bytes → Option ℕ → Bytes → Bytes
inserted s none x = s
inserted s (some k) x = take k s ++ (x ++ drop k s)

-- What a deletion leaves: nothing is deleted where the text is too short.
abbrev pub deleted : Bytes → ℤ → Bytes
deleted s (pos p) = if leb p (length s) then drop p s else s
deleted s (negsuc n) = if leb (suc n) (length s) then take (length s - suc n) s else s

-- `deletePortion` drops as many bytes as the position says from the front, or from the back where the
-- position is negative, and returns the buffer unchanged where it has fewer bytes.
pub delete_portion-eq-deleted :
    (s : Bytes) (position : ℤ) → delete_portion s position ≡ deleted s position
unfolding delete_portion
delete_portion-eq-deleted s (pos p) = elim (Bool-cases (leb p (length s))) [
  | inl h ↦ rw h (copy_whole _ _ (sym (length-drop p s)))
  | inr h ↦ rw h (copy_whole _ s refl)
]
delete_portion-eq-deleted s (negsuc n) = elim (Bool-cases (leb (suc n) (length s))) [
  | inl h ↦ rw h (copy_whole _ _ (omega (arith, length-take (length s - suc n) s)))
  | inr h ↦ rw h (copy_whole _ s refl)
]

insert_at-eq-inserted :
    (s : Bytes) (p : ℕ) (x : Bytes)
    → p ≤ length s
    → insert_at s (pos p) x ≡ take p s ++ (x ++ drop p s)
unfolding insert_at
insert_at-eq-inserted s p x h =
    let test : leb p (length s) ≡ true = ground arith in
    rw test (
      fill_three _ p _ (take p s) x (drop p s) (omega (arith, length-take p s))
        (omega (arith, length-take p s)) (omega (arith, length-take p s, length-drop p s)))

insert_at_outside :
    (s : Bytes) (p : ℕ) (x : Bytes) → leb p (length s) ≡ false → insert_at s (pos p) x ≡ s
unfolding insert_at
insert_at_outside s p x h = rw h (copy_whole _ s refl)

insert_at_negative : (s : Bytes) (n : ℕ) (x : Bytes) → insert_at s (negsuc n) x ≡ s
unfolding insert_at
insert_at_negative s n x = copy_whole _ s refl

back_index : (n m : ℕ) → n ≤ m → negsuc n +ℤ pos m +ℤ pos 1 ≡ pos (m - n)
unfolding ◌+ℤ◌
back_index n m h = ground arith

back_index_outside : (n m : ℕ) → m < n → negsuc n +ℤ pos m +ℤ pos 1 ≡ negsuc (n - m - 1)
unfolding ◌+ℤ◌
back_index_outside n m h = ground arith

-- The position counted from the front, as the code computes it.
abbrev from_front : Bytes → ℤ → ℤ
from_front s position =
    if is_negative position then position +ℤ pos (length s) +ℤ pos 1 else position

insert_at_anywhere :
    (s : Bytes) (position : ℤ) (x : Bytes)
    → insert_at s (from_front s position) x ≡ inserted s (slot s position) x
insert_at_anywhere s (pos p) x = elim (Bool-cases (leb p (length s))) [
  | inl h ↦ rw h (insert_at-eq-inserted s p x (ground arith))
  | inr h ↦ rw h (insert_at_outside s p x h)
]
insert_at_anywhere s (negsuc n) x = elim (Bool-cases (leb n (length s))) [
  | inl h ↦
      rw (h, back_index n (length s) (ground arith))
        (insert_at-eq-inserted s (length s - n) x (omega arith))
  | inr h ↦ rw (h, back_index_outside n (length s) (ground arith)) (insert_at_negative s _ x)
]

insert_into_empty :
    (s : Bytes) (position : ℤ) (x : Bytes)
    → (length s == 0 && at_an_end position) ≡ true
    → x ≡ inserted s (slot s position) x
insert_into_empty [] (pos zero) x h = sym (append-nil x)
insert_into_empty [] (negsuc zero) x h = sym (append-nil x)
insert_into_empty [] (pos (suc p)) x h = ground arith
insert_into_empty [] (negsuc (suc n)) x h = ground arith
insert_into_empty (b ∷ s) position x h = ground arith

-- `insert` puts the text between the bytes before and behind the position, counted from the front
-- or from the back, and returns the buffer unchanged where the position lies outside it.
pub insert-eq-inserted :
    (s : Bytes) (position : ℤ) (x : Bytes) → insert s position x ≡ inserted s (slot s position) x
unfolding insert
insert-eq-inserted s position x = elim (Bool-cases (length s == 0 && at_an_end position)) [
  | inl h ↦ rw h (copy_whole _ x refl ∙ insert_into_empty s position x h)
  | inr h ↦ rw h (insert_at_anywhere s position x)
]

inserted_front : (s x : Bytes) → inserted s (slot s (pos 0)) x ≡ x ++ s
inserted_front s x = let test : leb 0 (length s) ≡ true = ground arith in rw (test, inserted)

inserted_back : (s x : Bytes) → inserted s (slot s (negsuc 0)) x ≡ s ++ x
inserted_back s x =
    let test : leb 0 (length s) ≡ true = ground arith in
    let all : length s - 0 ≡ length s = omega arith in
    rw (test, inserted, all)
      (rw (take_all (length s) s (omega arith), drop_all (length s) s (omega arith), append-nil))

deleted_front : (x s : Bytes) → deleted (x ++ s) (pos (length x)) ≡ s
deleted_front x s =
    let test : leb (length x) (length (x ++ s)) ≡ true = ground (arith, length-append x s) in
    rw test (drop_exact (length x) x s refl)

deleted_back : (s : Bytes) (b : ℕ) (x : Bytes) → deleted (s ++ b ∷ x) (negsuc (length x)) ≡ s
deleted_back s b x =
    let test : leb (suc (length x)) (length (s ++ b ∷ x)) ≡ true =
      ground (arith, length-append s (b ∷ x)) in
    rw test (take_exact _ s (b ∷ x) (omega (arith, length-append s (b ∷ x))))

-- `deletePortion` undoes `insert` at the front and at the end of the buffer: deleting as many bytes
-- as were inserted gives the original back (at the end, where the text inserted is not empty).
pub delete_portion-insert :
    (s x : Bytes) (b : ℕ)
    → (delete_portion (insert s (pos 0) x) (pos (length x)) ≡ s)
      × (delete_portion (insert s (negsuc 0) (b ∷ x)) (negsuc (length x)) ≡ s)
delete_portion-insert s x b = (
  rw (insert-eq-inserted, delete_portion-eq-deleted, inserted_front) (deleted_front x s),
  rw (insert-eq-inserted, delete_portion-eq-deleted, inserted_back) (deleted_back s b x),
)
