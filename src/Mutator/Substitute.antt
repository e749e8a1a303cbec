-- ===== src/Mutator/Substitute.antt =====
-- `substitute` of pkg/mutator/rdasmutator.go, with `bytes.ReplaceAll` as it is documented:
-- matches are taken from the left and do not overlap, and an empty text matches at the beginning
-- and after each UTF-8 sequence.
pub mod Laws
use migp.Base.{
  ℕ, zero, suc, ◌-◌, Bool, true, false, ◌&&◌, Bytes, [], ◌∷◌, ◌++◌, length, ◌==◌, if◌then◌else◌,
}
use migp.Base.Int.{ℤ}
use migp.Base.Utf8.{rest_width}

-- `bytes.HasPrefix(s, prefix)`
abbrev pub has_prefix : Bytes → Bytes → Bool
has_prefix s [] = true
has_prefix [] (p ∷ ps) = false
has_prefix (x ∷ s) (p ∷ ps) = x == p && has_prefix s ps

-- The empty text replaced: `skip` counts the bytes that are left of the current sequence.
replace_empty : Bytes → ℕ → Bytes → Bytes
replace_empty new skip [] = new
replace_empty new (suc skip) (x ∷ s) = x ∷ replace_empty new skip s
replace_empty new zero (x ∷ s) = new ++ (x ∷ replace_empty new (rest_width x s) s)

-- A text `old` replaced that is not empty: `skip` counts the bytes that are left of a match.
pub replace_from : Bytes → Bytes → ℕ → Bytes → Bytes
replace_from old new skip [] = []
replace_from old new (suc skip) (x ∷ s) = replace_from old new skip s
replace_from old new zero (x ∷ s) = elim (has_prefix (x ∷ s) old) [
  | true ↦ new ++ replace_from old new (length old - 1) s
  | false ↦ x ∷ replace_from old new zero s
]

unfoldable pub replace_all : Bytes → Bytes → Bytes → Bytes
unfolding replace_empty replace_from
replace_all s [] new = replace_empty new zero s
replace_all s (o ∷ old) new = replace_from (o ∷ old) new zero s

unfoldable pub substitute : Bytes → ℤ → Bytes → Bytes → Bytes
unfolding replace_all
substitute buf _ string1 string2 = replace_all buf string1 string2
