-- ===== src/Mutator/Mutate/Total.antt =====
-- `Mutate` of pkg/mutator/rdasmutator.go with the table of dasrules.go does not panic.
use migp.Base.{
  ℕ, ◌≡◌, ◌≢◌, ap, Bool, true, false, ◌&&◌, ◌||◌, Bytes, codes, All, List, [], ◌∷◌, map, arith,
  bytes_eq,
}
use migp.Base.Int.{pos}
use migp.Base.Outcome.{ok}
use migp.Mutator.Rule.{RDasRule}
use migp.Mutator.Mutate.{RDasMutator, is_seen, mutate}
use migp.Mutator.Mutate.Derived.{Fresh}
use migp.Mutator.Mutate.Laws.{mutate-IsMutationOf}

-- One of the four rule types that `Mutate` knows.
is_recognized : RDasRule → Bool
is_recognized r =
    bytes_eq r.rule_type (codes "c")
    || bytes_eq r.rule_type (codes "d")
    || bytes_eq r.rule_type (codes "i")
    || bytes_eq r.rule_type (codes "s")

all_recognized : List RDasRule → Bool
all_recognized [] = true
all_recognized (r ∷ rules) = is_recognized r && all_recognized rules

-- No text of the list occurs in the others, or twice.
abbrev pub Distinct : List Bytes → List Bytes → Type 0
Distinct others [] = Unit
Distinct others (s ∷ r) = All (λ o. s ≢ o) others × Distinct (s ∷ others) r

is_seen-ne :
    (sum32 : Bytes → ℕ) (s : Bytes) (others : List Bytes)
    → is_seen (sum32 s) (map sum32 others) ≡ false
    → All (λ o. s ≢ o) others
is_seen-ne sum32 s [] h = tt
is_seen-ne sum32 s (o ∷ others) h =
    (λ same. ground (arith, ap sum32 same), is_seen-ne sum32 s others (ground arith))

Fresh-Distinct :
    (sum32 : Bytes → ℕ) (r others : List Bytes)
    → Fresh (map sum32 others) (map sum32 r)
    → Distinct others r
Fresh-Distinct sum32 [] others h = tt
Fresh-Distinct sum32 (s ∷ r) others (new, h) =
    (is_seen-ne sum32 s others new, Fresh-Distinct sum32 r (s ∷ others) h)

-- The mutations that `Mutate` returns are different texts, and none is the password.
pub mutate-Distinct :
    (sum32 : Bytes → ℕ) (m : RDasMutator) (password : Bytes) (num : ℕ) (r : List Bytes)
    → mutate sum32 m password (pos num) ≡ ok r
    → Distinct (password ∷ []) r
mutate-Distinct sum32 m password num r e =
    Fresh-Distinct sum32 r (password ∷ []) (mutate-IsMutationOf sum32 m password num r e).fresh
