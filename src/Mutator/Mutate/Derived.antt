-- ===== src/Mutator/Mutate/Derived.antt =====
-- Texts that rules make, and the hashes of texts, for pkg/mutator/rdasmutator.go.
use migp.Base.{
  ℕ, ◌+◌, ◌≡◌, ◌⊎◌, inl, inr, true, false, Bytes, All, List, [], ◌∷◌, ◌++◌, ◌==◌, ==_iff,
  Bool-cases,
}
use migp.Base.Outcome.{ok}
use migp.Mutator.Rule.{RDasRule}
use migp.Mutator.Mutate.{apply_rule, is_seen, Progress}

-- A member of a list, with its place.
pub data In {ℓ} {A : Type ℓ} (a : A) : List A → Type ℓ where
  here : (xs : List A) → In a (a ∷ xs)
  there : (b : A) (xs : List A) → In a xs → In a (b ∷ xs)

-- `s` is what some rule of the list makes of the password.
pub record Derived (rules : List RDasRule) (password s : Bytes) : Type 0 where
  pub by : RDasRule
  pub listed : In by rules
  pub makes : apply_rule by password ≡ ok s

pub Derived-there :
    (r : RDasRule) (rules : List RDasRule) (password s : Bytes)
    → Derived rules password s
    → Derived (r ∷ rules) password s
Derived-there r rules password s d = record {
  by = d.by;
  listed = there r rules d.listed;
  makes = d.makes;
}

pub All-Derived-there :
    (r : RDasRule) (rules : List RDasRule) (password : Bytes) (xs : List Bytes)
    → All (Derived rules password) xs
    → All (Derived (r ∷ rules) password) xs
All-Derived-there r rules password [] h = tt
All-Derived-there r rules password (x ∷ xs) (d, h) =
    (Derived-there r rules password x d, All-Derived-there r rules password xs h)

-- No hash of the second list occurs in the first, or twice.
abbrev pub Fresh : List ℕ → List ℕ → Type 0
Fresh seen [] = Unit
Fresh seen (k ∷ ks) = (is_seen k seen ≡ false) × Fresh (k ∷ seen) ks

-- A hash that one of the two lists holds.
abbrev pub Known : List ℕ → List ℕ → ℕ → Type 0
Known seen added k = (is_seen k seen ≡ true) ⊎ In k added

-- Some rule's text has a hash that is not yet known, and no such rule is left.
abbrev pub Exhausted : (Bytes → ℕ) → Bytes → List RDasRule → List ℕ → List ℕ → Type 0
Exhausted sum32 password rules seen added =
    All (λ q. (s : Bytes) → apply_rule q password ≡ ok s → Known seen added (sum32 s)) rules

abbrev pub kept : (Bytes → ℕ) → Progress → Bytes → Progress
kept sum32 p s = record {
  count = p.count + 1;
  seen = sum32 s ∷ p.seen;
  mutations = p.mutations ++ s ∷ [];
}

pub Known-cons :
    (seen : List ℕ) (h : ℕ) (added : List ℕ) (k : ℕ)
    → Known (h ∷ seen) added k
    → Known seen (h ∷ added) k
Known-cons seen h added k (inr i) = inr (there h added i)
Known-cons seen h added k (inl e) = elim (Bool-cases (k == h)) [
  | inl same ↦ inr (rw ((==_iff k h).0 same) (here added))
  | inr other ↦ inl (rw other at e)
]
