-- ===== src/Mutator/Mutate.antt =====
-- `RDasMutator.Mutate` of pkg/mutator/rdasmutator.go. The hash murmur3.Sum32 is a parameter.
pub mod Derived
pub mod Laws
pub mod Total
use migp.Base.{
  ℕ, ◌+◌, ◌/◌, ◌^◌, Bool, true, false, ◌||◌, Bytes, codes, List, [], ◌∷◌, ◌++◌, ltb, ◌==◌, bytes_eq,
  if◌then◌else◌,
}
use migp.Base.Int.{ℤ, pos, negsuc}
use migp.Base.Outcome.{Outcome, ok, panic, ◌>>=◌}
use migp.Mutator.Rule.{RDasRule}
use migp.Mutator.Table.{das_rules}
use migp.Mutator.Case.{change_cap}
use migp.Mutator.Edit.{delete_portion, insert}
use migp.Mutator.Substitute.{substitute}

pub record RDasMutator : Type 0 where
  pub rules : List RDasRule

-- `NewRDasMutator`
abbrev pub new_rdas_mutator : RDasMutator
new_rdas_mutator = record { rules = das_rules }

-- The `switch rule.RuleType` of `Mutate`.
unfoldable pub apply_rule : RDasRule → Bytes → Outcome Bytes
apply_rule rule s =
    if bytes_eq rule.rule_type (codes "c")
    then ok (change_cap s rule.position)
    else if bytes_eq rule.rule_type (codes "d")
    then ok (delete_portion s rule.position)
    else if bytes_eq rule.rule_type (codes "i")
    then ok (insert s rule.position rule.string1)
    else if bytes_eq rule.rule_type (codes "s")
    then ok (substitute s rule.position rule.string1 rule.string2)
    else panic

-- The largest capacity that `make` takes for slices of 24 bytes, where the runtime allocates at most
-- 2 ^ 48 bytes at once, as it does on 64-bit platforms such as linux/amd64.
abbrev pub max_capacity : ℕ
max_capacity = 2 ^ 48 / 24

-- `_, ok := seen[key]`
abbrev pub is_seen : ℕ → List ℕ → Bool
is_seen key [] = false
is_seen key (k ∷ seen) = key == k || is_seen key seen

-- The variables of the loop: `j`, `seen` and `mutations`.
pub record Progress : Type 0 where
  pub count : ℕ
  pub seen : List ℕ
  pub mutations : List Bytes

module _ (sum32 : Bytes → ℕ) where
  -- The end of a round: a text whose hash is new is kept.
  unfoldable pub keep_new : Progress → Bytes → Progress
  keep_new p s = if is_seen (sum32 s) p.seen then p else record {
    count = p.count + 1;
    seen = sum32 s ∷ p.seen;
    mutations = p.mutations ++ s ∷ [];
  }

  -- `for i, j := 0, 0; j < num && i < len(m.dasRules); i++`
  unfoldable pub mutate_loop : Bytes → ℕ → List RDasRule → Progress → Outcome (List Bytes)
  unfolding keep_new
  mutate_loop password num [] p = ok p.mutations
  mutate_loop password num (rule ∷ rules) p = elim (ltb p.count num) [
    | true ↦ apply_rule rule password >>= λ s. mutate_loop password num rules (keep_new p s)
    | false ↦ ok p.mutations
  ]

  -- `make([][]byte, 0, num)` panics on a negative capacity, and on one beyond `max_capacity`.
  unfoldable pub mutate : RDasMutator → Bytes → ℤ → Outcome (List Bytes)
  mutate m password (negsuc n) = panic
  mutate m password (pos num) = elim m.rules [
    | [] ↦ panic
    | rule ∷ rules ↦ elim (ltb max_capacity num) [
      | true ↦ panic
      | false ↦
          mutate_loop password num (rule ∷ rules)
            (record { count = 0; seen = sum32 password ∷ []; mutations = [] })
    ]
  ]
