-- ===== src/Mutator/Tests.antt =====
-- Tests of pkg/mutator on concrete inputs; the hash of a text is its length.
use migp.Base.{◌≡◌, ◌↔◌, refl, Bytes, codes, List, [], ◌∷◌, arith, length, make, copy_at}
use migp.Base.Int.{pos, negsuc}
use migp.Base.Outcome.{ok}
use migp.Mutator.Rule.{rule}
use migp.Mutator.Case.{switch_case, change_cap}
use migp.Mutator.Case.Positions.{flipped_at, change_cap-eq-flipped}
use migp.Mutator.Edit.{insert, delete_portion}
use migp.Mutator.Edit.Laws.{slot, inserted, deleted, insert-eq-inserted, delete_portion-eq-deleted}
use migp.Mutator.Substitute.{substitute}
use migp.Mutator.Substitute.Laws.{Replaced, substitute-Replaced}
use migp.Mutator.Mutate.{RDasMutator, apply_rule, keep_new, mutate_loop, mutate}
use migp.Mutator.Mutate.Laws.{IsMutationOf, mutate-IsMutationOf}
use migp.Mutator.Mutate.Total.{Distinct, mutate-Distinct}

abbrev pass : Bytes
pass = codes "pass"

-- An insertion, a change of case that gives a text of a known hash, and a deletion.
abbrev three : RDasMutator
three = record {
  rules = rule "i" (negsuc 0) "1" "" ∷ rule "c" (pos 0) "" "" ∷ rule "d" (negsuc 0) "" "" ∷ [];
}

abbrev mutated : List Bytes
mutated = codes "pass1" ∷ codes "pas" ∷ []

mutates : mutate length three pass (pos 5) ≡ ok mutated
unfolding mutate mutate_loop keep_new apply_rule insert change_cap delete_portion make copy_at
mutates = refl

mutate-IsMutationOf_example : IsMutationOf length three.rules pass 5 mutated
mutate-IsMutationOf_example = mutate-IsMutationOf length three pass 5 mutated mutates

mutate-Distinct_example : Distinct (pass ∷ []) mutated
mutate-Distinct_example = mutate-Distinct length three pass 5 mutated mutates

change_cap-eq-flipped_example : change_cap pass (negsuc 0) ≡ flipped_at pass (negsuc 0)
change_cap-eq-flipped_example =
    change_cap-eq-flipped pass (negsuc 0)
      (omega arith, (omega arith, (omega arith, (omega arith, tt))))

insert-eq-inserted_example : insert pass (negsuc 1) pass ≡ inserted pass (slot pass (negsuc 1)) pass
insert-eq-inserted_example = insert-eq-inserted pass (negsuc 1) pass

delete_portion-eq-deleted_example : delete_portion pass (pos 2) ≡ deleted pass (pos 2)
delete_portion-eq-deleted_example = delete_portion-eq-deleted pass (pos 2)

lower_a : switch_case 97 ≡ ok 65
unfolding switch_case
lower_a = refl

substitute-Replaced_example :
    Replaced (97 ∷ []) (64 ∷ []) pass (codes "p@ss")
    ↔ (substitute pass (pos 0) (97 ∷ []) (64 ∷ []) ≡ codes "p@ss")
substitute-Replaced_example = substitute-Replaced pass (codes "p@ss") (pos 0) 97 [] (64 ∷ [])
