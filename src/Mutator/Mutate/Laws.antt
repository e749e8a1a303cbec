-- ===== src/Mutator/Mutate/Laws.antt =====
-- What `Mutate` of pkg/mutator/rdasmutator.go returns.
use migp.Base.{
  ℕ, ◌+◌, ◌≤◌, ◌<◌, ◌≡◌, sym, ◌∙◌, inl, inr, true, false, Bytes, All, List, [], ◌∷◌, ◌++◌, map,
  arith, length, ltb, Bool-cases, append_assoc, append-nil,
}
use migp.Base.Int.{pos}
use migp.Base.Outcome.{ok, panic, >>=-eq-ok, ok-injective}
use migp.Mutator.Rule.{RDasRule}
use migp.Mutator.Mutate.{
  RDasMutator, apply_rule, is_seen, Progress, keep_new, mutate_loop, mutate, max_capacity,
}
use migp.Mutator.Mutate.Derived.{
  here, Derived, All-Derived-there, Fresh, Exhausted, kept, Known-cons,
}

module _ (sum32 : Bytes → ℕ) (password : Bytes) (num : ℕ) where
  All-Known-cons :
      (rules : List RDasRule) (seen : List ℕ) (h : ℕ) (added : List ℕ)
      → Exhausted sum32 password rules (h ∷ seen) added
      → Exhausted sum32 password rules seen (h ∷ added)
  All-Known-cons [] seen h added e = tt
  All-Known-cons (q ∷ rules) seen h added (e, es) =
      (λ s made. Known-cons seen h added (sum32 s) (e s made), All-Known-cons rules seen h added es)

  -- What the loop adds, from `p` on, to the mutations that it has.
  pub record Added (rules : List RDasRule) (p : Progress) (r : List Bytes) : Type 0 where
    pub added : List Bytes
    pub result : r ≡ p.mutations ++ added
    pub derived : All (Derived rules password) added
    pub fresh : Fresh p.seen (map sum32 added)
    pub bounded : p.count + length added ≤ num
    pub exhausted :
        p.count + length added < num → Exhausted sum32 password rules p.seen (map sum32 added)

  -- One round of the loop that ended well.
  data Round (q : RDasRule) (rules : List RDasRule) (p : Progress) (r : List Bytes) : Type 0 where
    full : r ≡ p.mutations → num ≤ p.count → Round q rules p r
    old :
        (s : Bytes)
        → apply_rule q password ≡ ok s
        → is_seen (sum32 s) p.seen ≡ true
        → mutate_loop sum32 password num rules p ≡ ok r
        → Round q rules p r
    new :
        (s : Bytes)
        → apply_rule q password ≡ ok s
        → is_seen (sum32 s) p.seen ≡ false
        → p.count < num
        → mutate_loop sum32 password num rules (kept sum32 p s) ≡ ok r
        → Round q rules p r

  mutate_loop-Round :
      (q : RDasRule) (rules : List RDasRule) (p : Progress) (r : List Bytes)
      → mutate_loop sum32 password num (q ∷ rules) p ≡ ok r
      → Round q rules p r
  mutate_loop-Round q rules p r e = elim (Bool-cases (ltb p.count num)) [
    | inl more ↦
        let (s, made, rest) =
          >>=-eq-ok (apply_rule q password)
            (λ s. mutate_loop sum32 password num rules (keep_new sum32 p s)) {b = r}
            (unfold mutate_loop in rw (more, mutate_loop) at e) in
        elim (Bool-cases (is_seen (sum32 s) p.seen)) [
          | inl known ↦ old s made known (unfold keep_new in rw (known, keep_new) at rest)
          | inr fresh ↦
              new s made fresh (ground arith) (unfold keep_new in rw (fresh, keep_new) at rest)
        ]
    | inr enough ↦ full (unfold mutate_loop in ground arith) (ground arith)
  ]

  Added-full :
      (rules : List RDasRule) (p : Progress) (r : List Bytes)
      → r ≡ p.mutations
      → p.count ≤ num
      → num ≤ p.count
      → Added rules p r
  Added-full rules p r same h enough = record {
    added = [];
    result = same ∙ sym (append-nil p.mutations);
    derived = tt;
    fresh = tt;
    bounded = omega arith;
    exhausted = λ lt. absurd (omega arith);
  }

  Added-old :
      (q : RDasRule) (rules : List RDasRule) (p : Progress) (r : List Bytes) (s : Bytes)
      → apply_rule q password ≡ ok s
      → is_seen (sum32 s) p.seen ≡ true
      → Added rules p r
      → Added (q ∷ rules) p r
  Added-old q rules p r s made known a = record {
    added = a.added;
    result = a.result;
    derived = All-Derived-there q rules password a.added a.derived;
    fresh = a.fresh;
    bounded = a.bounded;
    exhausted =
        λ lt. (λ s' made'. inl (rw (ok-injective (sym made' ∙ made)) known), a.exhausted lt);
  }

  Added-new :
      (q : RDasRule) (rules : List RDasRule) (p : Progress) (r : List Bytes) (s : Bytes)
      → apply_rule q password ≡ ok s
      → is_seen (sum32 s) p.seen ≡ false
      → Added rules (kept sum32 p s) r
      → Added (q ∷ rules) p r
  Added-new q rules p r s made fresh a = record {
    added = s ∷ a.added;
    result = a.result ∙ append_assoc p.mutations (s ∷ []) a.added;
    derived = (
      record { by = q; listed = here rules; makes = made },
      All-Derived-there q rules password a.added a.derived,
    );
    fresh = (fresh, a.fresh);
    bounded = omega (arith, a.bounded);
    exhausted = λ lt. (
      λ s' made'. inr (rw (ok-injective (sym made' ∙ made)) (here _)),
      All-Known-cons rules p.seen (sum32 s) (map sum32 a.added) (a.exhausted (omega arith)),
    );
  }

  mutate_loop-Added :
      (rules : List RDasRule) (p : Progress) (r : List Bytes)
      → p.count ≤ num
      → mutate_loop sum32 password num rules p ≡ ok r
      → Added rules p r
  unfolding mutate_loop
  mutate_loop-Added [] p r h e = record {
    added = [];
    result = sym (ok-injective e) ∙ sym (append-nil p.mutations);
    derived = tt;
    fresh = tt;
    bounded = omega arith;
    exhausted = λ _. tt;
  }
  mutate_loop-Added (q ∷ rules) p r h e = elim (mutate_loop-Round q rules p r e) [
    | full same enough ↦ Added-full (q ∷ rules) p r same h enough
    | old s made known rest ↦
        Added-old q rules p r s made known (mutate_loop-Added rules p r h rest)
    | new s made fresh more rest ↦
        Added-new q rules p r s made fresh
          (mutate_loop-Added rules (kept sum32 p s) r (omega arith) rest)
  ]

module _ (sum32 : Bytes → ℕ) where
  -- Every mutation comes from a rule, its hash is that of no other mutation nor of the password,
  -- there are at most `num`, and if there are fewer then no rule would give one more.
  pub record IsMutationOf (rules : List RDasRule) (password : Bytes) (num : ℕ) (r : List Bytes)
      : Type 0 where
    pub derived : All (Derived rules password) r
    pub fresh : Fresh (sum32 password ∷ []) (map sum32 r)
    pub bounded : length r ≤ num
    pub exhausted :
        length r < num → Exhausted sum32 password rules (sum32 password ∷ []) (map sum32 r)

  abbrev start : Bytes → Progress
  start password = record { count = 0; seen = sum32 password ∷ []; mutations = [] }

  loop-mutate :
      (password : Bytes) (num : ℕ) (r : List Bytes) (rules : List RDasRule)
      → mutate sum32 (record { rules = rules }) password (pos num) ≡ ok r
      → mutate_loop sum32 password num rules (start password) ≡ ok r
  unfolding mutate
  loop-mutate password num r [] e = cc
  loop-mutate password num r (q ∷ rules) e = elim (Bool-cases (ltb max_capacity num)) [
    | inl large ↦ let wrong : panic ≡ ok r = rw (large, mutate) at e in absurd (cc)
    | inr fits ↦ rw (fits, mutate) at e
  ]

  -- If `Mutate` returns, with any rules, the result is a set of mutations as `IsMutationOf` says:
  -- from the rules, of different hashes, at most `num`, and fewer only if the rules give no more.
  pub mutate-IsMutationOf :
      (m : RDasMutator) (password : Bytes) (num : ℕ) (r : List Bytes)
      → mutate sum32 m password (pos num) ≡ ok r
      → IsMutationOf m.rules password num r
  mutate-IsMutationOf m password num r e = from_loop (
      mutate_loop-Added sum32 password num m.rules (start password) r (omega arith)
        (loop-mutate password num r m.rules e))
    where
      from_loop :
          Added sum32 password num m.rules (start password) r → IsMutationOf m.rules password num r
      from_loop a = rw a.result (record {
        derived = a.derived;
        fresh = a.fresh;
        bounded = omega (arith, a.bounded);
        exhausted = λ lt. a.exhausted (omega arith);
      })
