-- ===== src/Mutator/Substitute/Laws.antt =====
-- `substitute` of pkg/mutator/rdasmutator.go against a description of what replacing means.
use migp.Base.{
  ℕ, zero, suc, ◌-◌, ◌≤◌, ◌≡◌, refl, ap, sym, ◌∙◌, inl, inr, true, false, Bytes, [], ◌∷◌, ◌++◌,
  arith, ◌↔◌, length, length-append, ==_iff, Bool-cases,
}
use migp.Base.Int.{ℤ}
use migp.Mutator.Substitute.{has_prefix, replace_from, substitute}

-- `t` is `s` with the matches of `old`, taken from the left with no overlap, turned into `new`.
pub data Replaced (old new : Bytes) : Bytes → Bytes → Type 0 where
  done : Replaced old new [] []
  hit : (s t : Bytes) → Replaced old new s t → Replaced old new (old ++ s) (new ++ t)
  miss :
      (x : ℕ) (s t : Bytes)
      → has_prefix (x ∷ s) old ≡ false
      → Replaced old new s t
      → Replaced old new (x ∷ s) (x ∷ t)

has_prefix-append : (s old : Bytes) → has_prefix s old ≡ true → (rest : Bytes) × (s ≡ old ++ rest)
has_prefix-append s [] h = (s, refl)
has_prefix-append [] (o ∷ old) h = cc
has_prefix-append (x ∷ s) (o ∷ old) h =
    let (rest, e) = has_prefix-append s old (ground arith) in
    let same : x ≡ o = ground arith in (rest, cc)

replace_from_skip :
    (old new p s : Bytes) → replace_from old new (length p) (p ++ s) ≡ replace_from old new zero s
unfolding replace_from
replace_from_skip old new [] s = refl
replace_from_skip old new (x ∷ p) s = replace_from_skip old new p s

has_prefix_self : (old s : Bytes) → has_prefix (old ++ s) old ≡ true
has_prefix_self [] s = refl
has_prefix_self (o ∷ old) s = ground (arith, has_prefix_self old s, (==_iff o o).1 refl)

-- `bytes.ReplaceAll` at a match, and where there is none.
replace_from_hit :
    (o : ℕ) (old new s : Bytes)
    → replace_from (o ∷ old) new zero (o ∷ (old ++ s)) ≡ new ++ replace_from (o ∷ old) new zero s
unfolding replace_from
replace_from_hit o old new s =
    let test : has_prefix (o ∷ (old ++ s)) (o ∷ old) ≡ true = has_prefix_self (o ∷ old) s in
    let skip : suc (length old) - 1 ≡ length old = omega arith in
    rw (test, replace_from, skip) (ap (λ t. new ++ t) (replace_from_skip (o ∷ old) new old s))

replace_from_miss :
    (old new : Bytes) (x : ℕ) (s : Bytes)
    → has_prefix (x ∷ s) old ≡ false
    → replace_from old new zero (x ∷ s) ≡ x ∷ replace_from old new zero s
unfolding replace_from
replace_from_miss old new x s h = rw (h, replace_from)

replace_from-Replaced :
    (n o : ℕ) (old new s : Bytes)
    → length s ≤ n
    → Replaced (o ∷ old) new s (replace_from (o ∷ old) new zero s)
replace_from-Replaced n o old new [] h = unfold replace_from in done
replace_from-Replaced zero o old new (x ∷ s) h = absurd (omega arith)
replace_from-Replaced (suc n) o old new (x ∷ s) h =
    elim (Bool-cases (has_prefix (x ∷ s) (o ∷ old))) [
      | inr no_match ↦
          rw (replace_from_miss (o ∷ old) new x s no_match)
            (miss x s _ no_match (replace_from-Replaced n o old new s (omega arith)))
      | inl match ↦
          let (rest, e) = has_prefix-append (x ∷ s) (o ∷ old) match in
          let shorter : length rest ≤ n = omega (arith, ap length e, length-append old rest) in
          rw (e, replace_from_hit o old new rest)
            (hit rest _ (replace_from-Replaced n o old new rest shorter))
    ]

Replaced-eq-replace_from :
    (o : ℕ) (old new : Bytes) {s t : Bytes}
    → Replaced (o ∷ old) new s t
    → t ≡ replace_from (o ∷ old) new zero s
Replaced-eq-replace_from o old new done = unfold replace_from in refl
Replaced-eq-replace_from o old new (hit s t r) =
    ap (λ u. new ++ u) (Replaced-eq-replace_from o old new r) ∙ sym (replace_from_hit o old new s)
Replaced-eq-replace_from o old new (miss x s t h r) =
    ap (◌∷◌ x) (Replaced-eq-replace_from o old new r) ∙ sym (replace_from_miss (o ∷ old) new x s h)

-- A rule that replaces a text which is not empty gives exactly the text in which the matches, taken
-- from the left with no overlap, are replaced and every other byte is kept; the position of the rule
-- plays no part.
pub substitute-Replaced :
    (s t : Bytes) (position : ℤ) (o : ℕ) (old new : Bytes)
    → Replaced (o ∷ old) new s t ↔ (substitute s position (o ∷ old) new ≡ t)
unfolding substitute
substitute-Replaced s t position o old new = (
  λ r. sym (Replaced-eq-replace_from o old new r),
  λ e. rw (← e) (replace_from-Replaced (length s) o old new s (omega arith)),
)
