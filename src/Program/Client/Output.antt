-- ===== src/Program/Client/Output.antt =====
-- What a run of cmd/client/main.go prints and how it ends.
use migp.Base.{
  ℕ, suc, ◌+◌, ◌<◌, ◌≡◌, ◌≢◌, refl, ap, sym, ◌∙◌, inl, inr, false, Bytes, List, [], ◌∷◌, ◌++◌, none,
  some, arith, length, append_assoc, append-nil, ◌==◌, if◌then◌else◌, Option-cases, Bool-cases,
}
use mathlib.Core.Path.{subst}
use migp.Base.Outcome.{Outcome, ok, err, panic, >>=-eq-ok, ok-injective, Outcome-cases, json_failed}
use migp.Protocol.Common.{Config, breach_status_string}
use migp.Protocol.Libraries.{Crypto, Oprf}
use migp.Protocol.Json.{Json}
use migp.Protocol.Client.{Finding}
use migp.Protocol.Query.{Network, Readings}
use migp.Service.Process.{split_fields}
use migp.Program.Client.{
  Flags, Totals, no_totals, add_answer, Summary, summary, answer_to, printed, query_lines,
  run_queries,
}

-- The lines that hold a credential pair.
abbrev pub pair_count : List Bytes → ℕ
pair_count [] = 0
pair_count (line ∷ lines) = elim (split_fields line) [
  | none ↦ pair_count lines
  | some pair ↦ suc (pair_count lines)
]

-- The credential pairs of the lines.
abbrev pub pairs_of : List Bytes → List (Bytes × Bytes)
pairs_of [] = []
pairs_of (line ∷ lines) = elim (split_fields line) [
  | none ↦ pairs_of lines
  | some pair ↦ pair ∷ pairs_of lines
]

module _ (o : Oprf) (c : Crypto) (json : Json) (network : Network) (coins : ℕ → o.Coins)
    (clock : ℕ → Readings) (flags : Flags) (cfg : Config) where
  -- The loop's result on these lines.
  abbrev loop : List Bytes → Totals → List Bytes → Outcome Totals × List Bytes
  loop = query_lines o c json network coins clock flags cfg

  -- Texts for pairs, in their order, as they are printed without passwords: each is what is made of
  -- the pair's own username, an empty password, and the status and the metadata that the query of the
  -- pair has ended with. The queries are numbered from `k` on, and the last pairs may have no text.
  abbrev pub AreRedacted : ℕ → List (Bytes × Bytes) → List Bytes → Type 0
  AreRedacted k pairs [] = Unit
  AreRedacted k [] (text ∷ texts) = ⊥
  AreRedacted k ((username, password) ∷ pairs) (text ∷ texts) =
      ((f : Finding) × ((answer_to o c json network coins clock flags cfg k username
            password).finding
          ≡ ok f)
        × (json.marshal_result username [] (breach_status_string f.status) f.metadata ≡ some text))
      × AreRedacted (suc k) pairs texts

  -- How a loop goes on that has printed `out` for its count of queries.
  record Printed (lines : List Bytes) (t : Totals) (out : List Bytes)
      (r : Outcome Totals × List Bytes) : Type 0 where
    new : List Bytes
    all : r.1 ≡ out ++ new
    counted :
        (t' : Totals)
        → r.0 ≡ ok t'
        → (t'.query_count ≡ t.query_count + pair_count lines) × (length new ≡ pair_count lines)
    redacted : flags.show_password ≡ false → AreRedacted t.query_count (pairs_of lines) new

  stopped :
      (lines : List Bytes) (t : Totals) (out : List Bytes) (r : Outcome Totals)
      → ((t' : Totals) → r ≢ ok t')
      → Printed lines t out (r, out)
  stopped lines t out r not_ok = record {
    new = [];
    all = sym (append-nil out);
    counted = λ t' e. absurd (not_ok t' e);
    redacted = λ h. tt;
  }

  skipped :
      (line : Bytes) (lines : List Bytes) (t : Totals) (out : List Bytes)
      (r : Outcome Totals × List Bytes)
      → split_fields line ≡ none
      → Printed lines t out r
      → Printed (line ∷ lines) t out r
  skipped line lines t out r e p = record {
    new = p.new;
    all = p.all;
    counted = λ t' ended. rw (e, pair_count) (p.counted t' ended);
    redacted = λ h. rw (e, pairs_of) (p.redacted h);
  }

  took :
      (line : Bytes) (lines : List Bytes) (t next : Totals) (out : List Bytes) (text : Bytes)
      (username password : Bytes) (f : Finding) (r : Outcome Totals × List Bytes)
      → split_fields line ≡ some (username, password)
      → next.query_count ≡ suc t.query_count
      → (answer_to o c json network coins clock flags cfg t.query_count username password).finding
        ≡ ok f
      → printed o c json network coins clock flags username password f ≡ some text
      → Printed lines next (out ++ text ∷ []) r
      → Printed (line ∷ lines) t out r
  took line lines t next out text username password f r e more found prints p = record {
    new = text ∷ p.new;
    all = p.all ∙ append_assoc out (text ∷ []) p.new;
    counted = λ t' ended.
        let (count, size) = p.counted t' ended in
        rw (e, pair_count) (omega (arith, count, more), omega (arith, size));
    redacted = λ h.
        let plain : json.marshal_result username [] (breach_status_string f.status) f.metadata
            ≡ some text =
          ap
            (λ b.
              json.marshal_result username (if b then password else [])
                (breach_status_string f.status) f.metadata)
            (sym h)
          ∙ prints in
        rw (e, pairs_of)
          (
            (f, found, plain),
            subst (λ k. AreRedacted k (pairs_of lines) p.new) more (p.redacted h),
          );
  }

  query_lines-Printed :
      (lines : List Bytes) (t : Totals) (out : List Bytes) → Printed lines t out (loop lines t out)
  unfolding query_lines
  query_lines-Printed [] t out = record {
    new = [];
    all = sym (append-nil out);
    counted = λ t' e. (ap (λ x. x.query_count) (sym (ok-injective e)) ∙ omega arith, refl);
    redacted = λ h. tt;
  }
  query_lines-Printed (line ∷ lines) t out = elim (Option-cases (split_fields line)) [
    | inl e ↦
        skipped line lines t out (loop (line ∷ lines) t out) e
          (rw (e, query_lines) (query_lines-Printed lines t out))
    | inr ((u, p), e) ↦
        let a = answer_to o c json network coins clock flags cfg t.query_count u p in
        elim (Outcome-cases a.finding) [
          | inr (inr ends) ↦
              rw (e, ends, query_lines) (stopped (line ∷ lines) t out panic (λ t' h. cc))
          | inr (inl (x, ends)) ↦
              rw (e, ends, query_lines) (stopped (line ∷ lines) t out (err x) (λ t' h. cc))
          | inl (f, found) ↦
              elim (Option-cases (printed o c json network coins clock flags u p f)) [
                | inl none_printed ↦
                    rw (e, found, none_printed, query_lines)
                      (stopped (line ∷ lines) t out (err json_failed) (λ t' h. cc))
                | inr (text, prints) ↦
                    took line lines t (add_answer t a) out text u p f (loop (line ∷ lines) t out) e
                      (unfold add_answer in omega arith) found prints
                      (rw (e, found, prints, query_lines)
                        (query_lines-Printed lines (add_answer t a) (out ++ text ∷ [])))
              ]
        ]
  ]

  no_pairs :
      (lines : List Bytes) → pair_count lines ≡ 0 → loop lines no_totals [] ≡ (ok no_totals, [])
  unfolding query_lines
  no_pairs [] h = refl
  no_pairs (line ∷ lines) h = elim (Option-cases (split_fields line)) [
    | inl e ↦ rw (e, query_lines) (no_pairs lines (rw (e, pair_count) at h))
    | inr (pair, e) ↦
        let bad : suc (pair_count lines) ≡ 0 = rw (e, pair_count) at h in absurd (omega arith)
  ]

  queries-Printed : (lines : List Bytes) → Printed lines no_totals [] (loop lines no_totals [])
  queries-Printed lines = query_lines-Printed lines no_totals []

  -- If the program ends with its averages, then it has printed one text for each line that holds a
  -- credential pair, there is such a line, and the count that it shows is the number of them.
  pub run_queries-eq-ok :
      (lines : List Bytes) (s : Summary)
      → (run_queries o c json network coins clock flags cfg lines).0 ≡ ok s
      → (0 < pair_count lines)
        × (s.count ≡ pair_count lines)
        × (length (run_queries o c json network coins clock flags cfg lines).1 ≡ pair_count lines)
  unfolding run_queries summary
  run_queries-eq-ok lines s e =
      let (t, ended, shown) = >>=-eq-ok (loop lines no_totals []).0 summary e in
      let p = queries-Printed lines in
      let (count, size) = p.counted t ended in
      elim (Bool-cases (t.query_count == 0)) [
        | inl zero_count ↦ let bad : panic ≡ ok s = rw (zero_count, summary) at shown in absurd (cc)
        | inr some_count ↦
            let same : t.query_count ≡ s.count =
              ap (λ x. x.count) (ok-injective (rw (some_count, summary) at shown)) in
            (ground (arith, count), omega (arith, same, count), ap length p.all ∙ size)
      ]

  -- Without a line that holds a credential pair the program panics, on a division by its count of
  -- queries, and has printed the text of no query.
  pub run_queries_panics :
      (lines : List Bytes)
      → pair_count lines ≡ 0
      → run_queries o c json network coins clock flags cfg lines ≡ (panic, [])
  unfolding run_queries summary
  run_queries_panics lines none_there = rw (no_pairs lines none_there) refl

  -- However the program ends, if it is not told to show passwords, then the texts that it has printed
  -- are, in order, those of the first pairs of its input, each made of the pair's own username, an
  -- empty password, and the status and the metadata that the query of the pair has ended with.
  pub run_queries-AreRedacted :
      (lines : List Bytes)
      → flags.show_password ≡ false
      → AreRedacted 0 (pairs_of lines) (run_queries o c json network coins clock flags cfg lines).1
  unfolding run_queries
  run_queries-AreRedacted lines hidden =
      let p = queries-Printed lines in
      subst (AreRedacted 0 (pairs_of lines)) (sym p.all) (p.redacted hidden)
