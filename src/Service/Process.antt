-- ===== src/Service/Process.antt =====
-- `processCredentials` of cmd/server/main.go, on the lines that its scanner gives. Program/Server
-- has the whole function.
use migp.Base.{
  ℕ, suc, ◌+◌, ◌≡◌, ◌⊎◌, refl, inl, inr, Bool, true, false, Bytes, All, List, [], ◌∷◌, ◌++◌, Option,
  none, some, arith, length, ◌==◌, Option-cases,
}
use migp.Base.Int.{ℤ}
use migp.Base.Outcome.{Outcome, ok, err, panic, Outcome-cases}
use migp.Protocol.Libraries.{Crypto, Oprf}
use migp.Protocol.Server.{Server}
use migp.Store.{KvStore}
use migp.Service.{insert}
use migp.Service.Invariant.{IsSound, insert-IsSound}

-- `bytes.SplitN(line, ":", 2)`, where it gives two fields.
unfoldable pub split_fields : Bytes → Option (Bytes × Bytes)
split_fields [] = none
split_fields (x ∷ line) = elim (x == b':') [
  | true ↦ some ([], line)
  | false ↦ elim (split_fields line) [ none ↦ none | some (u, p) ↦ some (x ∷ u, p) ]
]

pub record Counts : Type 0 where
  pub success_count : ℕ
  pub failure_count : ℕ

abbrev one_success : Counts → Counts
one_success n = record { success_count = n.success_count + 1; failure_count = n.failure_count }

abbrev one_failure : Counts → Counts
one_failure n = record { success_count = n.success_count; failure_count = n.failure_count + 1 }

-- The fields of a line are the parts around its first colon, so a password may hold colons and a
-- username may not.
pub split_fields-append :
    (username password : Bytes)
    → All (λ x. (x == b':') ≡ false) username
    → split_fields (username ++ b':' ∷ password) ≡ some (username, password)
unfolding split_fields
split_fields-append [] password h = refl
split_fields-append (x ∷ username) password (e, h) =
    rw (e, split_fields, split_fields-append username password h) refl

module _ (o : Oprf) (c : Crypto) (sum32 : Bytes → ℕ) (s : Server o) (metadata : Bytes) (n : ℤ)
    (include : Bool) where
  -- The loop over the lines; a panic of `insert` ends the program.
  unfoldable pub process_lines : List Bytes → Counts → KvStore → Outcome Counts × KvStore
  unfolding split_fields insert
  process_lines [] counts kv = (ok counts, kv)
  process_lines (line ∷ lines) counts kv = elim (split_fields line) [
    | none ↦ process_lines lines (one_failure counts) kv
    | some (username, password) ↦
        let (inserted, kv') = insert o c sum32 s username metadata password n include kv in
        elim inserted [
          | ok u ↦ process_lines lines (one_success counts) kv'
          | err e ↦ process_lines lines (one_failure counts) kv'
          | panic ↦ (panic, kv')
        ]
  ]

  abbrev pub total : Counts → ℕ
  total counts = counts.success_count + counts.failure_count

  -- A loop that ends without a panic has counted that many lines.
  abbrev pub IsCounted : Counts → ℕ → Outcome Counts × KvStore → Type 0
  IsCounted counts lines r =
      ((r.0 ≡ panic) ⊎ ((m : Counts) × (r.0 ≡ ok m) × (total m ≡ total counts + lines)))
      × IsSound r.1

  one_more :
      (counts next : Counts) (lines : ℕ) (r : Outcome Counts × KvStore)
      → total next ≡ total counts + 1
      → IsCounted next lines r
      → IsCounted counts (suc lines) r
  one_more counts next lines r more (result, after) =
      (elim result [ inl e ↦ inl e | inr (m, e, t) ↦ inr (m, e, omega arith) ], after)

  -- Every line is counted once, as a success or as a failure, if the loop ends without a panic, and
  -- whatever it ends with, a store with one pair to a key and with keys of eight ASCII characters is
  -- again such a store.
  pub process_lines-total :
      (lines : List Bytes) (counts : Counts) (kv : KvStore)
      → IsSound kv
      → IsCounted counts (length lines) (process_lines lines counts kv)
  unfolding process_lines
  process_lines-total [] counts kv h = (inr (counts, refl, omega arith), h)
  process_lines-total (line ∷ lines) counts kv h = elim (Option-cases (split_fields line)) [
    | inl e ↦
        rw (e, process_lines)
          (one_more counts (one_failure counts) (length lines)
            (process_lines lines (one_failure counts) kv) (omega arith)
            (process_lines-total lines (one_failure counts) kv h))
    | inr ((u, p), e) ↦
        let kept = insert-IsSound o c sum32 s u metadata p n include kv h in
        let kv' = (insert o c sum32 s u metadata p n include kv).1 in
        elim (Outcome-cases (insert o c sum32 s u metadata p n include kv).0) [
          | inl (v, i) ↦
              rw (e, i, process_lines)
                (one_more counts (one_success counts) (length lines)
                  (process_lines lines (one_success counts) kv') (omega arith)
                  (process_lines-total lines (one_success counts) kv' kept))
          | inr (inl (x, i)) ↦
              rw (e, i, process_lines)
                (one_more counts (one_failure counts) (length lines)
                  (process_lines lines (one_failure counts) kv') (omega arith)
                  (process_lines-total lines (one_failure counts) kv' kept))
          | inr (inr i) ↦ rw (e, i, process_lines) (inl refl, kept)
        ]
  ]
