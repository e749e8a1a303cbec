-- ===== src/Program/Server/Steps.antt =====
-- The loop of `processCredentials` of cmd/server/main.go as steps of Service/System, and the calls of
-- `main` one after the other.
use migp.Base.{ℕ, ◌≡◌, refl, inl, inr, Bool, Bytes, List, [], ◌∷◌, Option-cases}
use migp.Base.Int.{ℤ}
use migp.Base.Outcome.{Outcome, ok, err, panic, Outcome-cases}
use migp.Protocol.Libraries.{Crypto, Oprf}
use migp.Protocol.Server.{Server}
use migp.Store.{KvStore}
use migp.Store.Files.{FileSystem}
use migp.Service.{insert}
use migp.Service.Process.{split_fields, Counts, process_lines}
use migp.Service.System.{System, after_insert, inserted, Reach, here, next, Reach-trans}
use migp.Program.Server.{and_then}

module _ (o : Oprf) (c : Crypto) (fs : FileSystem) (sum32 : Bytes → ℕ) (s : Server o) where
  abbrev Run : System fs → System fs → Type 0
  Run = Reach o c fs sum32 s

  one_insert :
      (y : System fs) (username password metadata : Bytes) (n : ℤ) (include : Bool) (z : System fs)
      → Run (after_insert o c fs sum32 s y username password metadata n include) z
      → Run y z
  one_insert y username password metadata n include z =
      Reach-trans o c fs sum32 s (next here (inserted y username password metadata n include))

  module _ (metadata : Bytes) (n : ℤ) (include : Bool) where
    abbrev lines_run : List Bytes → Counts → KvStore → Outcome Counts × KvStore
    lines_run = process_lines o c sum32 s metadata n include

    -- Whatever the loop over the lines ends with, it has only inserted.
    pub process_lines-Reach :
        (lines : List Bytes) (counts : Counts) (y : System fs)
        → Run y (record { kv = (lines_run lines counts y.kv).1; disk = y.disk })
    unfolding process_lines
    process_lines-Reach [] counts y = here
    process_lines-Reach (line ∷ lines) counts y = elim (Option-cases (split_fields line)) [
      | inl e ↦ rw (e, process_lines) (process_lines-Reach lines _ y)
      | inr ((u, p), e) ↦
          let z = after_insert o c fs sum32 s y u p metadata n include in
          elim (Outcome-cases (insert o c sum32 s u metadata p n include y.kv).0) [
            | inl (v, i) ↦
                rw (e, i, process_lines)
                  (one_insert y u p metadata n include _ (process_lines-Reach lines _ z))
            | inr (inl (x, i)) ↦
                rw (e, i, process_lines)
                  (one_insert y u p metadata n include _ (process_lines-Reach lines _ z))
            | inr (inr i) ↦ rw (e, i, process_lines) (one_insert y u p metadata n include _ here)
          ]
    ]

pub and_then-eq-ok :
    (fs : FileSystem) (r : Outcome (Unit {0}) × System fs)
    (f : System fs → Outcome (Unit {0}) × System fs)
    → (and_then fs r f).0 ≡ ok tt
    → (r.0 ≡ ok tt) × (and_then fs r f ≡ f r.1)
and_then-eq-ok fs (ok u, y) f e = (refl, refl)
and_then-eq-ok fs (err x, y) f e = cc
and_then-eq-ok fs (panic, y) f e = cc
