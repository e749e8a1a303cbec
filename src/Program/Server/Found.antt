-- ===== src/Program/Server/Found.antt =====
-- A credential pair in the input of cmd/server/main.go, as clients of a server over the files see it.
use migp.Base.{
  ℕ, ◌+◌, ◌≡◌, false, refl, ap, sym, ◌∙◌, inl, inr, true, Bytes, bytes_eq, List, [], ◌∷◌, ◌++◌,
  Option-cases, some,
}
use mathlib.Core.Path.{subst}
use migp.Base.Outcome.{Outcome, ok, err, panic, ◌>>=◌, Outcome-cases, >>=-eq-ok}
use migp.Protocol.Libraries.{Crypto, Oprf}
use migp.Protocol.Server.{Server}
use migp.Store.{KvStore, new_kv_store}
use migp.Store.Files.{FileSystem}
use migp.Service.{insert}
use migp.Service.Process.{split_fields, Counts, process_lines}
use migp.Service.System.{System, after_insert, after_save, Reach, next, saves}
use migp.Program.Server.{Flags, Surroundings, process_credentials, save, and_then, load}
use migp.Program.Server.Main.{start}
use migp.Program.Server.Steps.{process_lines-Reach, and_then-eq-ok}

abbrev pub no_counts : Counts
no_counts = record { success_count = 0; failure_count = 0 }

module _ (o : Oprf) (c : Crypto) (fs : FileSystem) (sum32 : Bytes → ℕ) (s : Server o)
    (flags : Flags) (around : Surroundings o) where
  -- The loop of `processCredentials` with the program's flags.
  abbrev pub lines_run : List Bytes → Counts → KvStore → Outcome Counts × KvStore
  lines_run =
      process_lines o c sum32 s flags.metadata flags.num_variants flags.include_username_variant

  abbrev going_on :
      Outcome Counts × KvStore
      → (Counts → KvStore → Outcome Counts × KvStore)
      → Outcome Counts × KvStore
  going_on (ok counts, kv) f = f counts kv
  going_on (err e, kv) f = (err e, kv)
  going_on (panic, kv) f = (panic, kv)

  process_lines-append :
      (xs ys : List Bytes) (counts : Counts) (kv : KvStore)
      → lines_run (xs ++ ys) counts kv ≡ going_on (lines_run xs counts kv) (lines_run ys)
  unfolding process_lines
  process_lines-append [] ys counts kv = refl
  process_lines-append (line ∷ xs) ys counts kv = elim (Option-cases (split_fields line)) [
    | inl e ↦ rw (e, process_lines) (process_lines-append xs ys _ kv)
    | inr ((u, p), e) ↦
        let r =
          insert o c sum32 s u flags.metadata p flags.num_variants flags.include_username_variant
            kv in
        elim (Outcome-cases r.0) [
          | inl (v, i) ↦ rw (e, i, process_lines) (process_lines-append xs ys _ r.1)
          | inr (inl (x, i)) ↦ rw (e, i, process_lines) (process_lines-append xs ys _ r.1)
          | inr (inr i) ↦ rw (e, i, process_lines) refl
        ]
  ]

  going_on-eq-ok :
      (r : Outcome Counts × KvStore) (f : Counts → KvStore → Outcome Counts × KvStore) (m : Counts)
      → (going_on r f).0 ≡ ok m
      → (counts : Counts) × (going_on r f ≡ f counts r.1)
  going_on-eq-ok (ok counts, kv) f m e = (counts, refl)
  going_on-eq-ok (err x, kv) f m e = cc
  going_on-eq-ok (panic, kv) f m e = cc

  module _ (earlier later : List Bytes) (line username password : Bytes)
      (pair : split_fields line ≡ some (username, password)) (disk : fs.State) where
    -- The store that the earlier lines leave.
    abbrev pub store_before : KvStore
    store_before = (lines_run earlier no_counts new_kv_store).1

    abbrev pub at_pair : System fs
    at_pair =
        after_insert o c fs sum32 s (record { kv = store_before; disk = disk }) username password
          flags.metadata flags.num_variants flags.include_username_variant

    abbrev pub InsertsPair : Type 0
    InsertsPair =
        (insert o c sum32 s username flags.metadata password flags.num_variants
          flags.include_username_variant store_before).0
        ≡ ok tt

    first_line :
        InsertsPair
        → (counts : Counts)
        → lines_run (line ∷ later) counts store_before
          ≡ lines_run later
              (record {
                success_count = counts.success_count + 1;
                failure_count = counts.failure_count;
              })
              at_pair.kv
    unfolding process_lines
    first_line done counts = rw (pair, done, process_lines) refl

    abbrev all_run : Outcome Counts × KvStore
    all_run = lines_run (earlier ++ line ∷ later) no_counts new_kv_store

    at_pair-Reach :
        InsertsPair
        → (m : Counts) → all_run.0 ≡ ok m
        → Reach o c fs sum32 s at_pair (record { kv = all_run.1; disk = disk })
    at_pair-Reach done m e =
        let parts = process_lines-append earlier (line ∷ later) no_counts new_kv_store in
        let (counts, goes) =
          going_on-eq-ok (lines_run earlier no_counts new_kv_store) (lines_run (line ∷ later)) m
            (ap (λ r. r.0) (sym parts) ∙ e) in
        subst (λ r. Reach o c fs sum32 s at_pair (record { kv = r.1; disk = disk }))
          (sym (parts ∙ goes ∙ first_line done counts))
          (process_lines-Reach o c fs sum32 s flags.metadata flags.num_variants
            flags.include_username_variant later _ at_pair)

    -- What a load of the whole file leaves on disk is what a run leaves that goes on from the pair.
    pub record Kept (disk' : fs.State) : Type 0 where
      pub saved_from : System fs
      pub run : Reach o c fs sum32 s at_pair (after_save o c fs sum32 s saved_from)
      pub same_files : (after_save o c fs sum32 s saved_from).disk ≡ disk'

    pub load-Kept :
        InsertsPair
        → bytes_eq flags.input_dirname [] ≡ true
        → bytes_eq flags.input_filename [] ≡ false
        → around.lines_of flags.input_filename ≡ some (earlier ++ line ∷ later)
        → (load o c fs sum32 s flags around (start o c fs sum32 disk)).0 ≡ ok tt
        → Kept (load o c fs sum32 s flags around (start o c fs sum32 disk)).1.disk
    unfolding load process_credentials save
    load-Kept done no_directory file lines loaded =
        let y = start o c fs sum32 disk in
        let read = process_credentials o c fs sum32 s flags around flags.input_filename y in
        let same : load o c fs sum32 s flags around y ≡ and_then fs read (save fs) =
          rw (no_directory, file, load) refl in
        let (ends, saved) = and_then-eq-ok fs read (save fs) (ap (λ r. r.0) (sym same) ∙ loaded) in
        let reads : read ≡ (all_run.0 >>= λ n. ok tt, record { kv = all_run.1; disk = disk }) =
          rw (lines, process_credentials) refl in
        let (m, counted, u) = >>=-eq-ok all_run.0 (λ n. ok tt) (ap (λ r. r.0) (sym reads) ∙ ends) in
        let whole = same ∙ saved ∙ ap (λ r. save fs r.1) reads in
        record {
          saved_from = record { kv = all_run.1; disk = disk };
          run =
              next (at_pair-Reach done m counted) (
                saves (record { kv = all_run.1; disk = disk })
                  (ap (λ r. r.0) (sym whole) ∙ loaded));
          same_files = ap (λ r. r.1.disk) (sym whole);
        }
