-- ===== src/Program/Server/Input.antt =====
-- What the input of cmd/server/main.go puts into each bucket, line by line and file by file, and what
-- `main` does with it.
use migp.Base.{
  ℕ, ◌≡◌, refl, ap, sym, ◌∙◌, inl, inr, not, Bytes, bytes_eq, List, [], ◌∷◌, ◌++◌, Option, none,
  some, append_assoc, append-nil, Option-cases, Bool-cases, if◌then◌else◌,
}
use mathlib.Core.Path.{subst}
use migp.Base.Outcome.{Outcome, ok, err, panic, ◌>>=◌, Outcome-cases, >>=-eq-ok, file_error}
use migp.Protocol.Libraries.{Crypto, Oprf}
use migp.Protocol.Server.{Server}
use migp.Store.{KvStore, new_kv_store, find, get}
use migp.Store.Files.{FileSystem, IsFileSystem}
use migp.Store.Paths.{IsId}
use migp.Store.Save.{saved, get-saved, saved-save_credentials}
use migp.Service.{insert}
use migp.Service.Entries.{inserted_bytes, insert_on_every_outcome}
use migp.Service.Invariant.{IsSound}
use migp.Service.Process.{split_fields, Counts, process_lines, process_lines-total}
use migp.Service.System.{System}
use migp.Service.System.Grows.{new_kv_store-IsSound}
use migp.Program.Buckets.{Visit, is_visible_file}
use migp.Program.Server.{
  Flags, Surroundings, process_credentials, save, and_then, emptied, load_directory, load,
}
use migp.Program.Server.Steps.{and_then-eq-ok}

module _ (o : Oprf) (c : Crypto) (sum32 : Bytes → ℕ) (s : Server o) (flags : Flags)
    (around : Surroundings o) where
  -- The bytes that a bucket is given for a line: none if the line has no colon.
  abbrev pair_bytes : Option (Bytes × Bytes) → Bytes → Bytes
  pair_bytes none j = []
  pair_bytes (some (username, password)) j =
      inserted_bytes o c sum32 s username flags.metadata password flags.num_variants
        flags.include_username_variant j

  abbrev pub lines_bytes : List Bytes → Bytes → Bytes
  lines_bytes [] j = []
  lines_bytes (line ∷ lines) j = pair_bytes (split_fields line) j ++ lines_bytes lines j

  abbrev read_bytes : Option (List Bytes) → Bytes → Bytes
  read_bytes none j = []
  read_bytes (some lines) j = lines_bytes lines j

  -- For a file, and for the visible files of a walk.
  abbrev pub file_bytes : Bytes → Bytes → Bytes
  file_bytes path = read_bytes (around.lines_of path)

  abbrev pub files_bytes : List Visit → Bytes → Bytes
  files_bytes [] j = []
  files_bytes (v ∷ visits) j =
      (if is_visible_file v then file_bytes v.path j else []) ++ files_bytes visits j

  -- For the directory, or else the file, that the flags name.
  abbrev pub input_bytes : Bytes → Bytes
  input_bytes j =
      if not (bytes_eq flags.input_dirname [])
      then files_bytes (around.walk flags.input_dirname) j
      else if not (bytes_eq flags.input_filename [])
      then file_bytes flags.input_filename j
      else []

  abbrev lines_run : List Bytes → Counts → KvStore → Outcome Counts × KvStore
  lines_run =
      process_lines o c sum32 s flags.metadata flags.num_variants flags.include_username_variant

  after_first : (a b d x y : Bytes) → x ≡ a ++ b → y ≡ x ++ d → y ≡ a ++ (b ++ d)
  after_first a b d x y h k = k ∙ ap (λ t. t ++ d) h ∙ append_assoc a b d

  process_lines-adds :
      (lines : List Bytes) (counts m : Counts) (kv : KvStore)
      → (lines_run lines counts kv).0 ≡ ok m
      → (j : Bytes)
      → find j (lines_run lines counts kv).1.store ≡ find j kv.store ++ lines_bytes lines j
  unfolding process_lines
  process_lines-adds [] counts m kv e j = sym (append-nil (find j kv.store))
  process_lines-adds (line ∷ lines) counts m kv e j = elim (Option-cases (split_fields line)) [
    | inl h ↦ rw (h, process_lines) (process_lines-adds lines _ m kv (rw (h, process_lines) at e) j)
    | inr ((u, p), h) ↦
        let r =
          insert o c sum32 s u flags.metadata p flags.num_variants flags.include_username_variant
            kv in
        let adds =
          (insert_on_every_outcome o c sum32 s u flags.metadata p flags.num_variants
              flags.include_username_variant kv).1
            j in
        elim (Outcome-cases r.0) [
          | inl (v, i) ↦
              rw (h, i, process_lines)
                (after_first (find j kv.store) _ (lines_bytes lines j) (find j r.1.store) _ adds
                  (process_lines-adds lines _ m r.1 (rw (h, i, process_lines) at e) j))
          | inr (inl (x, i)) ↦
              rw (h, i, process_lines)
                (after_first (find j kv.store) _ (lines_bytes lines j) (find j r.1.store) _ adds
                  (process_lines-adds lines _ m r.1 (rw (h, i, process_lines) at e) j))
          | inr (inr i) ↦ let wrong : panic ≡ ok m = rw (h, i, process_lines) at e in absurd (cc)
        ]
  ]

  module _ (fs : FileSystem) (lawful : IsFileSystem fs) where
    abbrev Result : Type 0
    Result = Outcome (Unit {0}) × System fs

    abbrev processed : Bytes → System fs → Result
    processed = process_credentials o c fs sum32 s flags around

    -- One file, processed from an empty store, and saved.
    one_file :
        (path : Bytes) (y : System fs)
        → y.kv ≡ new_kv_store
        → (and_then fs (processed path y) (save fs)).0 ≡ ok tt
        → (id : Bytes) → IsId id
        → saved fs lawful (and_then fs (processed path y) (save fs)).1.disk id
          ≡ saved fs lawful y.disk id ++ file_bytes path id
    unfolding save process_credentials find
    one_file path y new done id hid =
        let (read, after) = and_then-eq-ok fs (processed path y) (save fs) done in
        elim (Option-cases (around.lines_of path)) [
          | inl e ↦
              let wrong : err file_error ≡ ok tt = rw (e, process_credentials) at read in
              absurd (cc)
          | inr (lines, e) ↦
              let r = lines_run lines (record { success_count = 0; failure_count = 0 }) y.kv in
              let reads : processed path y
                  ≡ (r.0 >>= λ n. ok tt, record { kv = r.1; disk = y.disk }) =
                rw (e, process_credentials) refl in
              let (m, ends, u) = >>=-eq-ok r.0 (λ n. ok tt) (ap (λ t. t.0) (sym reads) ∙ read) in
              let sound =
                (process_lines-total o c sum32 s flags.metadata flags.num_variants
                  flags.include_username_variant lines
                  (record { success_count = 0; failure_count = 0 }) y.kv
                  (subst (λ kv. IsSound kv) (sym new) new_kv_store-IsSound)).1 in
              let full : System fs = record { kv = r.1; disk = y.disk } in
              let whole : and_then fs (processed path y) (save fs) ≡ save fs full =
                after ∙ ap (λ t. save fs t.1) reads in
              let adds : find id r.1.store ≡ lines_bytes lines id =
                process_lines-adds lines _ m y.kv ends id
                ∙ ap (λ kv. find id kv.store ++ lines_bytes lines id) new in
              ap (λ t. saved fs lawful t.1.disk id) whole
              ∙ saved-save_credentials fs lawful r.1 y.disk id sound.map sound.ids hid
                  (ap (λ t. t.0) (sym whole) ∙ done)
              ∙ ap (λ t. saved fs lawful y.disk id ++ t) (adds ∙ ap (λ t. read_bytes t id) (sym e))
        ]

    load_directory-adds :
        (visits : List Visit) (y : System fs)
        → y.kv ≡ new_kv_store
        → (load_directory o c fs sum32 s flags around visits y).0 ≡ ok tt
        → (id : Bytes) → IsId id
        → saved fs lawful (load_directory o c fs sum32 s flags around visits y).1.disk id
          ≡ saved fs lawful y.disk id ++ files_bytes visits id
    unfolding load_directory
    load_directory-adds [] y new done id hid = sym (append-nil (saved fs lawful y.disk id))
    load_directory-adds (v ∷ visits) y new done id hid = elim (Bool-cases v.fine) [
      | inr bad ↦
          let wrong : err file_error ≡ ok tt = rw (bad, load_directory) at done in absurd (cc)
      | inl fine ↦ elim (Bool-cases (is_visible_file v)) [
        | inr hidden ↦
            rw (fine, hidden, load_directory)
              (load_directory-adds visits y new (rw (fine, hidden, load_directory) at done) id hid)
        | inl shown ↦
            let file = and_then fs (processed v.path y) (save fs) in
            let next : System fs → Result =
              λ z. load_directory o c fs sum32 s flags around visits (emptied fs z) in
            let ends : (and_then fs file next).0 ≡ ok tt =
              rw (fine, shown, load_directory) at done in
            let (one, rest) = and_then-eq-ok fs file next ends in
            let first = one_file v.path y new one id hid in
            let others =
              load_directory-adds visits (emptied fs file.1) refl (ap (λ r. r.0) (sym rest) ∙ ends)
                id hid in
            rw (fine, shown, load_directory)
              (ap (λ t. saved fs lawful t.1.disk id) rest
                ∙ after_first (saved fs lawful y.disk id) (file_bytes v.path id)
                    (files_bytes visits id) (saved fs lawful file.1.disk id) _ first others)
      ]
    ]

    load-adds :
        (y : System fs)
        → y.kv ≡ new_kv_store
        → (load o c fs sum32 s flags around y).0 ≡ ok tt
        → (id : Bytes) → IsId id
        → saved fs lawful (load o c fs sum32 s flags around y).1.disk id
          ≡ saved fs lawful y.disk id ++ input_bytes id
    unfolding load
    load-adds y new done id hid = elim (Bool-cases (not (bytes_eq flags.input_dirname []))) [
      | inl directory ↦
          rw (directory, load)
            (load_directory-adds (around.walk flags.input_dirname) y new
              (rw (directory, load) at done) id hid)
      | inr no_directory ↦ elim (Bool-cases (not (bytes_eq flags.input_filename []))) [
        | inl file ↦
            rw (no_directory, file, load)
              (one_file flags.input_filename y new (rw (no_directory, file, load) at done) id hid)
        | inr nothing ↦
            rw (no_directory, nothing, load) (sym (append-nil (saved fs lawful y.disk id)))
      ]
    ]

    -- `Get` returns for every identifier what it returned before, with the bytes of the input behind it.
    abbrev pub Loads : fs.State → fs.State → Type 0
    Loads disk disk' =
        (id : Bytes)
        → IsId id
        → (old : Bytes) × (get fs disk id ≡ ok old) × (get fs disk' id ≡ ok (old ++ input_bytes id))

    pub load-Loads :
        (y : System fs)
        → y.kv ≡ new_kv_store
        → (load o c fs sum32 s flags around y).0 ≡ ok tt
        → Loads y.disk (load o c fs sum32 s flags around y).1.disk
    load-Loads y new done id hid = (
      saved fs lawful y.disk id,
      get-saved fs lawful y.disk id hid,
      get-saved fs lawful _ id hid ∙ ap ok (load-adds y new done id hid),
    )
