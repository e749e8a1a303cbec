-- ===== src/Program/Server.antt =====
-- `main` of cmd/server/main.go, over the state of Service/System. What it prints of times and sizes is
-- left out.
pub mod Steps
pub mod Input
pub mod Main
pub mod Found
pub mod Tests
use migp.Base.{
  ℕ, Bool, true, false, not, Bytes, codes, List, [], ◌∷◌, Option, none, some, bytes_eq,
  if◌then◌else◌,
}
use migp.Base.Int.{ℤ}
use migp.Base.Outcome.{Outcome, ok, err, panic, ◌>>=◌, or_fail, file_error}
use migp.Protocol.Libraries.{Crypto, Oprf}
use migp.Protocol.Json.{Json}
use migp.Protocol.Server.{Server, ServerConfig, default_server_config}
use migp.Protocol.ServerConfig.{marshal_json, unmarshal_json}
use migp.Store.{KvStore, new_kv_store, save_credentials}
use migp.Store.Files.{FileSystem}
use migp.Service.{new_demo_server}
use migp.Service.Process.{Counts, process_lines}
use migp.Service.System.{System}
use migp.Program.Buckets.{Visit, is_visible_file, Statistics, avg_bucket_size}

pub record Flags : Type 0 where
  pub config_file : Bytes
  pub dump_config : Bool
  pub start : Bool
  pub test : Bool
  pub input_dirname : Bytes
  pub input_filename : Bytes
  pub metadata : Bytes
  pub num_variants : ℤ
  pub include_username_variant : Bool

-- What surrounds the program, beside the store's files: `os.ReadFile`, the lines of an input ("-" is
-- the standard input), the entries that `filepath.Walk` visits, a new OPRF key, and the square root.
pub record Surroundings (o : Oprf) : Type 0 where
  pub read_file : Bytes → Option Bytes
  pub lines_of : Bytes → Option (List Bytes)
  pub walk : Bytes → List Visit
  pub generated_key : Option o.PrivateKey
  pub root_of_ratio : ℕ → ℕ → ℕ

-- How `main` ends, if it does not exit after an error.
pub data Ending : Type 0 where
  dumped : Bytes → Ending
  -- `ListenAndServe` is called, after statistics or without them.
  serving : Option Statistics → Ending
  loaded : Ending

module _ (fs : FileSystem) where
  -- `if err := …; err != nil { log.Fatal(err) }` between two calls
  abbrev pub and_then :
      Outcome (Unit {0}) × System fs
      → (System fs → Outcome (Unit {0}) × System fs)
      → Outcome (Unit {0}) × System fs
  and_then (panic, y) next = (panic, y)
  and_then (err e, y) next = (err e, y)
  and_then (ok u, y) next = next y

  abbrev pub emptied : System fs → System fs
  emptied y = record { kv = new_kv_store; disk = y.disk }

  -- `saveCredentials` on the system; the store stays as it is.
  unfoldable pub save : System fs → Outcome (Unit {0}) × System fs
  save y =
      let (saved, disk) = save_credentials fs y.kv y.disk in
      (saved, record { kv = y.kv; disk = disk })

module _ (o : Oprf) (json : Json) where
  unfoldable pub main_config : Flags → Surroundings o → Outcome (ServerConfig o)
  main_config flags around =
      if not (bytes_eq flags.config_file [])
      then (do
        text ← or_fail file_error (around.read_file flags.config_file)
        unmarshal_json o json text)
      else default_server_config o around.generated_key

module _ (o : Oprf) (c : Crypto) (fs : FileSystem) (sum32 : Bytes → ℕ) where
  module _ (s : Server o) (flags : Flags) (around : Surroundings o) where
    -- `processCredentials`: an input that cannot be opened ends the program.
    unfoldable pub process_credentials : Bytes → System fs → Outcome (Unit {0}) × System fs
    unfolding process_lines
    process_credentials path y = elim (around.lines_of path) [
      | none ↦ (err file_error, y)
      | some lines ↦
          let no_counts : Counts = record { success_count = 0; failure_count = 0 } in
          let (counts, kv) =
            process_lines o c sum32 s flags.metadata flags.num_variants
              flags.include_username_variant lines no_counts y.kv in
          (counts >>= λ n. ok tt, record { kv = kv; disk = y.disk })
    ]

    -- The function that walks the input directory: each visible file is processed and saved, and the
    -- store is made anew.
    unfoldable pub load_directory : List Visit → System fs → Outcome (Unit {0}) × System fs
    unfolding process_credentials save
    load_directory [] y = (ok tt, y)
    load_directory (v ∷ visits) y = elim v.fine [
      | false ↦ (err file_error, y)
      | true ↦ elim (is_visible_file v) [
        | false ↦ load_directory visits y
        | true ↦
            and_then fs (and_then fs (process_credentials v.path y) (save fs))
              (λ z. load_directory visits (emptied fs z))
      ]
    ]

    -- The end of `main`: a directory, or else a file.
    unfoldable pub load : System fs → Outcome (Unit {0}) × System fs
    unfolding load_directory process_credentials save
    load y =
        if not (bytes_eq flags.input_dirname [])
        then load_directory (around.walk flags.input_dirname) y
        else if not (bytes_eq flags.input_filename [])
        then and_then fs (process_credentials flags.input_filename y) (save fs)
        else (ok tt, y)

  -- `main` behind `newServer`.
  unfoldable pub run_server :
      Server o → Flags → Surroundings o → System fs → Outcome Ending × System fs
  unfolding load
  run_server s flags around y =
      if flags.start
      then (ok (serving none), y)
      else if flags.test
      then (
        avg_bucket_size fs y.disk around.root_of_ratio (around.walk (codes "./store_test")) >>= λ r.
            ok (serving (some r)),
        y,
      )
      else (let (ended, z) = load s flags around y in (ended >>= λ u. ok loaded, z))

  module _ (json : Json) where
    unfoldable pub server_main : Flags → Surroundings o → fs.State → Outcome Ending × System fs
    unfolding main_config run_server
    server_main flags around disk =
        let y : System fs = record { kv = new_kv_store; disk = disk } in
        elim (main_config o json flags around) [
          | panic ↦ (panic, y)
          | err e ↦ (err e, y)
          | ok cfg ↦
              if flags.dump_config
              then (marshal_json o json cfg >>= λ text. ok (dumped text), y)
              else (elim (new_demo_server o cfg) [
                | panic ↦ (panic, y)
                | err e ↦ (err e, y)
                | ok d ↦ run_server d.migp_server flags around (record { kv = d.kv; disk = disk })
              ])
        ]
