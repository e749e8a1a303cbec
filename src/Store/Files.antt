-- ===== src/Store/Files.antt =====
-- The file system, as cmd/server/kv.go uses it through package os, and the JSON of a bucket.
use migp.Base.{◌≡◌, Bool, Bytes, [], ◌++◌, Option, none, some, bytes_eq, if◌then◌else◌}
use migp.Base.Outcome.{Outcome, ok}

-- The two formats that have names; no caller passes another.
pub data FileFormat : Type 0 where
  json raw : FileFormat

-- Each operation that can fail comes back with the files as it left them.
pub record FileSystem : Type 1 where
  pub State : Type 0
  -- `os.Stat` does not say that there is no such file.
  pub exists : State → Bytes → Bool
  pub mkdir : State → Bytes → Outcome (Unit {0}) × State
  pub mkdir_all : State → Bytes → Outcome (Unit {0}) × State
  -- `os.OpenFile` with O_APPEND, O_CREATE and O_WRONLY, and one `Write`.
  pub append_file : State → Bytes → Bytes → Outcome (Unit {0}) × State
  -- `os.Create` and a copy.
  pub write_file : State → Bytes → Bytes → Outcome (Unit {0}) × State
  pub read_file : State → Bytes → Option Bytes
  -- `Marshal` and `Unmarshal` of kv.go, which are those of encoding/json.
  pub marshal : Bytes → Option Bytes
  pub unmarshal : Bytes → Option Bytes

abbrev pub old_or_empty : Option Bytes → Bytes
old_or_empty none = []
old_or_empty (some b) = b

-- What the code relies on: new directories change no file, and an append that succeeds adds the bytes
-- at the end of that file and of no other. A path is the name of a file here, so these are paths in
-- one form, as the program makes them.
pub record IsFileSystem (fs : FileSystem) : Type 0 where
  pub read-mkdir :
      (s : fs.State) (dir path : Bytes) → fs.read_file (fs.mkdir s dir).1 path ≡ fs.read_file s path
  pub read-mkdir_all :
      (s : fs.State) (dir path : Bytes)
      → fs.read_file (fs.mkdir_all s dir).1 path ≡ fs.read_file s path
  pub read-append :
      (s : fs.State) (path bytes other : Bytes)
      → (fs.append_file s path bytes).0 ≡ ok tt
      → fs.read_file (fs.append_file s path bytes).1 other ≡ (
          if bytes_eq path other
          then some (old_or_empty (fs.read_file s path) ++ bytes)
          else fs.read_file s other)
