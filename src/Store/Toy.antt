-- ===== src/Store/Toy.antt =====
-- A file system for the tests: a list of files, the newest first, without directories.
use migp.Base.{
  refl, Bool, true, false, Bytes, List, [], ◌∷◌, ◌++◌, Option, none, some, bytes_eq, if◌then◌else◌,
}
use migp.Base.Outcome.{ok, err, file_error}
use migp.Store.Files.{FileSystem, IsFileSystem, old_or_empty}

abbrev pub read : List (Bytes × Bytes) → Bytes → Option Bytes
read [] path = none
read ((p, bytes) ∷ files) path = if bytes_eq p path then some bytes else read files path

abbrev pub is_there : List (Bytes × Bytes) → Bytes → Bool
is_there files path = elim (read files path) [ none ↦ false | some bytes ↦ true ]

abbrev pub toy_files : FileSystem
toy_files = record {
  State = List (Bytes × Bytes);
  exists = is_there;
  mkdir = λ files dir. (err file_error, files);
  mkdir_all = λ files dir. (ok tt, files);
  append_file =
      λ files path bytes. (ok tt, (path, old_or_empty (read files path) ++ bytes) ∷ files);
  write_file = λ files path bytes. (ok tt, (path, bytes) ∷ files);
  read_file = read;
  marshal = λ bytes. some bytes;
  unmarshal = λ text. some text;
}

pub toy_files-IsFileSystem : IsFileSystem toy_files
toy_files-IsFileSystem = record {
  read-mkdir = λ files dir path. refl;
  read-mkdir_all = λ files dir path. refl;
  read-append = λ files path bytes other done. refl;
}
