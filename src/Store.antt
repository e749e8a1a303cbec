-- ===== src/Store.antt =====
-- cmd/server/kv.go: buckets in memory, and the files that they are saved to. The locks are not
-- modelled: the operations are taken one at a time, which is what the locks are for.
pub mod Files
pub mod Memory
pub mod Paths
pub mod Save
pub mod Order
pub mod Toy
pub mod Tests
use migp.Base.{
  ℕ, zero, suc, ◌-◌, ◌+◌, Bool, true, false, not, Bytes, codes, List, [], ◌∷◌, ◌++◌, Option, none,
  some, length, take, bytes_eq, if◌then◌else◌,
}
use migp.Base.Utf8.{rest_width}
use migp.Base.Outcome.{Outcome, ok, err, panic, ◌>>=◌, or_fail, file_error}
use migp.Store.Files.{FileSystem, FileFormat, json, raw}

-- The Go map of `kvStore`, one pair to a key.
pub record KvStore : Type 0 where
  pub store : List (Bytes × Bytes)

-- `newKVStore`
abbrev pub new_kv_store : KvStore
new_kv_store = record { store = [] }

-- `kv.store[id]`: a missing key reads as nil.
unfoldable pub find : Bytes → List (Bytes × Bytes) → Bytes
find id [] = []
find id ((k, v) ∷ m) = if bytes_eq k id then v else find id m

-- `kv.store[id] = value`
unfoldable pub assign : Bytes → Bytes → List (Bytes × Bytes) → List (Bytes × Bytes)
assign id value [] = (id, value) ∷ []
assign id value ((k, v) ∷ m) = if bytes_eq k id then (k, value) ∷ m else (k, v) ∷ assign id value m

unfoldable pub put : KvStore → Bytes → Bytes → KvStore
put kv id value = record { store = assign id value kv.store }

unfoldable pub append : KvStore → Bytes → Bytes → KvStore
append kv id value = record { store = assign id (find id kv.store ++ value) kv.store }

-- `strings.Join(strings.Split(id, ""), "/")`, behind its first sequence: `skip` counts the bytes that
-- are left of the current UTF-8 sequence.
unfoldable pub slashed : ℕ → Bytes → Bytes
slashed skip [] = []
slashed (suc skip) (x ∷ s) = x ∷ slashed skip s
slashed zero (x ∷ s) = b'/' ∷ x ∷ slashed (rest_width x s) s

unfoldable pub joined : Bytes → Bytes
unfolding slashed rest_width
joined [] = []
joined (x ∷ s) = x ∷ slashed (rest_width x s) s

-- `path[:len(path)-1]`, which panics where the path is empty.
unfoldable pub bucket_dir : Bytes → Outcome Bytes
unfolding joined
bucket_dir id = elim (joined id) [ [] ↦ panic | x ∷ s ↦ ok (take (length s) (x ∷ s)) ]

abbrev pub store_root : Bytes
store_root = codes "./store_test/"

module _ (fs : FileSystem) where
  open fs use {
    State, exists, mkdir, mkdir_all, append_file, write_file, read_file, marshal, unmarshal,
  }

  unfoldable pub load_bucket : State → Bytes → FileFormat → Outcome Bytes
  load_bucket disk path raw = or_fail file_error (read_file disk path)
  load_bucket disk path json = do
    text ← or_fail file_error (read_file disk path)
    or_fail file_error (unmarshal text)

  -- `Get`: an error of `LoadBucket` reads as an empty bucket.
  abbrev or_empty : Outcome Bytes → Outcome Bytes
  or_empty (ok bucket) = ok bucket
  or_empty (err e) = ok []
  or_empty panic = panic

  unfoldable pub get : State → Bytes → Outcome Bytes
  unfolding load_bucket
  get disk id = do dir ← bucket_dir id; or_empty (load_bucket disk (store_root ++ (dir ++ id)) raw)

  -- The end of `SaveBucket`: the `switch` on the format.
  unfoldable pub write_bucket : State → Bytes → Bytes → FileFormat → Outcome (Unit {0}) × State
  write_bucket disk path bucket raw = append_file disk path bucket
  write_bucket disk path bucket json = elim (marshal bucket) [
    | none ↦
        let (created, disk') = write_file disk path [] in (created >>= λ _. err file_error, disk')
    | some text ↦ write_file disk path text
  ]

  -- The same behind `os.MkdirAll`, whose error is returned.
  unfoldable pub behind_mkdir :
      Outcome (Unit {0}) → State → Bytes → Bytes → FileFormat → Outcome (Unit {0}) × State
  unfolding write_bucket
  behind_mkdir (ok u) disk path bucket format = write_bucket disk path bucket format
  behind_mkdir (err e) disk path bucket format = (err e, disk)
  behind_mkdir panic disk path bucket format = (panic, disk)

  -- What `LoadBucket` returned, if its error is ignored.
  abbrev pub existing : Outcome Bytes → Bytes
  existing (ok bucket) = bucket
  existing (err e) = []
  existing panic = []

  -- `SaveBucket` from `os.Stat` on, in a directory that is known.
  unfoldable pub save_in :
      State → Bytes → Bytes → Bytes → Bytes → FileFormat → Outcome (Unit {0}) × State
  unfolding write_bucket behind_mkdir load_bucket
  save_in disk root dir id bucket format =
      let path = root ++ (dir ++ id) in
      if not (exists disk path)
      then (let (made, disk') = mkdir_all disk (root ++ dir) in
          behind_mkdir made disk' path bucket format)
      else elim format [
        | json ↦ write_bucket disk path (existing (load_bucket disk path json) ++ bucket) json
        | raw ↦ write_bucket disk path bucket raw
      ]

  unfoldable pub save_bucket :
      State → Bytes → Bytes → Bytes → FileFormat → Outcome (Unit {0}) × State
  unfolding save_in
  save_bucket disk root id bucket format = elim (bucket_dir id) [
    | err e ↦ (err e, disk)
    | panic ↦ (panic, disk)
    | ok dir ↦ save_in disk root dir id bucket format
  ]

  -- The loop of `saveCredentials` over the map, in the order of the list; an error ends the program.
  unfoldable pub save_all : State → List (Bytes × Bytes) → Outcome (Unit {0}) × State
  unfolding save_bucket
  save_all disk [] = (ok tt, disk)
  save_all disk ((k, v) ∷ m) =
      let (saved, disk') = save_bucket disk store_root k v raw in
      elim saved [ err e ↦ (err e, disk') | panic ↦ (panic, disk') | ok u ↦ save_all disk' m ]

  -- An error of `os.Mkdir` is logged only.
  unfoldable pub save_credentials : KvStore → State → Outcome (Unit {0}) × State
  unfolding save_all
  save_credentials kv disk =
      let top = codes "store_test" in
      save_all (if not (exists disk top) then (mkdir disk top).1 else disk) kv.store
