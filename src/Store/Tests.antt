-- ===== src/Store/Tests.antt =====
-- Tests of cmd/server/kv.go on concrete inputs.
use migp.Base.{◌≡◌, refl, Bytes, codes, List, [], ◌∷◌, ◌++◌, arith}
use mathlib.Core.List.Perm
use migp.Base.Utf8.{rest_width}
use migp.Base.Outcome.{ok}
use migp.Store.{
  KvStore, find, joined, slashed, bucket_dir, load_bucket, get, write_bucket, behind_mkdir, save_in,
  save_bucket, save_all, save_credentials,
}
use migp.Store.Memory.{IsMap}
use migp.Store.Paths.{IsId}
use migp.Store.Save.{get-save_credentials}
use migp.Store.Order.{get-save_credentials_order}
use migp.Store.Toy.{toy_files, toy_files-IsFileSystem}

abbrev first_id : Bytes
first_id = codes "00000001"

abbrev second_id : Bytes
second_id = codes "0000a001"

abbrev two : KvStore
two = record { store = (first_id, 1 ∷ 2 ∷ []) ∷ (second_id, 3 ∷ []) ∷ [] }

-- The first bucket has a file already.
abbrev disk : List (Bytes × Bytes)
disk = (codes "./store_test/0/0/0/0/0/0/0/00000001", 7 ∷ []) ∷ []

saves : (save_credentials toy_files two disk).0 ≡ ok tt
unfolding save_credentials save_all save_bucket save_in behind_mkdir write_bucket load_bucket
    bucket_dir joined slashed rest_width
saves = refl

finds_old : get toy_files disk first_id ≡ ok (7 ∷ [])
unfolding get load_bucket bucket_dir joined slashed rest_width
finds_old = refl

two-IsMap : IsMap two.store
unfolding IsMap
two-IsMap = ((refl, tt), (tt, tt))

first-IsId : IsId first_id
first-IsId = omega arith

second-IsId : IsId second_id
second-IsId = omega arith

get-save_credentials_example :
    (old : Bytes) × (get toy_files disk first_id ≡ ok old)
    × (get toy_files (save_credentials toy_files two disk).1 first_id
        ≡ ok (old ++ find first_id two.store))
get-save_credentials_example =
    get-save_credentials toy_files toy_files-IsFileSystem two disk first_id two-IsMap
      (first-IsId, (second-IsId, tt)) first-IsId saves

-- The same map in the other order.
abbrev turned : KvStore
turned = record { store = (second_id, 3 ∷ []) ∷ (first_id, 1 ∷ 2 ∷ []) ∷ [] }

saves_turned : (save_credentials toy_files turned disk).0 ≡ ok tt
unfolding save_credentials save_all save_bucket save_in behind_mkdir write_bucket load_bucket
    bucket_dir joined slashed rest_width
saves_turned = refl

get-save_credentials_order_example :
    get toy_files (save_credentials toy_files two disk).1 first_id
    ≡ get toy_files (save_credentials toy_files turned disk).1 first_id
get-save_credentials_order_example =
    get-save_credentials_order toy_files toy_files-IsFileSystem two turned disk two-IsMap
      (first-IsId, (second-IsId, tt)) (Perm.swap (second_id, 3 ∷ []) (first_id, 1 ∷ 2 ∷ []) [])
      saves saves_turned first_id first-IsId
