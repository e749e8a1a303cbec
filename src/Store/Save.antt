-- ===== src/Store/Save.antt =====
-- `SaveBucket`, `saveCredentials` and `Get` of cmd/server/kv.go: what is saved can be read back.
use migp.Base.{
  ◌≡◌, refl, ap, ap₂, sym, ◌∙◌, inl, inr, Bool, true, false, not, Bytes, All, codes, List, [], ◌∷◌,
  ◌++◌, Option, none, some, bytes_eq, bytes_eq_iff, Bool-cases, append_assoc, append-nil,
  if◌then◌else◌,
}
use migp.Base.Outcome.{Outcome, ok, err, panic, or_fail, file_error, Outcome-cases}
use migp.Store.Files.{FileSystem, IsFileSystem, raw, old_or_empty}
use migp.Store.{
  KvStore, find, store_root, get, or_empty, load_bucket, write_bucket, behind_mkdir, save_in,
  save_bucket, save_all, save_credentials,
}
use migp.Store.Memory.{all_of, IsMap, all_of-eq-find}
use migp.Store.Paths.{IsId, dir_of, bucket_dir_of_id, path_of, path_test}

module _ (fs : FileSystem) (lawful : IsFileSystem fs) where
  -- The bytes of a bucket on disk: none if there is no such file.
  pub saved : fs.State → Bytes → Bytes
  saved disk id = old_or_empty (fs.read_file disk (path_of id))

  or_empty-read : (m : Option Bytes) → or_empty fs (or_fail file_error m) ≡ ok (old_or_empty m)
  or_empty-read none = refl
  or_empty-read (some b) = refl

  pub get-saved : (disk : fs.State) (id : Bytes) → IsId id → get fs disk id ≡ ok (saved disk id)
  unfolding get load_bucket saved path_of
  get-saved disk id h = rw (bucket_dir_of_id id h) (or_empty-read (fs.read_file disk (path_of id)))

  saved-append :
      (disk : fs.State) (k v j : Bytes)
      → IsId k
      → IsId j
      → (fs.append_file disk (path_of k) v).0 ≡ ok tt
      → saved (fs.append_file disk (path_of k) v).1 j
        ≡ saved disk j ++ (if bytes_eq k j then v else [])
  unfolding saved
  saved-append disk k v j hk hj done =
      ap old_or_empty (lawful.read-append disk (path_of k) v (path_of j) done)
      ∙ elim (Bool-cases (bytes_eq k j)) [
        | inl same ↦
            let e : path_of k ≡ path_of j = ap path_of ((bytes_eq_iff k j).0 same) in
            rw (path_test k j hk hj, same) (ap (λ p. old_or_empty (fs.read_file disk p) ++ v) e)
        | inr differ ↦ rw (path_test k j hk hj, differ) (sym (append-nil _))
      ]

  behind_mkdir_ok :
      (made : Outcome (Unit {0})) (disk : fs.State) (path bucket : Bytes)
      → (behind_mkdir fs made disk path bucket raw).0 ≡ ok tt
      → behind_mkdir fs made disk path bucket raw ≡ fs.append_file disk path bucket
  unfolding behind_mkdir
  behind_mkdir_ok (ok u) disk path bucket done = refl
  behind_mkdir_ok (err e) disk path bucket done = absurd (cc)
  behind_mkdir_ok panic disk path bucket done = absurd (cc)

  present : fs.State → Bytes → Bool
  present disk k = fs.exists disk (path_of k)

  save_bucket-save_in :
      (disk : fs.State) (k v : Bytes)
      → IsId k
      → save_bucket fs disk store_root k v raw ≡ save_in fs disk store_root (dir_of k) k v raw
  unfolding save_bucket
  save_bucket-save_in disk k v hk = rw (bucket_dir_of_id k hk, save_bucket)

  save_bucket-present :
      (disk : fs.State) (k v : Bytes)
      → IsId k
      → present disk k ≡ true
      → save_bucket fs disk store_root k v raw ≡ fs.append_file disk (path_of k) v
  unfolding save_in write_bucket present path_of
  save_bucket-present disk k v hk e = save_bucket-save_in disk k v hk ∙ rw (e, not)

  save_bucket_absent :
      (disk : fs.State) (k v : Bytes)
      → IsId k
      → present disk k ≡ false
      → save_bucket fs disk store_root k v raw
        ≡ behind_mkdir fs
            (fs.mkdir_all disk (store_root ++ dir_of k)).0
            (fs.mkdir_all disk (store_root ++ dir_of k)).1
            (path_of k)
            v
            raw
  unfolding save_in present path_of
  save_bucket_absent disk k v hk e = save_bucket-save_in disk k v hk ∙ rw (e, not)

  -- Either way the bytes are appended to the file of the bucket, on a disk that shows the same files.
  record Appends (disk : fs.State) (k v : Bytes) : Type 0 where
    made : fs.State
    same_files : (path : Bytes) → fs.read_file made path ≡ fs.read_file disk path
    result : save_bucket fs disk store_root k v raw ≡ fs.append_file made (path_of k) v

  save_bucket-Appends :
      (disk : fs.State) (k v : Bytes)
      → IsId k
      → (save_bucket fs disk store_root k v raw).0 ≡ ok tt
      → Appends disk k v
  save_bucket-Appends disk k v hk done = elim (Bool-cases (present disk k)) [
    | inl e ↦ record {
      made = disk;
      same_files = λ path. refl;
      result = save_bucket-present disk k v hk e;
    }
    | inr e ↦
        let made = fs.mkdir_all disk (store_root ++ dir_of k) in
        record {
          made = made.1;
          same_files = lawful.read-mkdir_all disk (store_root ++ dir_of k);
          result =
              save_bucket_absent disk k v hk e
              ∙ behind_mkdir_ok made.0 made.1 (path_of k) v
                  (ap (λ t. t.0) (sym (save_bucket_absent disk k v hk e)) ∙ done);
        }
  ]

  -- One bucket saved.
  save_bucket_lem :
      (disk : fs.State) (k v j : Bytes)
      → IsId k
      → IsId j
      → (save_bucket fs disk store_root k v raw).0 ≡ ok tt
      → saved (save_bucket fs disk store_root k v raw).1 j
        ≡ saved disk j ++ (if bytes_eq k j then v else [])
  unfolding saved
  save_bucket_lem disk k v j hk hj done =
      let a = save_bucket-Appends disk k v hk done in
      ap (λ t. saved t.1 j) a.result
      ∙ saved-append a.made k v j hk hj (ap (λ t. t.0) (sym a.result) ∙ done)
      ∙ ap (λ o. old_or_empty o ++ (if bytes_eq k j then v else [])) (a.same_files (path_of j))

  AreIds : List (Bytes × Bytes) → Type 0
  AreIds m = All (λ p. IsId p.0) m

  save_all_cons :
      (m : List (Bytes × Bytes)) (disk : fs.State) (k v : Bytes)
      → (save_all fs disk ((k, v) ∷ m)).0 ≡ ok tt
      → (let one = save_bucket fs disk store_root k v raw in
          (one.0 ≡ ok tt) × (save_all fs disk ((k, v) ∷ m) ≡ save_all fs one.1 m))
  unfolding save_all
  save_all_cons m disk k v done = elim (Outcome-cases (save_bucket fs disk store_root k v raw).0) [
    | inl (u, e) ↦ (e, rw (e, save_all))
    | inr (inl (x, e)) ↦ let bad : err x ≡ ok tt = rw (e, save_all) at done in absurd (cc)
    | inr (inr e) ↦ let bad : panic ≡ ok tt = rw (e, save_all) at done in absurd (cc)
  ]

  save_all_lem :
      (m : List (Bytes × Bytes)) (disk : fs.State) (j : Bytes)
      → AreIds m
      → IsId j
      → (save_all fs disk m).0 ≡ ok tt
      → saved (save_all fs disk m).1 j ≡ saved disk j ++ all_of j m
  unfolding AreIds all_of
  save_all_lem [] disk j h hj done = unfold save_all in sym (append-nil (saved disk j))
  save_all_lem ((k, v) ∷ m) disk j (hk, h) hj done =
      let (one, rest) = save_all_cons m disk k v done in
      ap (λ t. saved t.1 j) rest
      ∙ save_all_lem m (save_bucket fs disk store_root k v raw).1 j h hj
          (ap (λ t. t.0) (sym rest) ∙ done)
      ∙ ap (λ t. t ++ all_of j m) (save_bucket_lem disk k v j hk hj one)
      ∙ append_assoc (saved disk j) (if bytes_eq k j then v else []) (all_of j m)

  -- A save that succeeds puts the map's values behind what the files held.
  pub saved-save_credentials :
      (kv : KvStore) (disk : fs.State) (id : Bytes)
      → IsMap kv.store
      → All (λ p. IsId p.0) kv.store
      → IsId id
      → (save_credentials fs kv disk).0 ≡ ok tt
      → saved (save_credentials fs kv disk).1 id ≡ saved disk id ++ find id kv.store
  unfolding save_credentials AreIds saved
  saved-save_credentials kv disk id map ids hid done =
      save_all_lem kv.store start id ids hid done
      ∙ ap₂ (λ a b. a ++ b) same_start (all_of-eq-find id kv.store map)
    where
      top : Bytes
      top = codes "store_test"

      start : fs.State
      start = if not (fs.exists disk top) then (fs.mkdir disk top).1 else disk

      same_start : saved start id ≡ saved disk id
      same_start = elim (Bool-cases (fs.exists disk top)) [
        | inl e ↦ rw (e, not) refl
        | inr e ↦ rw (e, not) (ap old_or_empty (lawful.read-mkdir disk top (path_of id)))
      ]

  -- After a save that succeeds, `Get` of an identifier returns what it returned before the save with
  -- what the map in memory holds for it at the end; the map may be saved in any order, since this
  -- holds for every list of its pairs.
  pub get-save_credentials :
      (kv : KvStore) (disk : fs.State) (id : Bytes)
      → IsMap kv.store
      → All (λ p. IsId p.0) kv.store
      → IsId id
      → (save_credentials fs kv disk).0 ≡ ok tt
      → (old : Bytes) × (get fs disk id ≡ ok old)
        × (get fs (save_credentials fs kv disk).1 id ≡ ok (old ++ find id kv.store))
  get-save_credentials kv disk id map ids hid done = (
    saved disk id,
    get-saved disk id hid,
    get-saved _ id hid ∙ ap ok (saved-save_credentials kv disk id map ids hid done),
  )
