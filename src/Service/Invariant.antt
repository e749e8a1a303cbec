-- ===== src/Service/Invariant.antt =====
-- The store of cmd/server/server.go stays one that `saveCredentials` can write and `Get` can read.
use migp.Base.{
  ℕ, ◌≡◌, sym, inl, inr, Bool, true, false, Bytes, All, List, [], ◌∷◌, bytes_eq, bytes_eq_iff,
  Bool-cases,
}
use migp.Base.Int.{ℤ}
use migp.Base.Outcome.{Outcome, ok, err, panic, Outcome-cases}
use migp.Protocol.Common.{
  MetadataType, metadata_breached_password, metadata_similar_password, metadata_breached_username,
  bucket_id_to_hex,
}
use migp.Protocol.Libraries.{Crypto, Oprf}
use migp.Protocol.Server.{Server, server_bucket_id, encrypt_bucket_entry}
use migp.Mutator.Mutate.{new_rdas_mutator, mutate}
use migp.Store.{KvStore, assign, append}
use migp.Store.Memory.{IsMap, Lacks}
use migp.Store.Paths.{IsId, bucket_id_to_hex-IsId}
use migp.Service.{
  Run, and_then, insert_entry, insert_variants, insert_username, insert_rest, insert,
}

-- One pair to a key, and every key is one that `BucketIDToHex` can give.
pub record IsSound (kv : KvStore) : Type 0 where
  pub map : IsMap kv.store
  pub ids : All (λ p. IsId p.0) kv.store

bytes_eq-swapped : (a b : Bytes) → bytes_eq a b ≡ false → bytes_eq b a ≡ false
bytes_eq-swapped a b differ = elim (Bool-cases (bytes_eq b a)) [
  | inr e ↦ e
  | inl e ↦
      let same : bytes_eq a b ≡ true = (bytes_eq_iff a b).1 (sym ((bytes_eq_iff b a).0 e)) in
      absurd (cc)
]

assign-Lacks :
    (k id value : Bytes) (m : List (Bytes × Bytes))
    → bytes_eq id k ≡ false
    → Lacks k m
    → Lacks k (assign id value m)
unfolding assign
assign-Lacks k id value [] differ h = (differ, tt)
assign-Lacks k id value ((j, w) ∷ m) differ (e, h) = elim (Bool-cases (bytes_eq j id)) [
  | inl same ↦ rw same (e, h)
  | inr other ↦ rw other (e, assign-Lacks k id value m differ h)
]

assign-IsMap : (id value : Bytes) (m : List (Bytes × Bytes)) → IsMap m → IsMap (assign id value m)
unfolding assign IsMap
assign-IsMap id value [] h = (tt, tt)
assign-IsMap id value ((j, w) ∷ m) (lacks, h) = elim (Bool-cases (bytes_eq j id)) [
  | inl same ↦ rw same (lacks, h)
  | inr other ↦
      rw other
        (assign-Lacks j id value m (bytes_eq-swapped j id other) lacks, assign-IsMap id value m h)
]

assign-IsId :
    (id value : Bytes) (m : List (Bytes × Bytes))
    → IsId id
    → All (λ p. IsId p.0) m
    → All (λ p. IsId p.0) (assign id value m)
unfolding assign
assign-IsId id value [] i h = (i, tt)
assign-IsId id value ((j, w) ∷ m) i (e, h) = elim (Bool-cases (bytes_eq j id)) [
  | inl same ↦ rw same (e, h)
  | inr other ↦ rw other (e, assign-IsId id value m i h)
]

append-IsSound :
    (kv : KvStore) (id value : Bytes) → IsId id → IsSound kv → IsSound (append kv id value)
unfolding append
append-IsSound kv id value i h = record {
  map = assign-IsMap id _ kv.store h.map;
  ids = assign-IsId id _ kv.store i h.ids;
}

and_then-IsSound :
    (r : Run) (next : KvStore → Run)
    → IsSound r.1
    → ((kv : KvStore) → IsSound kv → IsSound (next kv).1)
    → IsSound (and_then r next).1
and_then-IsSound (panic, kv) next h n = h
and_then-IsSound (err e, kv) next h n = h
and_then-IsSound (ok u, kv) next h n = n kv h

module _ (o : Oprf) (c : Crypto) (sum32 : Bytes → ℕ) (s : Server o)
    (username metadata : Bytes) where
  module _ (id : Bytes) (i : IsId id) where
    insert_entry-IsSound :
        (password : Bytes) (flag : MetadataType) (kv : KvStore)
        → IsSound kv
        → IsSound (insert_entry o c sum32 s username metadata id password flag kv).1
    unfolding insert_entry
    insert_entry-IsSound password flag kv h =
        elim (Outcome-cases (encrypt_bucket_entry o c s username password flag metadata)) [
          | inl (b, e) ↦ rw (e, insert_entry) (append-IsSound kv id b i h)
          | inr (inl (x, e)) ↦ rw (e, insert_entry) h
          | inr (inr e) ↦ rw (e, insert_entry) h
        ]

    insert_variants-IsSound :
        (vs : List Bytes) (kv : KvStore)
        → IsSound kv
        → IsSound (insert_variants o c sum32 s username metadata id vs kv).1
    unfolding insert_variants
    insert_variants-IsSound [] kv h = h
    insert_variants-IsSound (v ∷ vs) kv h =
        and_then-IsSound _ (insert_variants o c sum32 s username metadata id vs)
          (insert_entry-IsSound v metadata_similar_password kv h) (insert_variants-IsSound vs)

    insert_username-IsSound :
        (include : Bool) (kv : KvStore)
        → IsSound kv
        → IsSound (insert_username o c sum32 s username metadata id include kv).1
    unfolding insert_username
    insert_username-IsSound true kv h = insert_entry-IsSound [] metadata_breached_username kv h
    insert_username-IsSound false kv h = h

    insert_rest-IsSound :
        (m : Outcome (List Bytes)) (include : Bool) (kv : KvStore)
        → IsSound kv
        → IsSound (insert_rest o c sum32 s username metadata id m include kv).1
    unfolding insert_rest
    insert_rest-IsSound (ok vs) include kv h =
        and_then-IsSound _ (insert_username o c sum32 s username metadata id include)
          (insert_variants-IsSound vs kv h) (insert_username-IsSound include)
    insert_rest-IsSound (err x) include kv h = h
    insert_rest-IsSound panic include kv h = h

  -- Whatever `insert` ends with, a store with one pair to a key and with keys of eight ASCII characters
  -- is again such a store.
  pub insert-IsSound :
      (password : Bytes) (n : ℤ) (include : Bool) (kv : KvStore)
      → IsSound kv
      → IsSound (insert o c sum32 s username metadata password n include kv).1
  unfolding insert
  insert-IsSound password n include kv h = elim (Outcome-cases (server_bucket_id o c s username)) [
    | inr (inl (x, e)) ↦ rw (e, insert) h
    | inr (inr e) ↦ rw (e, insert) h
    | inl (id, e) ↦
        let i = bucket_id_to_hex-IsId id in
        rw (e, insert)
          (and_then-IsSound _
            (insert_rest o c sum32 s username metadata (bucket_id_to_hex id)
              (mutate sum32 new_rdas_mutator password n) include)
            (insert_entry-IsSound (bucket_id_to_hex id) i password metadata_breached_password kv h)
            (insert_rest-IsSound (bucket_id_to_hex id) i (mutate sum32 new_rdas_mutator password n)
              include))
  ]
