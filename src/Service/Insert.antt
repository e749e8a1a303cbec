-- ===== src/Service/Insert.antt =====
-- What `insert` of cmd/server/server.go leaves in the store.
use migp.Base.{
  ℕ, ◌≡◌, refl, ap, ◌∙◌, inl, inr, Bool, true, false, Bytes, List, [], ◌∷◌, if◌then◌else◌,
}
use mathlib.Core.Path.{subst}
use migp.Base.Int.{ℤ}
use migp.Base.Outcome.{Outcome, ok, err, panic, ◌>>=◌, Outcome-cases}
use migp.Protocol.Common.{
  MetadataType, metadata_breached_password, metadata_similar_password, metadata_breached_username,
  bucket_id_to_hex,
}
use migp.Protocol.Libraries.{Crypto, Oprf}
use migp.Protocol.Server.{Server, server_bucket_id, encrypt_bucket_entry}
use migp.Mutator.Mutate.{new_rdas_mutator, mutate}
use migp.Store.{KvStore, append}
use migp.Service.Writes.{
  Grows, Grows-append, Grows-nothing, Writes, Writes-ok, Writes-fail, both, Writes-and_then,
}
use migp.Service.{insert_entry, insert_variants, insert_username, insert_rest, insert}

-- The bytes of the variants' entries, and of all the entries of a credential pair.
module _ (o : Oprf) (c : Crypto) (sum32 : Bytes → ℕ) (s : Server o)
    (username metadata : Bytes) where
  abbrev pub entry : Bytes → MetadataType → Outcome Bytes
  entry password flag = encrypt_bucket_entry o c s username password flag metadata

  abbrev pub variant_entries : List Bytes → Outcome Bytes
  variant_entries [] = ok []
  variant_entries (v ∷ vs) = both (entry v metadata_similar_password) (variant_entries vs)

  abbrev pub username_entry : Bool → Outcome Bytes
  username_entry include = if include then entry [] metadata_breached_username else ok []

  -- The entries of the mutations, and that of the username.
  abbrev pub more_entries : Bytes → ℤ → Bool → Outcome Bytes
  more_entries password n include = mutate sum32 new_rdas_mutator password n >>= λ vs.
      both (variant_entries vs) (username_entry include)

  -- The entry of the pair, and those.
  abbrev pub pair_entries : Bytes → ℤ → Bool → Outcome Bytes
  pair_entries password n include =
      both (entry password metadata_breached_password) (more_entries password n include)

  insert_entry-Writes :
      (id password : Bytes) (flag : MetadataType) (kv : KvStore)
      → Writes id
          (entry password flag)
          kv
          (insert_entry o c sum32 s username metadata id password flag kv)
  unfolding insert_entry
  insert_entry-Writes id password flag kv = elim (Outcome-cases (entry password flag)) [
    | inl (b, e) ↦ rw (e, insert_entry) (Writes-ok id b kv (append kv id b) (Grows-append id b kv))
    | inr (inl (x, e)) ↦ rw (e, insert_entry) (Writes-fail id (err x) kv (err x) refl (λ b h. cc))
    | inr (inr e) ↦ rw (e, insert_entry) (Writes-fail id panic kv panic refl (λ b h. cc))
  ]

  insert_variants-Writes :
      (id : Bytes) (vs : List Bytes) (kv : KvStore)
      → Writes id (variant_entries vs) kv (insert_variants o c sum32 s username metadata id vs kv)
  unfolding insert_variants
  insert_variants-Writes id [] kv = Writes-ok id [] kv kv (Grows-nothing id kv)
  insert_variants-Writes id (v ∷ vs) kv =
      Writes-and_then id _ _ kv _ (insert_variants o c sum32 s username metadata id vs)
        (insert_entry-Writes id v metadata_similar_password kv) (insert_variants-Writes id vs)

  insert_username-Writes :
      (id : Bytes) (include : Bool) (kv : KvStore)
      → Writes id
          (username_entry include)
          kv
          (insert_username o c sum32 s username metadata id include kv)
  unfolding insert_username
  insert_username-Writes id true kv = insert_entry-Writes id [] metadata_breached_username kv
  insert_username-Writes id false kv = Writes-ok id [] kv kv (Grows-nothing id kv)

  insert_rest-Writes :
      (id : Bytes) (m : Outcome (List Bytes)) (include : Bool) (kv : KvStore)
      → Writes id
          (m >>= λ vs. both (variant_entries vs) (username_entry include))
          kv
          (insert_rest o c sum32 s username metadata id m include kv)
  unfolding insert_rest
  insert_rest-Writes id (ok vs) include kv =
      Writes-and_then id _ _ kv _ (insert_username o c sum32 s username metadata id include)
        (insert_variants-Writes id vs kv) (insert_username-Writes id include)
  insert_rest-Writes id (err x) include kv = Writes-fail id (err x) kv (err x) refl (λ b h. cc)
  insert_rest-Writes id panic include kv = Writes-fail id panic kv panic refl (λ b h. cc)

  insert-Writes :
      (password : Bytes) (n : ℤ) (include : Bool) (kv : KvStore) (id : ℕ)
      → server_bucket_id o c s username ≡ ok id
      → Writes
          (bucket_id_to_hex id)
          (pair_entries password n include)
          kv
          (insert o c sum32 s username metadata password n include kv)
  unfolding insert
  insert-Writes password n include kv id named =
      rw (named, insert)
        (Writes-and_then (bucket_id_to_hex id) _ _ kv _
          (insert_rest o c sum32 s username metadata (bucket_id_to_hex id)
            (mutate sum32 new_rdas_mutator password n) include)
          (insert_entry-Writes (bucket_id_to_hex id) password metadata_breached_password kv)
          (insert_rest-Writes (bucket_id_to_hex id) (mutate sum32 new_rdas_mutator password n)
            include))

  -- If the username has a bucket identifier, and the entry of the credential pair, those of all its
  -- mutations and that of the username, if it is asked for, can be encrypted, then `insert` succeeds,
  -- and it has appended exactly these entries, in this order, to the bucket of the username and
  -- changed no other bucket.
  pub insert_writes_entries :
      (password : Bytes) (n : ℤ) (include : Bool) (kv : KvStore) (id : ℕ) (added : Bytes)
      → server_bucket_id o c s username ≡ ok id
      → pair_entries password n include ≡ ok added
      → let r = insert o c sum32 s username metadata password n include kv in
        (r.0 ≡ ok tt) × Grows (bucket_id_to_hex id) added kv r.1
  insert_writes_entries password n include kv id added named encrypted =
      let w = insert-Writes password n include kv id named in
      (
        w.result ∙ ap (λ d. d >>= λ b. ok tt) encrypted,
        subst
            (λ b.
              Grows (bucket_id_to_hex id) b kv
                (insert o c sum32 s username metadata password n include kv).1)
            (w.exact added encrypted) w.grows,
      )

  -- The same on the other outcomes, in a bucket that there is.
  pub insert_result :
      (password : Bytes) (n : ℤ) (include : Bool) (kv : KvStore) (id : ℕ)
      → server_bucket_id o c s username ≡ ok id
      → let r = insert o c sum32 s username metadata password n include kv in
        (r.0 ≡ (pair_entries password n include >>= λ b. ok tt))
        × ((added : Bytes) × Grows (bucket_id_to_hex id) added kv r.1)
  insert_result password n include kv id named =
      let w = insert-Writes password n include kv id named in (w.result, (w.added, w.grows))
