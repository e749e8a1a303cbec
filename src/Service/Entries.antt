-- ===== src/Service/Entries.antt =====
-- The entries that `insert` of cmd/server/server.go makes for a credential pair, and what of them it
-- writes on each outcome.
use migp.Base.{
  ℕ, ◌≡◌, refl, ap, sym, ◌∙◌, inl, inr, Bool, true, false, Bytes, List, [], ◌∷◌, ◌++◌, map,
  append_assoc, append-nil, bytes_eq, if◌then◌else◌,
}
use migp.Base.Int.{ℤ}
use migp.Base.Outcome.{Error, Outcome, ok, err, panic, ◌>>=◌, Outcome-cases}
use migp.Protocol.Common.{
  MetadataType, metadata_breached_password, metadata_similar_password, metadata_breached_username,
  bucket_id_to_hex,
}
use migp.Protocol.Libraries.{Crypto, Oprf}
use migp.Protocol.Server.{Server, server_bucket_id, encrypt_bucket_entry}
use migp.Mutator.Mutate.{new_rdas_mutator, mutate}
use migp.Store.{KvStore, find, append}
use migp.Service.Writes.{Grows, Grows-append, Grows-nothing, Grows-trans}
use migp.Service.{
  Run, and_then, insert_entry, insert_variants, insert_username, insert_rest, insert,
}

-- The bytes of the entries in front of the first that fails.
abbrev pub written : List (Outcome Bytes) → Bytes
written [] = []
written (ok b ∷ entries) = b ++ written entries
written (err e ∷ entries) = []
written (panic ∷ entries) = []

-- The first failure, if there is one.
abbrev pub failure : List (Outcome Bytes) → Outcome (Unit {0})
failure [] = ok tt
failure (ok b ∷ entries) = failure entries
failure (err e ∷ entries) = err e
failure (panic ∷ entries) = panic

-- The bytes that go to a bucket, if they go to one.
abbrev pub placed : Outcome ℕ → Bytes → Bytes → Bytes
placed (ok id) bytes j = if bytes_eq (bucket_id_to_hex id) j then bytes else []
placed (err e) bytes j = []
placed panic bytes j = []

-- A call that fails with the first failure of some entries, and that lengthens one bucket by those in
-- front of it.
Follows : Bytes → List (Outcome Bytes) → KvStore → Run → Type 0
Follows id entries kv r = (r.0 ≡ failure entries) × Grows id (written entries) kv r.1

-- Entries behind others are reached if those do not fail.
first_ok :
    (xs ys : List (Outcome Bytes))
    → ok tt ≡ failure xs
    → (failure (xs ++ ys) ≡ failure ys) × (written (xs ++ ys) ≡ written xs ++ written ys)
first_ok [] ys h = (refl, refl)
first_ok (ok b ∷ xs) ys h =
    let (f, w) = first_ok xs ys h in
    (f, ap (λ t. b ++ t) w ∙ sym (append_assoc b (written xs) (written ys)))
first_ok (err e ∷ xs) ys h = cc
first_ok (panic ∷ xs) ys h = cc

first_fails :
    (xs ys : List (Outcome Bytes)) (r : Outcome (Unit {0}))
    → r ≡ failure xs
    → ((u : Unit {0}) → r ≡ ok u → ⊥)
    → (failure (xs ++ ys) ≡ r) × (written (xs ++ ys) ≡ written xs)
first_fails [] ys r h fails = absurd (fails tt h)
first_fails (ok b ∷ xs) ys r h fails =
    let (f, w) = first_fails xs ys r h fails in (f, ap (λ t. b ++ t) w)
first_fails (err e ∷ xs) ys r h fails = (sym h, refl)
first_fails (panic ∷ xs) ys r h fails = (sym h, refl)

Follows-and_then :
    (id : Bytes) (xs ys : List (Outcome Bytes)) (kv : KvStore) (r : Run) (next : KvStore → Run)
    → Follows id xs kv r
    → ((kv' : KvStore) → Follows id ys kv' (next kv'))
    → Follows id (xs ++ ys) kv (and_then r next)
unfolding Follows
Follows-and_then id xs ys kv (ok u, kv') next (result, grows) rest =
    let (f, w) = first_ok xs ys result in
    let (result', grows') = rest kv' in
    (
      result' ∙ sym f,
      rw w (Grows-trans id (written xs) (written ys) kv kv' (next kv').1 grows grows'),
    )
Follows-and_then id xs ys kv (err e, kv') next (result, grows) rest =
    let (f, w) = first_fails xs ys (err e) result (λ u h. cc) in (sym f, rw w grows)
Follows-and_then id xs ys kv (panic, kv') next (result, grows) rest =
    let (f, w) = first_fails xs ys panic result (λ u h. cc) in (sym f, rw w grows)

Follows-ok : (id b : Bytes) (kv : KvStore) → Follows id (ok b ∷ []) kv (ok tt, append kv id b)
unfolding Follows
Follows-ok id b kv = (refl, rw (append-nil b) (Grows-append id b kv))

Follows-stop :
    (id : Bytes) (entries : List (Outcome Bytes)) (kv : KvStore)
    → written entries ≡ []
    → Follows id entries kv (failure entries, kv)
unfolding Follows
Follows-stop id entries kv nothing = (refl, rw nothing (Grows-nothing id kv))

module _ (o : Oprf) (c : Crypto) (sum32 : Bytes → ℕ) (s : Server o)
    (username metadata : Bytes) where
  abbrev made : MetadataType → Bytes → Outcome Bytes
  made flag password = encrypt_bucket_entry o c s username password flag metadata

  abbrev variants_list : List Bytes → List (Outcome Bytes)
  variants_list vs = map (made metadata_similar_password) vs

  abbrev username_list : Bool → List (Outcome Bytes)
  username_list include = if include then made metadata_breached_username [] ∷ [] else []

  abbrev rest_list : Outcome (List Bytes) → Bool → List (Outcome Bytes)
  rest_list (ok vs) include = variants_list vs ++ username_list include
  rest_list (err e) include = err e ∷ []
  rest_list panic include = panic ∷ []

  -- The entry of the pair, those of its mutations, and that of the username if it is asked for; a
  -- failure of `Mutate` stands where the mutations would.
  abbrev pub entries : Bytes → ℤ → Bool → List (Outcome Bytes)
  entries password n include =
      made metadata_breached_password password
      ∷ rest_list (mutate sum32 new_rdas_mutator password n) include

  insert_entry-Follows :
      (id password : Bytes) (flag : MetadataType) (kv : KvStore)
      → Follows id
          (made flag password ∷ [])
          kv
          (insert_entry o c sum32 s username metadata id password flag kv)
  unfolding insert_entry
  insert_entry-Follows id password flag kv = elim (Outcome-cases (made flag password)) [
    | inl (b, e) ↦ rw (e, insert_entry) (Follows-ok id b kv)
    | inr (inl (x, e)) ↦ rw (e, insert_entry) (Follows-stop id (err x ∷ []) kv refl)
    | inr (inr e) ↦ rw (e, insert_entry) (Follows-stop id (panic ∷ []) kv refl)
  ]

  insert_variants-Follows :
      (id : Bytes) (vs : List Bytes) (kv : KvStore)
      → Follows id (variants_list vs) kv (insert_variants o c sum32 s username metadata id vs kv)
  unfolding insert_variants Follows
  insert_variants-Follows id [] kv = (refl, Grows-nothing id kv)
  insert_variants-Follows id (v ∷ vs) kv =
      Follows-and_then id (made metadata_similar_password v ∷ []) (variants_list vs) kv _
        (insert_variants o c sum32 s username metadata id vs)
        (insert_entry-Follows id v metadata_similar_password kv) (insert_variants-Follows id vs)

  insert_username-Follows :
      (id : Bytes) (include : Bool) (kv : KvStore)
      → Follows id
          (username_list include)
          kv
          (insert_username o c sum32 s username metadata id include kv)
  unfolding insert_username Follows
  insert_username-Follows id true kv = insert_entry-Follows id [] metadata_breached_username kv
  insert_username-Follows id false kv = (refl, Grows-nothing id kv)

  insert_rest-Follows :
      (id : Bytes) (m : Outcome (List Bytes)) (include : Bool) (kv : KvStore)
      → Follows id
          (rest_list m include)
          kv
          (insert_rest o c sum32 s username metadata id m include kv)
  unfolding insert_rest Follows
  insert_rest-Follows id (ok vs) include kv =
      Follows-and_then id (variants_list vs) (username_list include) kv _
        (insert_username o c sum32 s username metadata id include)
        (insert_variants-Follows id vs kv) (insert_username-Follows id include)
  insert_rest-Follows id (err x) include kv = (refl, Grows-nothing id kv)
  insert_rest-Follows id panic include kv = (refl, Grows-nothing id kv)

  insert-Follows :
      (password : Bytes) (n : ℤ) (include : Bool) (kv : KvStore) (id : ℕ)
      → server_bucket_id o c s username ≡ ok id
      → Follows
          (bucket_id_to_hex id)
          (entries password n include)
          kv
          (insert o c sum32 s username metadata password n include kv)
  unfolding insert
  insert-Follows password n include kv id e =
      let hex = bucket_id_to_hex id in
      rw (e, insert)
        (Follows-and_then hex (made metadata_breached_password password ∷ [])
          (rest_list (mutate sum32 new_rdas_mutator password n) include) kv _
          (insert_rest o c sum32 s username metadata hex (mutate sum32 new_rdas_mutator password n)
            include)
          (insert_entry-Follows hex password metadata_breached_password kv)
          (insert_rest-Follows hex (mutate sum32 new_rdas_mutator password n) include))

  stopped :
      (password : Bytes) (n : ℤ) (include : Bool) (kv : KvStore) (x : Error)
      → server_bucket_id o c s username ≡ err x
      → insert o c sum32 s username metadata password n include kv ≡ (err x, kv)
  unfolding insert
  stopped password n include kv x e = rw (e, insert) refl

  panicked :
      (password : Bytes) (n : ℤ) (include : Bool) (kv : KvStore)
      → server_bucket_id o c s username ≡ panic
      → insert o c sum32 s username metadata password n include kv ≡ (panic, kv)
  unfolding insert
  panicked password n include kv e = rw (e, insert) refl

  -- What `insert` writes to a bucket: the entries in front of the first failure, if the bucket is that
  -- of the username.
  abbrev pub inserted_bytes : Bytes → ℤ → Bool → Bytes → Bytes
  inserted_bytes password n include =
      placed (server_bucket_id o c s username) (written (entries password n include))

  -- `insert` fails exactly where `BucketID` fails or, behind it, the first of these fails: encrypting
  -- the entry of the pair, `Mutate`, encrypting the entry of a mutation, and, if it is asked for,
  -- that of the username. On every outcome, errors and panics included, the bucket of the username has
  -- been given exactly the entries in front of the failure, in this order and at its end, and no
  -- other bucket has changed.
  pub insert_on_every_outcome :
      (password : Bytes) (n : ℤ) (include : Bool) (kv : KvStore)
      → let r = insert o c sum32 s username metadata password n include kv in
        (r.0 ≡ (server_bucket_id o c s username >>= λ id. failure (entries password n include)))
        × ((j : Bytes) → find j r.1.store ≡ find j kv.store ++ inserted_bytes password n include j)
  unfolding Follows
  insert_on_every_outcome password n include kv =
      let bytes = written (entries password n include) in
      let goes : Bytes → Outcome ℕ → Bytes = λ j m. find j kv.store ++ placed m bytes j in
      elim (Outcome-cases (server_bucket_id o c s username)) [
        | inl (id, e) ↦
            let (result, grows) = insert-Follows password n include kv id e in
            (
              result ∙ ap (λ m. m >>= λ k. failure (entries password n include)) (sym e),
              λ j. grows j ∙ ap (goes j) (sym e),
            )
        | inr (inl (x, e)) ↦
            let same = stopped password n include kv x e in
            (
              ap (λ r. r.0) same
                  ∙ ap (λ m. m >>= λ k. failure (entries password n include)) (sym e),
              λ j.
                  ap (λ r. find j r.1.store) same
                  ∙ sym (append-nil (find j kv.store))
                  ∙ ap (goes j) (sym e),
            )
        | inr (inr e) ↦
            let same = panicked password n include kv e in
            (
              ap (λ r. r.0) same
                  ∙ ap (λ m. m >>= λ k. failure (entries password n include)) (sym e),
              λ j.
                  ap (λ r. find j r.1.store) same
                  ∙ sym (append-nil (find j kv.store))
                  ∙ ap (goes j) (sym e),
            )
      ]
