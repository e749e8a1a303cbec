-- ===== src/Service.antt =====
-- cmd/server/server.go: the server of the demo joins the protocol's server to the store. `insert`
-- encrypts a credential pair with its variants into one bucket. The handlers are in Service/Http.
pub mod Writes
pub mod Insert
pub mod Entries
pub mod Invariant
pub mod Found
pub mod Process
pub mod Writer
pub mod Http
pub mod Online
pub mod System
pub mod Tests
use migp.Base.{ℕ, Bool, true, false, Bytes, List, [], ◌∷◌, if◌then◌else◌}
use migp.Base.Int.{ℤ}
use migp.Base.Outcome.{Outcome, ok, err, panic, ◌>>=◌}
use migp.Protocol.Common.{
  MetadataType, metadata_breached_password, metadata_similar_password, metadata_breached_username,
  bucket_id_to_hex,
}
use migp.Protocol.Libraries.{Crypto, Oprf}
use migp.Protocol.Server.{ServerConfig, Server, new_server, server_bucket_id, encrypt_bucket_entry}
use migp.Mutator.Mutate.{new_rdas_mutator, mutate}
use migp.Store.{KvStore, new_kv_store, append}

-- The type `server`: a protocol server and its store.
pub record DemoServer (o : Oprf) : Type 0 where
  pub migp_server : Server o
  pub kv : KvStore

-- `newServer`; `newKVStore` does not fail.
unfoldable pub new_demo_server : (o : Oprf) → ServerConfig o → Outcome (DemoServer o)
new_demo_server o cfg = do
  made ← new_server o cfg
  ok (record { migp_server = made; kv = new_kv_store })

-- What a call gives and the store that it leaves, also where it fails.
abbrev pub Run : Type 0
Run = Outcome (Unit {0}) × KvStore

-- `if err != nil { return err }` between two calls
abbrev pub and_then : Run → (KvStore → Run) → Run
and_then (panic, kv) next = (panic, kv)
and_then (err e, kv) next = (err e, kv)
and_then (ok u, kv) next = next kv

module _ (o : Oprf) (c : Crypto) (sum32 : Bytes → ℕ) (s : Server o)
    (username metadata : Bytes) where
  -- `EncryptBucketEntry` and `Append`, which does not fail.
  unfoldable pub insert_entry : Bytes → Bytes → MetadataType → KvStore → Run
  insert_entry bucket_id_hex password flag kv =
      elim (encrypt_bucket_entry o c s username password flag metadata) [
        | ok new_entry ↦ (ok tt, append kv bucket_id_hex new_entry)
        | err e ↦ (err e, kv)
        | panic ↦ (panic, kv)
      ]

  -- The loop over the variants.
  unfoldable pub insert_variants : Bytes → List Bytes → KvStore → Run
  unfolding insert_entry
  insert_variants bucket_id_hex [] kv = (ok tt, kv)
  insert_variants bucket_id_hex (variant ∷ variants) kv =
      and_then (insert_entry bucket_id_hex variant metadata_similar_password kv)
        (insert_variants bucket_id_hex variants)

  -- The last part: an entry with a nil password.
  unfoldable pub insert_username : Bytes → Bool → KvStore → Run
  unfolding insert_entry
  insert_username bucket_id_hex include_username_variant kv =
      if include_username_variant
      then insert_entry bucket_id_hex [] metadata_breached_username kv
      else (ok tt, kv)

  -- What follows the first entry; `Mutate` returns no error.
  unfoldable pub insert_rest : Bytes → Outcome (List Bytes) → Bool → KvStore → Run
  unfolding insert_variants insert_username
  insert_rest bucket_id_hex (ok variants) include_username_variant kv =
      and_then (insert_variants bucket_id_hex variants kv)
        (insert_username bucket_id_hex include_username_variant)
  insert_rest bucket_id_hex (err e) include_username_variant kv = (err e, kv)
  insert_rest bucket_id_hex panic include_username_variant kv = (panic, kv)

  unfoldable pub insert : Bytes → ℤ → Bool → KvStore → Run
  unfolding insert_entry insert_rest
  insert password num_variants include_username_variant kv =
      elim (server_bucket_id o c s username) [
        | err e ↦ (err e, kv)
        | panic ↦ (panic, kv)
        | ok id ↦
            and_then (insert_entry (bucket_id_to_hex id) password metadata_breached_password kv) (
              insert_rest (bucket_id_to_hex id)
                (mutate sum32 new_rdas_mutator password num_variants) include_username_variant)
      ]
