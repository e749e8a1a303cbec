-- ===== src/Service/System/Grows.antt =====
-- What runs of the demo server of cmd/server do to its buckets.
use migp.Base.{ℕ, ◌≡◌, refl, ap, ap₂, sym, ◌∙◌, Bool, Bytes, [], ◌++◌, append_assoc, append-nil}
use migp.Base.Int.{ℤ}
use migp.Protocol.Libraries.{Crypto, Oprf}
use migp.Protocol.Server.{Server}
use migp.Store.{KvStore, new_kv_store, find}
use migp.Store.Files.{FileSystem, IsFileSystem}
use migp.Store.Memory.{IsMap}
use migp.Store.Paths.{IsId}
use migp.Store.Save.{saved, saved-save_credentials}
use migp.Service.{insert}
use migp.Service.Entries.{inserted_bytes, insert_on_every_outcome}
use migp.Service.Invariant.{IsSound, insert-IsSound}
use migp.Service.System.{System, Step, inserted, saves, Reach, here, next}

pub new_kv_store-IsSound : IsSound new_kv_store
unfolding IsMap
new_kv_store-IsSound = record { map = tt; ids = tt }

find-new_kv_store : (id : Bytes) → find id new_kv_store.store ≡ []
unfolding find
find-new_kv_store id = refl

module _ (o : Oprf) (c : Crypto) (fs : FileSystem) (lawful : IsFileSystem fs) (sum32 : Bytes → ℕ)
    (s : Server o) where
  -- A bucket: its file, and what memory holds for it.
  unfoldable pub bucket : System fs → Bytes → Bytes
  bucket y id = saved fs lawful y.disk id ++ find id y.kv.store

  -- What a run does to the state, seen at one bucket.
  pub record Grown (y z : System fs) (id : Bytes) : Type 0 where
    pub sound : IsSound z.kv
    pub more : Bytes
    pub longer : bucket z id ≡ bucket y id ++ more

  find-insert :
      (kv : KvStore) (username password metadata : Bytes) (n : ℤ) (include : Bool) (id : Bytes)
      → (more : Bytes) × (find id
            (insert o c sum32 s username metadata password n include kv).1.store
          ≡ find id kv.store ++ more)
  find-insert kv username password metadata n include id = (
    inserted_bytes o c sum32 s username metadata password n include id,
    (insert_on_every_outcome o c sum32 s username metadata password n include kv).1 id,
  )

  Step-Grown :
      {y z : System fs} (id : Bytes)
      → IsId id
      → Step o c fs sum32 s y z
      → IsSound y.kv
      → Grown y z id
  unfolding bucket
  Step-Grown id hid (inserted y username password metadata n include) h =
      let (more, e) = find-insert y.kv username password metadata n include id in
      record {
        sound = insert-IsSound o c sum32 s username metadata password n include y.kv h;
        more = more;
        longer =
            ap (λ t. saved fs lawful y.disk id ++ t) e
            ∙ sym (append_assoc (saved fs lawful y.disk id) (find id y.kv.store) more);
      }
  Step-Grown id hid (saves y done) h = record {
    sound = new_kv_store-IsSound;
    more = [];
    longer =
        ap₂ (λ a b. a ++ b) (saved-save_credentials fs lawful y.kv y.disk id h.map h.ids hid done)
          (find-new_kv_store id);
  }

  -- From a sound store, every run of insertions, which may fail, and of saves that succeed leads to a
  -- sound store, and each bucket, its file and memory together, has at most grown at its end.
  pub Reach-Grown :
      {y z : System fs} (id : Bytes)
      → IsId id
      → IsSound y.kv
      → Reach o c fs sum32 s y z
      → Grown y z id
  Reach-Grown {y} id hid h here = record {
    sound = h;
    more = [];
    longer = sym (append-nil (bucket y id));
  }
  Reach-Grown {y} id hid h (next r step) =
      let before = Reach-Grown id hid h r in
      let last = Step-Grown id hid step before.sound in
      record {
        sound = last.sound;
        more = before.more ++ last.more;
        longer =
            last.longer
            ∙ ap (λ t. t ++ last.more) before.longer
            ∙ append_assoc (bucket y id) before.more last.more;
      }
