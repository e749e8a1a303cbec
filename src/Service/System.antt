-- ===== src/Service/System.antt =====
-- The demo server over time, as cmd/server/main.go runs it: credential pairs are inserted into the
-- store, and the store is saved to the files and emptied. Requests change nothing.
pub mod Grows
pub mod Served
pub mod Tests
use migp.Base.{ℕ, ◌≡◌, Bool, Bytes}
use migp.Base.Int.{ℤ}
use migp.Base.Outcome.{ok}
use migp.Protocol.Libraries.{Crypto, Oprf}
use migp.Protocol.Server.{Server}
use migp.Store.{KvStore, new_kv_store, save_credentials}
use migp.Store.Files.{FileSystem}
use migp.Service.{insert}

pub record System (fs : FileSystem) : Type 0 where
  pub kv : KvStore
  pub disk : fs.State

module _ (o : Oprf) (c : Crypto) (fs : FileSystem) (sum32 : Bytes → ℕ) (s : Server o) where
  abbrev pub after_insert : System fs → Bytes → Bytes → Bytes → ℤ → Bool → System fs
  after_insert y username password metadata n include = record {
    kv = (insert o c sum32 s username metadata password n include y.kv).1;
    disk = y.disk;
  }

  abbrev pub after_save : System fs → System fs
  after_save y = record { kv = new_kv_store; disk = (save_credentials fs y.kv y.disk).1 }

  -- An insertion may fail, and then leaves what it has written; a save that fails ends the program.
  pub data Step : System fs → System fs → Type 0 where
    inserted :
        (y : System fs) (username password metadata : Bytes) (n : ℤ) (include : Bool)
        → Step y (after_insert y username password metadata n include)
    saves : (y : System fs) → (save_credentials fs y.kv y.disk).0 ≡ ok tt → Step y (after_save y)

  pub data Reach (y : System fs) : System fs → Type 0 where
    here : Reach y y
    next : {z u : System fs} → Reach y z → Step z u → Reach y u

  pub Reach-trans : {y z u : System fs} → Reach y z → Reach z u → Reach y u
  Reach-trans r here = r
  Reach-trans r (next q step) = next (Reach-trans r q) step
