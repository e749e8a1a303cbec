-- ===== src/Protocol/Libraries.antt =====
-- The libraries that pkg/migp calls and that are not part of the repository, as records of their
-- functions, with what the code relies on as separate records of laws. SHA-256 of the standard
-- library is here too: nothing depends on which digest it computes.
use migp.Base.{ℕ, ◌≡◌, Bytes, All, IsByte, List, [], ◌∷◌, Option, some, length}

pub record Crypto : Type 0 where
  -- `hkdf.New(sha256.New, secret, salt, nil)` and one `Read` into a slice of that length: the slice
  -- and the number of bytes read, or the error.
  pub hkdf_read : Bytes → Bytes → ℕ → Option (Bytes × ℕ)
  -- `sha256.Sum256`
  pub sha256 : Bytes → Bytes
  -- `scrypt.Key(password, salt, N, r, p, keyLen)`
  pub scrypt_key : Bytes → Bytes → ℕ → ℕ → ℕ → ℕ → Option Bytes

pub record IsCrypto (c : Crypto) : Type 0 where
  -- `Read` keeps the length of the slice that it is given.
  pub pad_length :
      (secret salt : Bytes) (n : ℕ) (pad : Bytes) (k : ℕ)
      → c.hkdf_read secret salt n ≡ some (pad, k)
      → length pad ≡ n
  -- A digest has 32 bytes.
  pub sha256_length : (s : Bytes) → length (c.sha256 s) ≡ 32
  pub sha256_bytes : (s : Bytes) → All IsByte (c.sha256 s)

-- github.com/cloudflare/circl/oprf. `Coins` is the randomness that blinds a request.
pub record Oprf : Type 1 where
  pub PrivateKey : Type 0
  pub Server : Type 0
  pub Client : Type 0
  pub Request : Type 0
  pub Coins : Type 0
  pub default_suite : ℕ
  pub new_server : ℕ → PrivateKey → Option Server
  pub new_client : ℕ → Option Client
  pub full_evaluate : Server → Bytes → Bytes → Option Bytes
  pub evaluate : Server → List Bytes → Bytes → Option (List Bytes)
  pub request : Client → Coins → List Bytes → Option Request
  pub blinded_elements : Request → List Bytes
  pub finalize : Client → Request → List Bytes → Bytes → Option (List Bytes)
  -- `oprf.GetSizes(suite).SerializedElementLength`
  pub element_length : ℕ → Option ℕ
  -- `PrivateKey.Serialize`, and `Deserialize` for a suite
  pub serialize_key : PrivateKey → Option Bytes
  pub deserialize_key : ℕ → Bytes → Option PrivateKey

-- What the protocol promises of one input: if the steps succeed, then the request holds one blinded
-- element, the server's answer to it is one element, and the client's result is the server's own
-- evaluation of the input.
pub record IsOprf (o : Oprf) : Type 0 where
  pub blinds_one :
      (client : o.Client) (coins : o.Coins) (x : Bytes) (r : o.Request)
      → o.request client coins (x ∷ []) ≡ some r
      → (b : Bytes) × (o.blinded_elements r ≡ b ∷ [])
  pub agrees :
      (suite : ℕ) (key : o.PrivateKey) (server : o.Server) (client : o.Client) (coins : o.Coins)
      (x info b y : Bytes) (r : o.Request)
      → o.new_server suite key ≡ some server
      → o.new_client suite ≡ some client
      → o.request client coins (x ∷ []) ≡ some r
      → o.blinded_elements r ≡ b ∷ []
      → o.full_evaluate server x info ≡ some y
      → (e : Bytes) × (o.evaluate server (b ∷ []) info ≡ some (e ∷ []))
        × (o.finalize client r (e ∷ []) info ≡ some (y ∷ []))

-- How the library writes its values as bytes: a server that a suite made answers with elements of the
-- suite's length, and a key is read back as it was written for the suite that it belongs to.
pub record IsOprfCoding (o : Oprf) : Type 1 where
  pub KeyOf : ℕ → o.PrivateKey → Type 0
  pub element_size :
      (suite : ℕ) (key : o.PrivateKey) (server : o.Server) (xs es : List Bytes) (info e : Bytes)
      → o.new_server suite key ≡ some server
      → o.evaluate server xs info ≡ some (e ∷ es)
      → o.element_length suite ≡ some (length e)
  pub key_written :
      (suite : ℕ) (key : o.PrivateKey)
      → KeyOf suite key
      → (b : Bytes) × (o.serialize_key key ≡ some b) × (o.deserialize_key suite b ≡ some key)
