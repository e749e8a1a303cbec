-- ===== src/Protocol/Toy.antt =====
-- Concrete functions in the place of the libraries, for the tests: they keep the laws that the code
-- relies on, and compute.
pub mod Texts
use migp.Base.{
  ℕ, zero, suc, ◌%◌, ◌<◌, ◌≡◌, refl, ap, sym, ◌∙◌, Bytes, All, IsByte, List, [], ◌∷◌, Option, none,
  some, arith, length, replicate, length-replicate, map,
}
use migp.Base.Int.{pos}
use migp.Protocol.Libraries.{Crypto, IsCrypto, Oprf, IsOprf, IsOprfCoding}
use migp.Protocol.Server.{ServerConfig}

-- The first byte of a text.
abbrev pub lead : Bytes → ℕ
lead [] = 0
lead (x ∷ s) = x % 256

-- A pad repeats the first byte of its secret, and a digest the length of its text.
abbrev pub toy_crypto : Crypto
toy_crypto = record {
  hkdf_read = λ secret salt n. some (replicate n (lead secret), n);
  sha256 = λ s. replicate 32 (length s % 256);
  scrypt_key = λ password salt n r p len. some password;
}

replicate-IsByte : (n x : ℕ) → x < 256 → All IsByte (replicate n x)
replicate-IsByte zero x h = tt
replicate-IsByte (suc n) x h = (h, replicate-IsByte n x h)

pub toy_crypto-IsCrypto : IsCrypto toy_crypto
toy_crypto-IsCrypto = record {
  pad_length = λ secret salt n pad k e. pads secret salt n pad k e;
  sha256_length = λ s. length-replicate 32 (length s % 256);
  sha256_bytes = λ s. replicate-IsByte 32 (length s % 256) (omega arith);
}
  where
    pads :
        (secret salt : Bytes) (n : ℕ) (pad : Bytes) (k : ℕ)
        → toy_crypto.hkdf_read secret salt n ≡ some (pad, k)
        → length pad ≡ n
    pads secret salt n pad k e =
        let same : replicate n (lead secret) ≡ pad = cc in
        ap length (sym same) ∙ length-replicate n (lead secret)

abbrev pub first_input : List Bytes → Option Bytes
first_input [] = none
first_input (x ∷ xs) = some x

abbrev first_key : Bytes → Option ℕ
first_key [] = none
first_key (k ∷ b) = some k

-- What the client makes of the server's answers: their first bytes, in front of its input.
abbrev pub unblinded : Bytes → List Bytes → List Bytes
unblinded r [] = []
unblinded r ([] ∷ ys) = r ∷ unblinded r ys
unblinded r ((k ∷ y) ∷ ys) = (k ∷ r) ∷ unblinded r ys

-- An evaluation puts the key in front of the input. The server is sent three bytes that do not depend
-- on the input, and answers with three that carry its key.
abbrev pub toy_oprf : Oprf
toy_oprf = record {
  PrivateKey = ℕ;
  Server = ℕ;
  Client = Unit;
  Request = Bytes;
  Coins = Unit;
  default_suite = 3;
  new_server = λ suite key. some key;
  new_client = λ suite. some tt;
  full_evaluate = λ key x info. some (key ∷ x);
  evaluate = λ key xs info. some (map (λ x. key ∷ 0 ∷ 0 ∷ []) xs);
  request = λ client coins xs. first_input xs;
  blinded_elements = λ r. (1 ∷ 2 ∷ 3 ∷ []) ∷ [];
  finalize = λ client r ys info. some (unblinded r ys);
  element_length = λ suite. some 3;
  serialize_key = λ key. some (key ∷ []);
  deserialize_key = λ suite b. first_key b;
}

pub toy_oprf-IsOprf : IsOprf toy_oprf
toy_oprf-IsOprf = record {
  blinds_one = λ client coins x r e. (1 ∷ 2 ∷ 3 ∷ [], refl);
  agrees = λ suite key server client coins x info b y r made joined sent blinded evaluated.
      agree key server x y r made sent evaluated;
}
  where
    agree :
        (key server : ℕ) (x y r : Bytes)
        → some key ≡ some server
        → some x ≡ some r
        → some (server ∷ x) ≡ some y
        → (e : Bytes) × (some ((server ∷ 0 ∷ 0 ∷ []) ∷ []) ≡ some (e ∷ []))
          × (some (unblinded r (e ∷ [])) ≡ some (y ∷ []))
    agree key server x y r made sent evaluated = (server ∷ 0 ∷ 0 ∷ [], refl, cc)

pub toy_oprf-IsOprfCoding : IsOprfCoding toy_oprf
toy_oprf-IsOprfCoding = record {
  KeyOf = λ suite key. Unit;
  element_size = λ suite key server xs es info e made answer. size server xs es e answer;
  key_written = λ suite key u. (key ∷ [], refl, refl);
}
  where
    size :
        (server : ℕ) (xs es : List Bytes) (e : Bytes)
        → some (map (λ x. server ∷ 0 ∷ 0 ∷ []) xs) ≡ some (e ∷ es)
        → some 3 ≡ some (length e)
    size server [] es e answer = cc
    size server (x ∷ xs) es e answer =
        let same : server ∷ 0 ∷ 0 ∷ [] ≡ e = cc in ap (λ t. some (length t)) same

pub every_key-KeyOf : (suite key : ℕ) → toy_oprf-IsOprfCoding.KeyOf suite key
unfolding toy_oprf-IsOprfCoding
every_key-KeyOf suite key = tt

-- A configuration without the slow hash.
abbrev pub toy_config : ServerConfig toy_oprf
toy_config = record {
  config = record {
    version = 1;
    bucket_id_bit_size = pos 20;
    bucket_hasher_id = 1;
    slow_hasher_id = 0;
    bucket_encryptor_id = 1;
    oprf_suite = 3;
  };
  private_key = 5;
}
