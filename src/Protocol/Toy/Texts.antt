-- ===== src/Protocol/Toy/Texts.antt =====
-- Concrete functions in the place of encoding/json and of the network, for the tests: a text is the
-- list of the numbers that it is made from.
use migp.Base.{
  ℕ, zero, suc, ◌≡◌, refl, ap, sym, ◌∙◌, Bool, true, false, Bytes, [], ◌∷◌, ◌++◌, Option, none,
  some, length, take, drop, take-length-append, drop-length-append,
}
use migp.Base.Int.{ℤ, pos, negsuc}
use migp.Protocol.Common.{Config}
use migp.Protocol.Json.{Json, IsJson, AuxServerConfig}
use migp.Protocol.Server.{ClientRequest}

abbrev sign_code : ℤ → ℕ
sign_code (pos n) = 0
sign_code (negsuc n) = 1

abbrev amount_code : ℤ → ℕ
amount_code (pos n) = n
amount_code (negsuc n) = n

abbrev signed : ℕ → ℕ → ℤ
signed zero n = pos n
signed (suc k) n = negsuc n

signed_code : (z : ℤ) → signed (sign_code z) (amount_code z) ≡ z
signed_code (pos n) = refl
signed_code (negsuc n) = refl

abbrev config_text : Config → Bytes → Bytes
config_text c rest =
    c.version
    ∷ sign_code c.bucket_id_bit_size
    ∷ amount_code c.bucket_id_bit_size
    ∷ c.bucket_hasher_id
    ∷ c.slow_hasher_id
    ∷ c.bucket_encryptor_id
    ∷ c.oprf_suite
    ∷ rest

abbrev text_config : Bytes → Option AuxServerConfig
text_config (v ∷ s ∷ n ∷ h ∷ w ∷ e ∷ o ∷ key) = some (record {
  config = record {
    version = v;
    bucket_id_bit_size = signed s n;
    bucket_hasher_id = h;
    slow_hasher_id = w;
    bucket_encryptor_id = e;
    oprf_suite = o;
  };
  private_key = key;
})
text_config _ = none

text_config-config_text :
    (c : Config) (key : Bytes)
    → text_config (config_text c key) ≡ some (record { config = c; private_key = key })
text_config-config_text c key =
    ap (λ z. some (record { config = record c { bucket_id_bit_size = z }; private_key = key }))
      (signed_code c.bucket_id_bit_size)

abbrev pub request_text : ClientRequest → Bytes
request_text r = r.version ∷ length r.bucket_id ∷ (r.bucket_id ++ r.blind_element)

abbrev text_request : Bytes → Bool × ClientRequest
text_request (v ∷ n ∷ rest) =
    (true, record { version = v; bucket_id = take n rest; blind_element = drop n rest })
text_request _ = (false, record { version = 0; bucket_id = []; blind_element = [] })

text_request-request_text : (r : ClientRequest) → text_request (request_text r) ≡ (true, r)
text_request-request_text r =
    rw
      (
        take-length-append r.bucket_id r.blind_element,
        drop-length-append r.bucket_id r.blind_element,
      )
      refl

abbrev only_config : Option AuxServerConfig → Option Config
only_config none = none
only_config (some a) = some a.config

abbrev pub toy_json : Json
toy_json = record {
  marshal_request = λ r. some (request_text r);
  unmarshal_request = text_request;
  marshal_config = λ c. some (config_text c []);
  unmarshal_config = λ b. only_config (text_config b);
  decode_config = λ b. only_config (text_config b);
  marshal_aux = λ a. some (config_text a.config a.private_key);
  unmarshal_aux = text_config;
  marshal_result =
      λ username password status metadata. some (username ++ password ++ status ++ metadata);
}

some-injective : {A : Type 0} {a b : A} → some a ≡ some b → a ≡ b
some-injective h = cc

pub toy_json-IsJson : IsJson toy_json
toy_json-IsJson = record {
  request_read =
      λ r b wire e. ap text_request (sym (some-injective e)) ∙ text_request-request_text r;
  config_read = λ c b e.
      ap (λ t. only_config (text_config t)) (sym (some-injective e))
      ∙ ap only_config (text_config-config_text c []);
  config_decoded = λ c b rest e.
      ap (λ t. only_config (text_config (t ++ rest))) (sym (some-injective e))
      ∙ ap only_config (text_config-config_text c rest);
  aux_read = λ a b bytes e.
      ap text_config (sym (some-injective e)) ∙ text_config-config_text a.config a.private_key;
}
