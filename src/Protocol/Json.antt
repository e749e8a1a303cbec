-- ===== src/Protocol/Json.antt =====
-- The JSON of the protocol's values, which encoding/json writes and reads: the functions, and what the
-- code relies on.
use migp.Base.{◌^◌, ◌<◌, ◌≡◌, Bool, true, Bytes, All, IsByte, ◌++◌, Option, some}
use migp.Base.Utf8.{IsAscii}
use migp.Protocol.Common.{Config}
use migp.Protocol.Server.{ClientRequest}

-- `auxServerConfig`: a configuration and the bytes of a private key.
pub record AuxServerConfig : Type 0 where
  pub config : Config
  pub private_key : Bytes

pub record Json : Type 0 where
  pub marshal_request : ClientRequest → Option Bytes
  -- `json.Unmarshal` into a zero `ClientRequest`: was there no error, and the request as it was left?
  pub unmarshal_request : Bytes → Bool × ClientRequest
  pub marshal_config : Config → Option Bytes
  pub unmarshal_config : Bytes → Option Config
  -- `Decode` of a `json.Decoder` for these bytes: it reads the first value.
  pub decode_config : Bytes → Option Config
  pub marshal_aux : AuxServerConfig → Option Bytes
  pub unmarshal_aux : Bytes → Option AuxServerConfig
  -- The output of the client program: username, password, status and metadata.
  pub marshal_result : Bytes → Bytes → Bytes → Bytes → Option Bytes

-- A request as its Go type allows it, with a name that JSON text holds unchanged.
pub record IsWire (r : ClientRequest) : Type 0 where
  pub version : r.version < 2 ^ 32
  pub name : All IsAscii r.bucket_id
  pub element : All IsByte r.blind_element

pub record IsJson (j : Json) : Type 0 where
  pub request_read :
      (r : ClientRequest) (b : Bytes)
      → IsWire r
      → j.marshal_request r ≡ some b
      → j.unmarshal_request b ≡ (true, r)
  pub config_read :
      (c : Config) (b : Bytes) → j.marshal_config c ≡ some b → j.unmarshal_config b ≡ some c
  pub config_decoded :
      (c : Config) (b rest : Bytes)
      → j.marshal_config c ≡ some b
      → j.decode_config (b ++ rest) ≡ some c
  pub aux_read :
      (a : AuxServerConfig) (b : Bytes)
      → All IsByte a.private_key
      → j.marshal_aux a ≡ some b
      → j.unmarshal_aux b ≡ some a
