-- ===== src/Protocol/ServerConfig.antt =====
-- `MarshalJSON` and `UnmarshalJSON` of a server configuration, of pkg/migp/server.go.
use migp.Base.{◌≡◌, refl, ap, sym, ◌∙◌, Bytes, All, IsByte, Option, none, some}
use migp.Base.Outcome.{
  Outcome, ok, ◌>>=◌, or_fail, or_panic, >>=-eq-ok, ok-injective, or_fail-eq-ok, json_failed,
  key_failed,
}
use migp.Protocol.Libraries.{Oprf, IsOprfCoding}
use migp.Protocol.Json.{Json, IsJson, AuxServerConfig}
use migp.Protocol.Server.{ServerConfig}

module _ (o : Oprf) (json : Json) where
  -- An error of the key's serialization is a panic.
  unfoldable pub marshal_json : ServerConfig o → Outcome Bytes
  marshal_json c = do
    serialized_private_key ← or_panic (o.serialize_key c.private_key)
    or_fail json_failed
        (json.marshal_aux (record { config = c.config; private_key = serialized_private_key }))

  -- The key is read for the suite that the configuration names.
  unfoldable pub unmarshal_json : Bytes → Outcome (ServerConfig o)
  unmarshal_json data_bytes = do
    aux ← or_fail json_failed (json.unmarshal_aux data_bytes)
    key ← or_fail key_failed (o.deserialize_key aux.config.oprf_suite aux.private_key)
    ok (record { config = aux.config; private_key = key })

  or_panic-eq-ok : {A : Type 0} (m : Option A) {a : A} → or_panic m ≡ ok a → m ≡ some a
  or_panic-eq-ok none h = cc
  or_panic-eq-ok (some b) h = cc

  -- A configuration whose key belongs to its suite, and is written as bytes: what `MarshalJSON` gives
  -- for it, `UnmarshalJSON` reads back as the same configuration with the same key.
  pub unmarshal_json-marshal_json :
      (coding : IsOprfCoding o) (lawful : IsJson json) (c : ServerConfig o) (key b : Bytes)
      → coding.KeyOf c.config.oprf_suite c.private_key
      → o.serialize_key c.private_key ≡ some key
      → All IsByte key
      → marshal_json c ≡ ok b
      → unmarshal_json b ≡ ok c
  unfolding marshal_json unmarshal_json
  unmarshal_json-marshal_json coding lawful c key b belongs written bytes e =
      let (key', first, e) = >>=-eq-ok (or_panic (o.serialize_key c.private_key)) _ e in
      let same : key' ≡ key = ok-injective (sym first ∙ ap or_panic written) in
      let aux : AuxServerConfig = record { config = c.config; private_key = key } in
      let text : json.marshal_aux aux ≡ some b =
        ap (λ k. json.marshal_aux (record { config = c.config; private_key = k })) (sym same)
        ∙ or_fail-eq-ok json_failed _ e in
      let (k, written', read') = coding.key_written c.config.oprf_suite c.private_key belongs in
      let keys : k ≡ key = ok-injective (sym (ap or_panic written') ∙ ap or_panic written) in
      let read : o.deserialize_key c.config.oprf_suite key ≡ some c.private_key =
        ap (o.deserialize_key c.config.oprf_suite) (sym keys) ∙ read' in
      rw (lawful.aux_read aux b bytes text, read) refl
