-- ===== src/Program/Client/Served.antt =====
-- The configuration that cmd/client/main.go gets from cmd/server/server.go.
use migp.Base.{◌≡◌, refl, ap, ◌∙◌, true, Bytes, codes, [], ◌++◌, some}
use migp.Base.Outcome.{ok}
use migp.Protocol.Libraries.{Crypto, Oprf}
use migp.Protocol.Json.{Json, IsJson}
use migp.Protocol.Server.{ServerConfig, Server, server_config, new_server}
use migp.Protocol.Server.Configured.{server_config-new_server}
use migp.Protocol.Query.{Network}
use migp.Store.{KvStore}
use migp.Store.Files.{FileSystem}
use migp.Service.Writer.{fresh, line_end}
use migp.Service.Http.{write_or_error, handle_config}
use migp.Service.Online.{delivered}
use migp.Program.Client.{Flags, Surroundings, client_config}

module _ (o : Oprf) (c : Crypto) (fs : FileSystem) (json : Json) (lawful : IsJson json)
    (network : Network) where
  -- A client without a configuration file, whose network delivers what the server answers for
  -- `/config`, goes on with the configuration that the server was made from, if it can be written as
  -- JSON.
  pub client_config_served :
      (cfg : ServerConfig o) (s : Server o) (kv : KvStore)
      → new_server o cfg ≡ ok s
      → (text : Bytes) → json.marshal_config cfg.config ≡ some text
      → (flags : Flags) (around : Surroundings) → flags.config_file ≡ []
      → around.http_get (flags.target_url ++ codes "/config")
        ≡ some (
            delivered
              (handle_config o c fs json (record { migp_server = s; kv = kv }) (fresh true)))
      → client_config o c json network flags around ≡ ok cfg.config
  unfolding client_config handle_config write_or_error
  client_config_served cfg s kv made text written flags around no_file answers =
      let shown : json.marshal_config (server_config o s).config ≡ some text =
        ap (λ x. json.marshal_config x.config) (server_config-new_server o cfg s made) ∙ written in
      let handled : handle_config o c fs json (record { migp_server = s; kv = kv }) (fresh true)
          ≡ record (fresh true) { status = some 200; body = text ++ line_end } =
        rw (shown, handle_config) refl in
      let read = lawful.config_decoded cfg.config text line_end written in
      rw (no_file, answers, handled, read) refl
