-- ===== src/Assembly/Tls/Mutual.antt =====
-- internal/server/server.go, Start: when the listener asks its clients for a certificate.
use jitsudo.Prelude.{not, ◌≡◌, none, some, str_eq, is_some, arith}
use jitsudo.Assembly.Tls.{Crypto, TlsConfig, build_server_tls, build_gateway_tls, transport}
use jitsudo.Config.{TlsCfg}
use jitsudo.World.{ok}

module _ {Cert Pool : Type 0} (crypto : Crypto Cert Pool) where
  -- The listener asks for a client certificate exactly when a CA file is named.
  server-IsMutual :
      (cfg : TlsCfg) (server : TlsConfig Cert Pool)
      → build_server_tls crypto cfg ≡ ok server
      → is_some server.client_cas ≡ not (str_eq cfg.ca_file "")
  unfolding build_server_tls
  server-IsMutual cfg server built = ground arith

  -- The gateway presents none.
  gateway-IsAnonymous :
      (cfg : TlsCfg) (gateway : TlsConfig Cert Pool)
      → build_gateway_tls crypto cfg ≡ ok gateway
      → gateway.certificates ≡ none
  unfolding build_gateway_tls
  gateway-IsAnonymous cfg gateway built = ground arith

  -- Both ends of the loopback, where Start sets up TLS.
  pub transport-IsMutual :
      (cfg : TlsCfg) (server gateway : TlsConfig Cert Pool)
      → transport crypto cfg ≡ ok (some (server, gateway))
      → (is_some server.client_cas ≡ not (str_eq cfg.ca_file "")) × (gateway.certificates ≡ none)
  unfolding transport
  transport-IsMutual cfg server gateway built =
      ground (arith, server-IsMutual cfg server, gateway-IsAnonymous cfg gateway)
