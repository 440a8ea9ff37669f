-- ===== src/Assembly/Tls.antt =====
-- internal/server/server.go, buildServerTLS and buildGatewayTLS: the credentials of the two ends of the loopback.
pub mod Mutual
use jitsudo.Prelude.{
  Bool, true, false, ◌&&◌, not, ◌≡◌, refl, Option, none, some, String, str_eq, List, [],
  if◌then◌else◌,
}
use jitsudo.Config.{TlsCfg}
use jitsudo.World.{Error, message, wrap, Result, ok, err}

-- crypto/tls, crypto/x509 and os: `append_certs` is `none` where the text has no valid certificate.
pub record Crypto (Cert Pool : Type 0) : Type 0 where
  pub load_x509_key_pair : String → String → Result Cert
  pub read_file : String → Result String
  pub append_certs : String → Option Pool

-- tls.Config. `some` client CAs come with RequireAndVerifyClientCert, and only they.
pub record TlsConfig (Cert Pool : Type 0) : Type 0 where
  pub certificates : Option Cert
  pub client_cas : Option Pool
  pub root_cas : Option Pool

module _ {Cert Pool : Type 0} (crypto : Crypto Cert Pool) where
  unfoldable pub build_server_tls : TlsCfg → Result (TlsConfig Cert Pool)
  build_server_tls cfg = elim (crypto.load_x509_key_pair cfg.cert_file cfg.key_file) [
    | err e ↦ err (wrap "load key pair" e)
    | ok cert ↦
        if str_eq cfg.ca_file ""
        then ok (record { certificates = some cert; client_cas = none; root_cas = none })
        else elim (crypto.read_file cfg.ca_file) [
          | err e ↦ err (wrap "read CA file" e)
          | ok ca_pem ↦ elim (crypto.append_certs ca_pem) [
            | none ↦ err (message "parse CA file: no valid certificates found")
            | some pool ↦
                ok (record { certificates = some cert; client_cas = some pool; root_cas = none })
          ]
        ]
  ]

  unfoldable pub build_gateway_tls : TlsCfg → Result (TlsConfig Cert Pool)
  build_gateway_tls cfg = elim (crypto.read_file cfg.cert_file) [
    | err e ↦ err (wrap "read server cert for gateway" e)
    | ok cert_pem ↦ elim (crypto.append_certs cert_pem) [
      | none ↦ err (message "parse server cert for gateway: no valid certificates found")
      | some pool ↦ ok (record { certificates = none; client_cas = none; root_cas = some pool })
    ]
  ]

  -- Start: the credentials of the listener and of the gateway's connection to it; `none` is insecure.
  unfoldable pub transport : TlsCfg → Result (Option (TlsConfig Cert Pool × TlsConfig Cert Pool))
  unfolding build_server_tls build_gateway_tls
  transport cfg =
      if not (str_eq cfg.cert_file "") && not (str_eq cfg.key_file "")
      then elim (build_server_tls cfg) [
        | err e ↦ err (wrap "server: TLS config" e)
        | ok server ↦ elim (build_gateway_tls cfg) [
          | err e ↦ err (wrap "server: gateway TLS config" e)
          | ok gateway ↦ ok (some (server, gateway))
        ]
      ]
      else ok none
