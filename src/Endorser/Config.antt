-- ===== src/Endorser/Config.antt =====
-- custom-endorser/config/config.go
pub mod Laws
use fabric_x_samples.Prelude.{
  String, Bool, true, false, not, ◌&&◌, Option, none, some, List, [], ◌∷◌, ◌++◌, ◌<>◌, ◌==◌,
  if◌then◌else◌,
}
use fabric_x_samples.Go.{Outcome, ok, panic}
use fabric_x_samples.Tokens.Int.{ℤ}
use fabric_x_samples.Endorser.Text.{itoa, join_host_port}

pub record TlsConfig : Type 0 where
  pub mode : String
  pub cert_path : String
  pub key_path : String
  pub ca_cert_paths : List String

pub record Endpoint : Type 0 where
  pub host : String
  pub port : ℤ

-- A nil pointer is `none`.
pub record ClientConfig : Type 0 where
  pub endpoint : Option Endpoint
  pub tls : TlsConfig

pub record IdentityConfig : Type 0 where
  pub msp_id : String
  pub msp_dir : String

-- The server's configuration is handed on as it is; here it is a name.
pub record Config : Type 0 where
  pub channel_id : String
  pub server : Option String
  pub committer : ClientConfig
  pub identity : Option IdentityConfig
  pub log_spec : String
  pub protocol : String
  pub conn_str : String

-- network.PeerConf and network.OrdererConf
pub record PeerConf : Type 0 where
  pub address : String
  pub tls : TlsConfig

-- `Endpoint.Address`
unfoldable pub address : Endpoint → String
address e =
    if e.host == "localhost"
    then e.host <> ":" <> itoa e.port
    else join_host_port e.host (itoa e.port)

abbrev to_conf : TlsConfig → Option Endpoint → Outcome PeerConf
to_conf tls none = panic "nil pointer dereference"
to_conf tls (some e) = ok (record {
  address = address e;
  tls = record {
    mode = tls.mode;
    cert_path = tls.cert_path;
    key_path = tls.key_path;
    ca_cert_paths = tls.ca_cert_paths;
  };
})

-- `ToPeerConf`; a nil endpoint is dereferenced.
unfoldable pub to_peer_conf : ClientConfig → Outcome PeerConf
to_peer_conf c = to_conf c.tls c.endpoint

-- `ToOrdererConf`
unfoldable pub to_orderer_conf : ClientConfig → Outcome PeerConf
to_orderer_conf c = to_conf c.tls c.endpoint

-- `errs = append(errs, …)` under a test
abbrev report : Bool → String → List String → List String
report bad text errs = if bad then errs ++ (text ∷ []) else errs

abbrev pub is_nil {ℓ} : {A : Type ℓ} → Option A → Bool
is_nil none = true
is_nil (some a) = false

-- `Validate`: the texts of the joined errors; the joined error is nil if there are none.
unfoldable pub validate : Config → List String
validate cfg =
    let errs = report (cfg.conn_str == "") "database.connection-string is required" [] in
    let errs = report (cfg.channel_id == "") "channel-id is required" errs in
    let errs =
      report
        (not (cfg.protocol == "")
          && not (cfg.protocol == "fabric")
          && not (cfg.protocol == "fabric-x"))
        "protocol must be either fabric or fabric-x" errs in
    let errs = report (is_nil cfg.committer.endpoint) "committer.endpoint is required" errs in
    report (is_nil cfg.server) "server configuration is required" errs
