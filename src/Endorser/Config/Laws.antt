-- ===== src/Endorser/Config/Laws.antt =====
-- What a configuration without errors has, and addresses.
use fabric_x_samples.Prelude.{
  none, [], ◌==◌, ◌≡◌, ◌≢◌, ◌⊎◌, ◌↔◌, arith, eq_iff, Bool-cases, inl, inr,
}
use fabric_x_samples.Endorser.Text.{itoa, join_host_port}
use fabric_x_samples.Endorser.Config.{Config, Endpoint, address, validate}

-- The tests of `Validate`, and no others.
abbrev pub HasSettings : Config → Type 0
HasSettings cfg =
    (cfg.conn_str ≢ "")
    × (cfg.channel_id ≢ "")
    × ((cfg.protocol ≡ "") ⊎ (cfg.protocol ≡ "fabric") ⊎ (cfg.protocol ≡ "fabric-x"))
    × (cfg.committer.endpoint ≢ none)
    × (cfg.server ≢ none)

-- `Validate` reports no error exactly if the connection string and the channel are given, the
-- protocol is empty or one of the two, and the committer's endpoint and the server are configured.
-- Nothing is required of the identity.
pub validate_iff : (cfg : Config) → (validate cfg ≡ []) ↔ HasSettings cfg
unfolding validate
validate_iff cfg = ground (
  arith,
  eq_iff cfg.conn_str "",
  eq_iff cfg.channel_id "",
  eq_iff cfg.protocol "",
  eq_iff cfg.protocol "fabric",
  eq_iff cfg.protocol "fabric-x",
)

-- The branch of `Address` for the host "localhost" changes nothing: `net.JoinHostPort` gives the same
-- text for it.
pub address-eq-join_host_port : (e : Endpoint) → address e ≡ join_host_port e.host (itoa e.port)
unfolding address join_host_port
address-eq-join_host_port e = elim (Bool-cases (e.host == "localhost")) [
  | inl h ↦ rw (h, (eq_iff e.host "localhost").0 h)
  | inr h ↦ rw h
]
