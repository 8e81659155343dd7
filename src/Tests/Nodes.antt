-- ===== src/Tests/Nodes.antt =====
-- The start of the nodes, with a node on which every call succeeds.
use fabric_x_samples.Prelude.{
  String, false, Option, none, some, List, [], ◌≡◌, refl, ◌==◌, if◌then◌else◌,
}
use mathlib.Core.List.{Perm}
use mathlib.Core.List.Perm
use fabric_x_samples.Go.{Error, Outcome, ok, err}
use fabric_x_samples.Tokens.Node.{
  Step, Node, bind_endorsing_identities, endorsers, owner_main, issuer_main, endorser_main,
}
use fabric_x_samples.Tokens.Node.Bindings
use fabric_x_samples.Tokens.Node.Bindings.{bindings, bind_endorsing_identities-bindings}
use fabric_x_samples.Tokens.Node.Lifecycle.{Ends}
use fabric_x_samples.Tokens.Node.Mains.{main-Ends}
use fabric_x_samples.Tokens.Node.Registrations.{Registers, owner_views, issuer_views}
use fabric_x_samples.Tokens.Node.Sdk.{Container, install, xevm}
use fabric_x_samples.Tokens.Node.Sdk.Installs.{Installs, provided, registered, install-Installs}

-- Only the first endorser has an identity here; its binding fails.
abbrev known : String → Option String
known label = if label == "endorser1-endorsing" then some "msp1" else none

abbrev answer_of : Option String → Outcome String
answer_of none = err (Error.message "not found")
answer_of (some e) = ok e

abbrev node_1 : Node
node_1 = record {
  join_path = λ dir file. file;
  make_dir = λ h dir. ok tt;
  install_sdk = λ h. ok tt;
  start_node = λ h. ok tt;
  network_service = λ h network. ok tt;
  id_provider = λ h. ok tt;
  identity_by_id = λ h label. answer_of (known label);
  identity = λ name. name;
  is_none = λ i. false;
  bind = λ h e p. err (Error.message "no store");
  listen = λ h address. ok tt;
  range = λ pairs. pairs;
}

known-Finds :
    (h : List Step) (label : String) → Bindings.Finds (answer_of (known label)) (known label)
known-Finds h label = found (known label)
  where
    found : (o : Option String) → Bindings.Finds (answer_of o) o
    found none = tt
    found (some e) = refl

bind_endorsing_identities-bindings_example :
    ((bind_endorsing_identities node_1 "default" endorsers []).0 ≡ ok tt)
    × Perm
        (bind_endorsing_identities node_1 "default" endorsers []).1
        (bindings node_1 known endorsers [])
bind_endorsing_identities-bindings_example =
    bind_endorsing_identities-bindings node_1 known known-Finds (λ h e p. tt) "default" endorsers []
      refl refl (Perm.refl endorsers)

main-Ends_example :
    (Ends node_1 (owner_main node_1 "conf" "9000" [])
      × Registers owner_views (owner_main node_1 "conf" "9000" []))
    × (Ends node_1 (issuer_main node_1 "conf" "9000" [])
        × Registers issuer_views (issuer_main node_1 "conf" "9000" []))
    × (Ends node_1 (endorser_main node_1 "conf" "9000" [])
        × Registers [] (endorser_main node_1 "conf" "9000" []))
main-Ends_example = main-Ends node_1 "conf" "9000"

-- A container in which every call succeeds.
abbrev container_1 : Container
container_1 = record { answer = λ h w. ok tt }

install-Installs_example :
    Installs container_1 (provided xevm) (registered xevm) [] (install container_1 xevm [])
install-Installs_example = install-Installs container_1 xevm []
