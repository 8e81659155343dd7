-- ===== src/Tokens/Node.antt =====
-- tokens/common/fsc.go and the main functions of tokens/owner, tokens/issuer and tokens/endorser: how a
-- node of the Fabric Smart Client is started, prepared, and served until it is stopped.
pub mod Bindings
pub mod Lifecycle
pub mod Mains
pub mod Registrations
pub mod Sdk
use fabric_x_samples.Prelude.{
  String, Bool, Option, none, some, List, [], ◌∷◌, ◌<>◌, ◌==◌, if◌then◌else◌,
}
use fabric_x_samples.Go.{Outcome, ok, Go, pure, ask, peek, on_error, wrapping, ◌>>=◌, ◌>>◌}
use fabric_x_samples.Tokens.Types.{Identity}

-- The calls that change the node, its stores or its registry of views. A view is named by its package
-- and its type.
pub data Step : Type 0 where
  make_dir : String → Step
  new_node : String → Step
  install_sdk start_node : Step
  bind : Identity → Identity → Step
  register_responder : String → String → Step
  register_factory : String → String → Step
  listen : String → Step
  shutdown stop_node : Step

-- The node and what is around it, as a parameter. `listen` returns at a signal, or with the error of the
-- HTTP server. `range` is the order in which a loop goes over a map.
pub record Node : Type 0 where
  pub join_path : String → String → String
  pub make_dir : List Step → String → Outcome (Unit {0})
  pub install_sdk : List Step → Outcome (Unit {0})
  pub start_node : List Step → Outcome (Unit {0})
  pub network_service : List Step → String → Outcome (Unit {0})
  pub id_provider : List Step → Outcome (Unit {0})
  pub identity_by_id : List Step → String → Outcome Identity
  pub identity : String → Identity
  pub is_none : Identity → Bool
  pub bind : List Step → Identity → Identity → Outcome (Unit {0})
  pub listen : List Step → String → Outcome (Unit {0})
  pub range : List (String × String) → List (String × String)

-- `if err != nil { log.Printf(…) }`
abbrev pub logged : Go Step (Unit {0}) → Go Step (Unit {0})
logged = on_error (λ _. pure tt)

-- A call whose error nobody reads.
abbrev pub effect : Step → Go Step (Unit {0})
effect s = ask s (λ _. ok tt)

-- The endorsers that the main functions of owner and issuer bind.
abbrev pub endorsers : List (String × String)
endorsers = ("endorser1-endorsing", "endorser1") ∷ ("endorser2-endorsing", "endorser2") ∷ []

module _ (N : Node) where
  -- `StartFSC`
  unfoldable pub start_fsc : String → String → Go Step (Unit {0})
  start_fsc conf_path datadir = do
    if datadir == ""
        then pure tt
        else wrapping ("error creating data directory " <> datadir)
            (ask (Step.make_dir datadir) (λ h. N.make_dir h datadir))
    effect (Step.new_node conf_path)
    wrapping "error installing fsc" (ask Step.install_sdk N.install_sdk)
    wrapping "error starting fsc" (ask Step.start_node N.start_node)

  -- The end of a round of the loop, with the two identities.
  abbrev pub bind_found : Identity → Identity → Go Step (Unit {0})
  bind_found endorsing p2p =
      if N.is_none p2p
      then pure tt
      else logged (ask (Step.bind endorsing p2p) (λ h. N.bind h endorsing p2p))

  -- A round of the loop: a label that names no identity is skipped.
  unfoldable pub bind_pair : String × String → Go Step (Unit {0})
  bind_pair (msp_label, p2p_name) = logged (do
    endorsing ← peek (λ h. N.identity_by_id h msp_label)
    bind_found endorsing (N.identity p2p_name))

  unfoldable pub bind_pairs : List (String × String) → Go Step (Unit {0})
  unfolding bind_pair
  bind_pairs [] = pure tt
  bind_pairs (pair ∷ pairs) = do bind_pair pair; bind_pairs pairs

  -- `BindEndorsingIdentities`; the loop returns no error, and the two in front of it end the function.
  unfoldable pub bind_endorsing_identities : String → List (String × String) → Go Step (Unit {0})
  unfolding bind_pairs
  bind_endorsing_identities network [] = pure tt
  bind_endorsing_identities network (pair ∷ pairs) = logged (do
    peek (λ h. N.network_service h network)
    peek N.id_provider
    bind_pairs (N.range (pair ∷ pairs)))

  -- The end of every main function, from `ListenAndServe`; a signal and the server's error end alike.
  unfoldable pub serve_until_stopped : String → Go Step (Unit {0})
  serve_until_stopped port = do
    let address = "0.0.0.0:" <> port
    logged (ask (Step.listen address) (λ h. N.listen h address))
    effect Step.shutdown
    effect Step.stop_node

  -- The views of an owner.
  unfoldable pub register_owner : Go Step (Unit {0})
  register_owner = do
    effect (
        Step.register_responder "views.AcceptCashView"
          "github.com/hyperledger/fabric-samples/token-sdk/issuer/service/IssueCashView")
    effect (Step.register_responder "views.AcceptCashView" "service.TransferView")
    effect (Step.register_factory "redeem" "views.RedeemViewFactory")
    effect (Step.register_responder "service.LockAcceptView" "service.LockView")
    effect (Step.register_factory "lock" "service.LockViewFactory")
    effect (Step.register_factory "claim" "service.ClaimViewFactory")
    effect (Step.register_factory "reclaim" "service.ReclaimViewFactory")

  -- The views of an issuer.
  unfoldable pub register_issuer : Go Step (Unit {0})
  register_issuer = do
    effect (Step.register_factory "issue" "views.IssueCashViewFactory")
    effect (
        Step.register_responder "views.IssuerRedeemAcceptView"
          "github.com/hyperledger/fabric-samples/token-sdk/owner/service/RedeemView")

  -- The three main functions, by the flags `conf` and `port`. `log.Fatal` ends the program with the
  -- error.
  unfoldable pub owner_main : String → String → Go Step (Unit {0})
  unfolding start_fsc bind_endorsing_identities register_owner serve_until_stopped
  owner_main conf port = do
    start_fsc conf (N.join_path conf "data")
    bind_endorsing_identities "default" endorsers
    register_owner
    serve_until_stopped port

  unfoldable pub issuer_main : String → String → Go Step (Unit {0})
  unfolding start_fsc bind_endorsing_identities register_issuer serve_until_stopped
  issuer_main conf port = do
    start_fsc conf (N.join_path conf "data")
    bind_endorsing_identities "default" endorsers
    register_issuer
    serve_until_stopped port

  unfoldable pub endorser_main : String → String → Go Step (Unit {0})
  unfolding start_fsc serve_until_stopped
  endorser_main conf port = do start_fsc conf (N.join_path conf "data"); serve_until_stopped port
