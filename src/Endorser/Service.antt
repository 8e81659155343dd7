-- ===== src/Endorser/Service.antt =====
-- custom-endorser/service/service.go: the endorser service.
pub mod Proposals
pub mod Waiting
pub mod Running
use fabric_x_samples.Prelude.{
  ℕ, String, Bool, true, false, not, Option, none, some, List, [], ◌∷◌, ◌<>◌, ◌==◌, lookup,
  if◌then◌else◌,
}
use fabric_x_samples.Go.{
  Error, Outcome, ok, err, panic, Go, pure, throw, crash, ask, peek, guard, on_error, wrapping,
  ◌>>=◌, ◌>>◌,
}
use fabric_x_samples.Endorser.Config.{PeerConf}
use fabric_x_samples.Endorser.Types.{
  Invocation, ExecutionResult, ProposalResponse, Network, fabric, fabric_x, Call, Platform,
}
use fabric_x_samples.Endorser.Executor.{Executor, StoreFactory}

-- `Service`; a nil builder and a nil synchronizer are `none`.
pub record Service : Type 0 where
  pub channel : String
  pub synchronizer : Option Network
  pub executors : List (String × Executor)
  pub builder : Option Network
  pub monotonic_versions : Bool

-- `ServiceConfig`
pub record ServiceConfig : Type 0 where
  pub channel_id : String
  pub protocol : String
  pub committer : PeerConf
  pub db_conn_str : String

-- The invocation with its version filled in.
abbrev pub with_version : Invocation → Invocation
with_version inv = if inv.cc_version == "" then record inv { cc_version = "1.0" } else inv

module _ (P : Platform) where
  -- The switch on the protocol: the network, if it is one of the three names.
  unfoldable pub network_of : String → Option Network
  network_of protocol =
      if protocol == "fabric"
      then some fabric
      else if protocol == "fabric-x"
      then some fabric_x
      else if protocol == ""
      then some fabric_x
      else none

  abbrev is_fabric_x : Option Network → Bool
  is_fabric_x none = false
  is_fabric_x (some fabric) = false
  is_fabric_x (some fabric_x) = true

  abbrev synchronize : ServiceConfig → Option Network → Go Call (Unit {0})
  synchronize cfg none = pure tt
  synchronize cfg (some n) = wrapping "create synchronizer" (
      ask (Call.new_synchronizer n cfg.channel_id cfg.committer)
        (λ h. P.new_synchronizer h n cfg.channel_id cfg.committer))

  -- `NewWithSigner`
  unfoldable pub new_with_signer :
      ServiceConfig → String → List (String × Executor) → Go Call Service
  unfolding network_of
  new_with_signer cfg signer executors = do
    wrapping "db" (
        ask (Call.new_write_db cfg.channel_id cfg.db_conn_str)
          (λ h. P.new_write_db h cfg.channel_id cfg.db_conn_str))
    wrapping "db" (
        ask (Call.new_read_db cfg.channel_id cfg.db_conn_str)
          (λ h. P.new_read_db h cfg.channel_id cfg.db_conn_str))
    let network = network_of cfg.protocol
    synchronize cfg network
    pure (record {
      channel = cfg.channel_id;
      synchronizer = network;
      executors = executors;
      builder = network;
      monotonic_versions = is_fabric_x network;
    })

  -- `New`
  unfoldable pub new : ServiceConfig → String → String → List (String × Executor) → Go Call Service
  unfolding new_with_signer
  new cfg msp_dir msp_id executors = do
    signer ← wrapping "failed to load signer" (peek (λ _. P.signer_from_msp msp_dir msp_id))
    new_with_signer cfg signer executors

  abbrev pub invalid_argument : {A : Type 0} → String → Go Call A
  invalid_argument text = throw (Error.status "InvalidArgument" text)

  -- `s.builder.Endorse(inv, res)`; a nil builder is dereferenced.
  abbrev pub build : Option Network → Invocation → ExecutionResult → Go Call ProposalResponse
  build none inv res = crash "nil pointer dereference"
  build (some n) inv res = ask (Call.endorse n inv res) (λ h. P.endorse h n inv res)

  -- The log line at the end reads the first argument.
  abbrev pub log_first : List String → Go Call (Unit {0})
  log_first [] = crash "index out of range [0] with length 0"
  log_first (function ∷ args) = pure tt

  -- `executor, ok := s.executors[inv.CCID.Name]; if !ok { … }`
  abbrev pub the_executor : String → Option Executor → Go Call Executor
  the_executor name none = invalid_argument ("unknown namespace: " <> name)
  the_executor name (some executor) = pure executor

  -- The factory of simulation stores that closes over the namespace.
  abbrev pub store_factory : Service → String → StoreFactory
  store_factory s ns block =
      ask (Call.new_store ns block s.monotonic_versions)
        (λ h. P.new_store h ns block s.monotonic_versions)

  -- The end of `ProcessProposal`: the response for a result, and the log line.
  unfoldable pub respond : Service → Invocation → ExecutionResult → Go Call ProposalResponse
  respond s inv res = do
    end ←
        on_error (λ e. throw (Error.wrap "Internal" (Error.wrap "endorsement" e)))
          (build s.builder inv res)
    log_first inv.args
    pure end

  -- The middle of `ProcessProposal`: the executor is run on the invocation with its version.
  unfoldable pub run_executor : Service → Executor → Invocation → Go Call ProposalResponse
  run_executor s executor inv = do
    res ←
        on_error (λ e. throw (Error.wrap "Internal" e)) (executor (store_factory s inv.cc_name) inv)
    respond s inv res

  -- `ProcessProposal`, on what `endorsement.Parse` made of the proposal.
  unfoldable pub process_proposal : Service → Outcome Invocation → Go Call ProposalResponse
  unfolding run_executor respond
  process_proposal s parsed = do
    inv ← on_error (λ e. throw (Error.wrap "InvalidArgument" e)) (peek (λ _. parsed))
    guard (inv.channel == s.channel) (invalid_argument ("channel must be " <> s.channel))
    executor ← the_executor inv.cc_name (lookup inv.cc_name s.executors)
    run_executor s executor (with_version inv)

-- `WaitForReady`, over what happens round by round: whether the synchronizer reports that it is
-- ready, and whether the context is done before the next 100 ms are over. `none`: still waiting.
unfoldable pub wait_for_ready : List (Bool × Bool) → Option Bool
wait_for_ready [] = none
wait_for_ready ((ready, done) ∷ rounds) =
    let rest = wait_for_ready rounds in
    if ready then some true else if done then some false else rest
