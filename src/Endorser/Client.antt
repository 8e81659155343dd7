-- ===== src/Endorser/Client.antt =====
-- custom-endorser/cmd/client/main.go: the commands that query and invoke.
pub mod Submissions
use fabric_x_samples.Prelude.{
  ℕ, String, Bool, true, false, not, ◌||◌, ltb, leb, Option, none, some, List, [], ◌∷◌, ◌==◌, map,
  if◌then◌else◌,
}
use fabric_x_samples.Go.{
  Error, Outcome, ok, err, panic, Go, pure, throw, crash, ask, peek, guard, wrapping, ◌>>=◌, ◌>>◌,
}
use fabric_x_samples.Endorser.Config.{
  ClientConfig, IdentityConfig, PeerConf, to_peer_conf, to_orderer_conf,
}
use fabric_x_samples.Endorser.Types.{ProposalResponse, Network, fabric, fabric_x, Call, Platform}

-- `Config`; a nil pointer is `none`.
pub record Config : Type 0 where
  pub channel_id : String
  pub namespace : String
  pub protocol : String
  pub identity : Option IdentityConfig
  pub endorsers : List ClientConfig
  pub orderer : Option ClientConfig

-- `txInput`
pub record TxInput : Type 0 where
  pub function : String
  pub args : List String

-- What the command line, the configuration file and the JSON argument hold: `--namespace`, and what
-- opening, reading and unmarshalling returns.
pub record Command : Type 0 where
  pub flag_namespace : String
  pub open_config : Outcome (Unit {0})
  pub read_config : Outcome (Unit {0})
  pub unmarshal_config : Outcome Config
  pub unmarshal_tx : Outcome TxInput

-- `validate`: the first thing that is missing, or nothing.
unfoldable pub validate : Config → Option Error
validate cfg =
    if cfg.channel_id == ""
    then some (Error.message "channel-id is required")
    else if cfg.namespace == ""
    then some (Error.message "namespace is required")
    else elim cfg.identity [
      | none ↦ some (Error.message "identity is required")
      | some identity ↦ elim cfg.endorsers [
        | [] ↦ some (Error.message "at least one endorser is required")
        | endorser ∷ endorsers ↦ none
      ]
    ]

-- `if err := …; err != nil { return fmt.Errorf("…: %w", err) }`
abbrev pub check : String → Option Error → Go Call (Unit {0})
check text none = pure tt
check text (some e) = throw (Error.wrap text e)

-- `loadConfig`
unfoldable pub load_config : Command → Go Call Config
unfolding validate
load_config cmd = do
  wrapping "open config" (peek (λ _. cmd.open_config))
  wrapping "read config" (peek (λ _. cmd.read_config))
  cfg ← wrapping "invalid config" (peek (λ _. cmd.unmarshal_config))
  check "invalid config" (validate cfg)
  pure cfg

abbrev pub with_function : String → List String → List String
with_function function args = if not (function == "") then function ∷ args else args

-- `parseTxArgs`
unfoldable pub parse_tx_args : Command → Go Call (List String)
parse_tx_args cmd = do
  tx ← wrapping "invalid transaction JSON" (peek (λ _. cmd.unmarshal_tx))
  pure (with_function tx.function tx.args)

-- `prepare`
unfoldable pub prepare : Command → Go Call (Config × List String)
unfolding load_config parse_tx_args
prepare cmd = do cfg ← load_config cmd; args ← parse_tx_args cmd; pure (cfg, args)

-- `namespaceOrDefault`
unfoldable pub namespace_or_default : Command → String → String
namespace_or_default cmd namespace =
    if not (cmd.flag_namespace == "") then cmd.flag_namespace else namespace

-- The loop over the endorsers of `buildEndorsementClient`.
unfoldable pub peer_confs : List ClientConfig → Outcome (List PeerConf)
unfolding to_peer_conf
peer_confs [] = ok []
peer_confs (c ∷ cs) = elim (to_peer_conf c) [
  | ok conf ↦ elim (peer_confs cs) [
    | ok confs ↦ ok (conf ∷ confs)
    | err e ↦ err e
    | panic why ↦ panic why
  ]
  | err e ↦ err e
  | panic why ↦ panic why
]

-- `defer c` in front of the rest: the call is made however the rest ends.
abbrev pub deferring {ℓ} : {A : Type ℓ} → Call → Go Call A → Go Call A
deferring c m h = let (r, h') = m h in (r, c ∷ h')

-- `resp.Status < 200 || resp.Status >= 400`
abbrev pub is_failure : ℕ → Bool
is_failure status = ltb status 200 || leb 400 status

-- The identity of a validated configuration is not nil.
abbrev pub need {ℓ} : {A : Type ℓ} → Option A → Go Call A
need none = crash "nil pointer dereference"
need (some a) = pure a

module _ (P : Platform) where
  -- `identity.SignerFromMSP(cfg.Identity.MSPDir, cfg.Identity.MspID)`
  unfoldable pub load_identity : Config → Go Call String
  load_identity cfg = do
    identity ← need cfg.identity
    wrapping "load identity" (peek (λ _. P.signer_from_msp identity.msp_dir identity.msp_id))

  -- `buildEndorsementClient`
  unfoldable pub build_endorsement_client : Config → String → Go Call (Unit {0})
  unfolding peer_confs
  build_endorsement_client cfg namespace = do
    confs ← peek (λ _. peer_confs cfg.endorsers)
    wrapping "create endorsement client"
        (peek (λ _. P.new_endorsement_client cfg.channel_id namespace confs))

  abbrev execute : String → List String → Go Call (List ProposalResponse)
  execute namespace args = wrapping "endorsement failed" (
      ask (Call.execute_transaction namespace "1.0" args)
        (λ h. P.execute_transaction h namespace "1.0" args))

  -- `cmd.Print`
  abbrev print : String → Go Call (Unit {0})
  print text = ask (Call.print text) (λ h. ok tt)

  -- What `query` does with the responses.
  unfoldable pub answer_query : List ProposalResponse → Go Call (Unit {0})
  answer_query [] = pure tt
  answer_query (resp ∷ rest) =
      if is_failure resp.status
      then throw (Error.status "endorser returned error status" resp.message)
      else print resp.payload

  -- What `invoke` does with the responses.
  unfoldable pub submit_responses : List ProposalResponse → Go Call (Unit {0})
  submit_responses [] = throw (Error.message "no responses")
  submit_responses (resp ∷ rest) =
      if is_failure resp.status
      then throw (Error.status "endorser returned error status" resp.message)
      else do wrapping "submit failed" (ask Call.submit (λ h. P.submit h)); print resp.payload

  -- The switch on the protocol, in `invoke`.
  unfoldable pub new_submitter : String → PeerConf → Go Call (Unit {0})
  new_submitter protocol conf =
      if protocol == "fabric"
      then wrapping "create submitter" (peek (λ _. P.new_submitter fabric conf))
      else if protocol == "fabric-x"
      then wrapping "create submitter" (peek (λ _. P.new_submitter fabric_x conf))
      else if protocol == ""
      then wrapping "create submitter" (peek (λ _. P.new_submitter fabric_x conf))
      else throw (Error.status "unknown protocol" protocol)

  -- `RunE` of `newQueryCmd`
  unfoldable pub query : Command → Go Call (Unit {0})
  unfolding load_identity build_endorsement_client answer_query prepare namespace_or_default
  query cmd = do
    (cfg, args) ← prepare cmd
    let namespace = namespace_or_default cmd cfg.namespace
    signer ← load_identity cfg
    build_endorsement_client cfg namespace
    deferring Call.close_client (do responses ← execute namespace args; answer_query responses)

  -- `RunE` of `newInvokeCmd`
  unfoldable pub invoke : Command → Go Call (Unit {0})
  unfolding load_identity build_endorsement_client submit_responses new_submitter prepare
      namespace_or_default
  invoke cmd = do
    (cfg, args) ← prepare cmd
    orderer ← elim cfg.orderer [
      | none ↦ throw (Error.message "orderer is required for invoke")
      | some orderer ↦ pure orderer
    ]
    let namespace = namespace_or_default cmd cfg.namespace
    signer ← load_identity cfg
    build_endorsement_client cfg namespace
    deferring Call.close_client (do
      conf ← peek (λ _. to_orderer_conf orderer)
      new_submitter cfg.protocol conf
      deferring Call.close_submitter
          (do responses ← execute namespace args; submit_responses responses))
