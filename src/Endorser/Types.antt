-- ===== src/Endorser/Types.antt =====
-- The values and calls that the endorser exchanges with the Fabric-X SDK. Keys, values and payloads
-- are texts: the code converts byte slices to strings and back and does nothing else with them.
use fabric_x_samples.Prelude.{ℕ, String, Bool, List}
use fabric_x_samples.Go.{Error, Outcome}
use fabric_x_samples.Endorser.Config.{PeerConf}

-- endorsement.Invocation
pub record Invocation : Type 0 where
  pub tx_id : String
  pub channel : String
  pub cc_name : String
  pub cc_version : String
  pub args : List String

-- An access of a simulation store, and blocks.ReadWriteSet as the list of them.
pub data Access : Type 0 where
  read : String → Access
  write : String → String → Access

abbrev pub ReadWriteSet : Type 0
ReadWriteSet = List Access

-- endorsement.Success (without an event) and endorsement.BadRequest
pub data ExecutionResult : Type 0 where
  success : ReadWriteSet → String → ExecutionResult
  bad_request : String → ExecutionResult

-- peer.ProposalResponse
pub record ProposalResponse : Type 0 where
  pub status : ℕ
  pub message : String
  pub payload : String

-- The endorsement builders and synchronizers of the two networks.
pub data Network : Type 0 where
  fabric fabric_x : Network

pub data Call : Type 0 where
  new_store : String → ℕ → Bool → Call
  get_state : String → Call
  put_state : String → String → Call
  endorse : Network → Invocation → ExecutionResult → Call
  new_write_db : String → String → Call
  new_read_db : String → String → Call
  new_synchronizer : Network → String → PeerConf → Call
  serve : Call
  register : String → Call
  start_synchronizer : Network → Call
  await_shutdown : Call
  close_write_db : Call
  close_read_db : Call
  execute_transaction : String → String → List String → Call
  submit : Call
  close_client : Call
  close_submitter : Call
  print : String → Call
  notify_signals : Call
  stop_signals : Call
  print_error : Error → Call
  exit : ℕ → Call

-- The SDK, by the calls made before, newest first. Nothing is assumed of the answers.
pub record Platform : Type 0 where
  pub new_store : List Call → String → ℕ → Bool → Outcome (Unit {0})
  pub get_state : List Call → String → Outcome String
  pub put_state : List Call → String → String → Outcome (Unit {0})
  pub result : List Call → ReadWriteSet
  pub endorse : List Call → Network → Invocation → ExecutionResult → Outcome ProposalResponse
  pub new_write_db : List Call → String → String → Outcome (Unit {0})
  pub new_read_db : List Call → String → String → Outcome (Unit {0})
  pub new_synchronizer : List Call → Network → String → PeerConf → Outcome (Unit {0})
  pub signer_from_msp : String → String → Outcome String
  pub serve : List Call → Outcome (Unit {0})
  pub block_number : List Call → Outcome ℕ
  pub new_endorsement_client : String → String → List PeerConf → Outcome (Unit {0})
  pub new_submitter : Network → PeerConf → Outcome (Unit {0})
  pub execute_transaction :
      List Call → String → String → List String → Outcome (List ProposalResponse)
  pub submit : List Call → Outcome (Unit {0})
