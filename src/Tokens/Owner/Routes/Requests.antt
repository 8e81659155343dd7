-- ===== src/Tokens/Owner/Routes/Requests.antt =====
-- tokens/owner/routes/routes.gen.go: the bodies and parameters of the requests, and the payloads of
-- the replies.
use fabric_x_samples.Prelude.{ℕ, String, Option, none, some, List}
use fabric_x_samples.Tokens.Int.{ℤ}
use fabric_x_samples.Tokens.Types.{Bytes, TmsId}
use fabric_x_samples.Tokens.Owner.Balances.{Amount}

pub record Account : Type 0 where
  pub id : String
  pub balance : List Amount

-- `OwnerAccountParams`
pub record AccountParams : Type 0 where
  pub code : Option String
  pub network : Option String
  pub channel : Option String
  pub namespace : Option String

pub record Counterparty : Type 0 where
  pub account : String
  pub node : String

pub record RedeemRequest : Type 0 where
  pub amount : Amount
  pub message : Option String

pub record TransferRequest : Type 0 where
  pub amount : Amount
  pub counterparty : Counterparty
  pub message : Option String

pub record LockRequest : Type 0 where
  pub amount : Amount
  pub counterparty : Counterparty
  pub deadline : ℤ
  pub hash : Option Bytes
  pub tms_id : Option TmsId

pub record LockPayload : Type 0 where
  pub hash : Bytes
  pub preimage : Option Bytes
  pub tx_id : String

pub record ClaimRequest : Type 0 where
  pub preimage : Bytes
  pub tms_id : Option TmsId

pub record ReclaimRequest : Type 0 where
  pub hash : Bytes
  pub tms_id : Option TmsId

-- `TransactionRecord` of the API
pub record Record : Type 0 where
  pub amount : Amount
  pub id : String
  pub recipient : String
  pub sender : String
  pub status : String
  pub timestamp : ℕ
  pub message : String

-- `""` for a nil pointer
abbrev pub or_empty : Option String → String
or_empty none = ""
or_empty (some s) = s
