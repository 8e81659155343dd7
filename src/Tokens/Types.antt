-- ===== src/Tokens/Types.antt =====
-- The values that tokens/ exchanges with the token SDK (Panurus) and the Fabric Smart Client, and
-- the calls of them that change something. Objects that the code only hands on (wallets, tokens)
-- are names; a transaction is known by its ID. Identities are texts, since the code converts them
-- from strings and compares them; hashes and pre-images are lists of bytes.
use fabric_x_samples.Prelude.{ℕ, String, Bool, List}
use fabric_x_samples.Go.{Error}
use fabric_x_samples.Tokens.Int.{ℤ}

abbrev pub Bytes : Type 0
Bytes = List ℕ

abbrev pub Identity : Type 0
Identity = String

abbrev pub Wallet : Type 0
Wallet = String

pub record Transaction : Type 0 where
  pub id : String

-- token.TMSID
pub record TmsId : Type 0 where
  pub network : String
  pub channel : String
  pub namespace : String

pub data ServiceOption : Type 0 where
  with_tmsid : TmsId → ServiceOption
  with_recipient_wallet_id : String → ServiceOption
  with_skip_auditor_signature_verification : ServiceOption

pub data TxOption : Type 0 where
  with_tmsid : TmsId → TxOption
  with_auditor : Identity → TxOption

pub data TransferOption : Type 0 where
  with_token_ids : List String → TransferOption
  with_fsc_issuer_identity : Identity → TransferOption
  with_issuer_public_params_public_key : Identity → TransferOption

-- The statuses that the code compares with, and any other.
pub data TxStatus : Type 0 where
  pending confirmed other_status : TxStatus

-- An HTLC script, and an output of a transaction.
pub record Script : Type 0 where
  pub sender : Identity
  pub recipient : Identity
  pub hash : Bytes

pub record Output : Type 0 where
  pub owner : Identity
  pub token_type : String
  pub quantity_hex : String

-- A token as a database or a wallet lists it.
pub record Token : Type 0 where
  pub id : String
  pub token_type : String
  pub quantity : String

-- ttxdb.QueryTransactionsParams, and what the history of transactions holds.
pub record QueryTransactionsParams : Type 0 where
  pub sender_wallet : String
  pub recipient_wallet : String
  pub statuses : List TxStatus
  pub exclude_to_self : Bool

pub record TransactionRecord : Type 0 where
  pub tx_id : String
  pub token_type : String
  pub amount : ℕ
  pub sender_eid : String
  pub recipient_eid : String
  pub status : TxStatus
  pub timestamp : ℕ
  pub application_metadata : List (String × String)

-- What a call of an iterator's `Next` returns before the end.
pub data NextItem : Type 0 where
  item : TransactionRecord → NextItem
  failed : Error → NextItem

-- The calls that change the state of a node, of another node or of the ledger.
pub data Call : Type 0 where
  bind : Identity → Identity → Call
  request_recipient_identity : Identity → List ServiceOption → Call
  respond_recipient_identity : String → Call
  exchange_recipient_identities : String → Identity → List ServiceOption → Call
  respond_exchange_recipient_identities : Call
  receive_transaction : Call
  new_transaction : Bool → List TxOption → Call
  new_htlc_transaction : List TxOption → Call
  set_metadata : Transaction → String → String → Call
  transfer : Transaction → Wallet → String → List ℕ → List Identity → Call
  issue : Transaction → Wallet → Identity → String → ℕ → Call
  redeem : Transaction → Wallet → String → ℕ → List TransferOption → Call
  lock : Transaction → Wallet → Identity → String → ℕ → Identity → ℤ → Bytes → Call
  claim : Transaction → Wallet → Token → Bytes → Call
  reclaim : Transaction → Wallet → Token → Call
  collect_endorsements : Transaction → List ServiceOption → Call
  order : Transaction → Call
  endorse : Transaction → Call
  accept : Transaction → Call
  await_finality : Transaction → Call
  deploy_tms : TmsId → String → Call
  close_items : Call
