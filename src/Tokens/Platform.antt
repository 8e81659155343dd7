-- ===== src/Tokens/Platform.antt =====
-- The token SDK, the Fabric Smart Client and the other nodes, as a parameter: each field answers a
-- call by the calls made before it, newest first. Nothing is assumed of the answers.
use fabric_x_samples.Prelude.{ℕ, String, Bool, Option, none, some, List}
use fabric_x_samples.Go.{Error, Outcome, ok, err, panic, Go, peek, ◌>>◌}
use fabric_x_samples.Tokens.Int.{ℤ}
use fabric_x_samples.Tokens.Types.{
  Bytes, Identity, Wallet, Transaction, ServiceOption, TxOption, TransferOption, TxStatus, Script,
  Output, Token, QueryTransactionsParams, NextItem, Call,
}

pub record Platform : Type 0 where
  -- `err.Error()`
  pub text : Error → String
  -- The view manager and its `InitiateView`, before the view runs; and what it makes of a panic.
  pub get_manager : List Call → Outcome (Unit {0})
  pub new_context : List Call → Outcome (Unit {0})
  pub recovered : String → Option Error
  -- Services of the node.
  pub get_id_provider : List Call → Outcome (Unit {0})
  pub identity_of : String → Identity
  pub default_identity : Identity
  pub is_none : Identity → Bool
  pub get_management_service : List Call → List ServiceOption → Outcome (Unit {0})
  pub issuers : List Call → List ServiceOption → List Identity
  pub enrollment_id : List Call → Identity → Outcome String
  -- Wallets.
  pub get_wallet : List Call → String → List ServiceOption → Option Wallet
  pub my_issuer_wallet : List Call → List ServiceOption → Option Wallet
  pub get_issuer_wallet : List Call → String → List ServiceOption → Option Wallet
  pub wallet_identity : List Call → Wallet → Outcome Identity
  pub owner_wallet : List Call → String → List ServiceOption → Outcome Wallet
  pub unspent_tokens : List Call → Wallet → Outcome (List Token)
  pub balance : List Call → Wallet → String → Outcome ℕ
  pub by_pre_image : List Call → Wallet → Bytes → Outcome (List Token)
  pub expired_by_hash : List Call → Wallet → Bytes → Outcome Token
  -- Identities of other nodes.
  pub bind : List Call → Identity → Identity → Outcome (Unit {0})
  pub request_recipient_identity : List Call → Identity → List ServiceOption → Outcome Identity
  pub respond_recipient_identity : List Call → String → Outcome Identity
  pub exchange_recipient_identities :
      List Call → String → Identity → List ServiceOption → Outcome (Identity × Identity)
  pub respond_exchange_recipient_identities : List Call → Outcome (Identity × Identity)
  -- Transactions.
  pub receive_transaction : List Call → Outcome Transaction
  pub new_transaction : List Call → Bool → List TxOption → Outcome Transaction
  pub new_htlc_transaction : List Call → List TxOption → Outcome Transaction
  pub transfer :
      List Call → Transaction → Wallet → String → List ℕ → List Identity → Outcome (Unit {0})
  pub issue : List Call → Transaction → Wallet → Identity → String → ℕ → Outcome (Unit {0})
  pub redeem :
      List Call → Transaction → Wallet → String → ℕ → List TransferOption → Outcome (Unit {0})
  pub lock :
      List Call
      → Transaction
      → Wallet
      → Identity
      → String
      → ℕ
      → Identity
      → ℤ
      → Bytes
      → Outcome Bytes
  pub claim : List Call → Transaction → Wallet → Token → Bytes → Outcome (Unit {0})
  pub reclaim : List Call → Transaction → Wallet → Token → Outcome (Unit {0})
  pub collect_endorsements : List Call → Transaction → List ServiceOption → Outcome (Unit {0})
  pub order : List Call → Transaction → Outcome (Unit {0})
  pub endorse : List Call → Transaction → Outcome (Unit {0})
  pub accept : List Call → Transaction → Outcome (Unit {0})
  pub await_finality : List Call → Transaction → Outcome (Unit {0})
  pub status : List Call → Transaction → Outcome TxStatus
  pub outputs : List Call → Transaction → Outcome (List Output)
  pub by_script : List Output → List Output
  pub by_recipient : Identity → List Output → List Output
  pub script_at : List Output → ℕ → Option Script
  pub script_valid : List Call → Script → Outcome (Unit {0})
  -- The token database of a transaction's TMS.
  pub token_db : List Call → Transaction → Outcome (Unit {0})
  pub is_me : List Call → Transaction → Identity → Outcome Bool
  pub db_tokens : List Call → Transaction → Output → Outcome (List Token)
  -- The history of transactions: the owner service, the single page asked for, the iterator (`none`
  -- is nil) and `errors.Wrap(nil, text)`.
  pub new_owner : List Call → Bool
  pub offset_page : Outcome (Unit {0})
  pub transactions : List Call → QueryTransactionsParams → Outcome (Option (List NextItem))
  pub wrapped_nil : String → Option Error
  pub status_message : TxStatus → String

-- `mgr.InitiateView(ctx, view)`: a context is made, and the view's `Call` runs in it.
abbrev pub rescue {ℓ} : {A : Type ℓ} → Platform → Outcome A → Outcome A
rescue P (ok a) = ok a
rescue P (err e) = err e
rescue P (panic why) = elim (P.recovered why) [ none ↦ panic why | some e ↦ err e ]

abbrev pub initiate_view {ℓ} : {A : Type ℓ} → Platform → Go Call A → Go Call A
initiate_view P view = do peek P.new_context; λ h. let (r, h') = view h in (rescue P r, h')
