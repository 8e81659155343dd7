-- ===== src/Tokens/Calls.antt =====
-- The calls of the token SDK and the Fabric Smart Client, as the code under tokens/ makes them.
use fabric_x_samples.Prelude.{ℕ, String, Bool, Option, List, ◌==◌, if◌then◌else◌}
use fabric_x_samples.Go.{Error, ok, Go, pure, throw, ask, peek, non_nil}
use fabric_x_samples.Tokens.Int.{ℤ}
use fabric_x_samples.Tokens.Types.{
  Bytes, Identity, Wallet, Transaction, ServiceOption, TxOption, TransferOption, TxStatus, Output,
  Token, Call,
}
use fabric_x_samples.Tokens.Platform.{Platform}

-- `if x == nil { return errors.Errorf(text) }`, on a call that answers nil for what is missing
abbrev pub required {ℓ} : {A : Type ℓ} → String → (List Call → Option A) → Go Call A
required text answer h = non_nil (answer h) (throw (Error.message text)) h

-- `it.Items.Close()`
abbrev pub close_items : Go Call (Unit {0})
close_items = ask Call.close_items (λ _. ok tt)

module _ (P : Platform) where
  abbrev pub bind : Identity → Identity → Go Call (Unit {0})
  bind node name = ask (Call.bind node name) (λ h. P.bind h node name)

  abbrev pub request_recipient_identity : Identity → List ServiceOption → Go Call Identity
  request_recipient_identity name opts =
      ask (Call.request_recipient_identity name opts)
        (λ h. P.request_recipient_identity h name opts)

  abbrev pub respond_recipient_identity : String → Go Call Identity
  respond_recipient_identity w =
      ask (Call.respond_recipient_identity w) (λ h. P.respond_recipient_identity h w)

  abbrev pub exchange_recipient_identities :
      String → Identity → List ServiceOption → Go Call (Identity × Identity)
  exchange_recipient_identities w name opts =
      ask (Call.exchange_recipient_identities w name opts)
        (λ h. P.exchange_recipient_identities h w name opts)

  abbrev pub respond_exchange_recipient_identities : Go Call (Identity × Identity)
  respond_exchange_recipient_identities =
      ask Call.respond_exchange_recipient_identities P.respond_exchange_recipient_identities

  abbrev pub receive_transaction : Go Call Transaction
  receive_transaction = ask Call.receive_transaction P.receive_transaction

  abbrev pub new_transaction : Bool → List TxOption → Go Call Transaction
  new_transaction anonymous opts =
      ask (Call.new_transaction anonymous opts) (λ h. P.new_transaction h anonymous opts)

  abbrev pub new_htlc_transaction : List TxOption → Go Call Transaction
  new_htlc_transaction opts =
      ask (Call.new_htlc_transaction opts) (λ h. P.new_htlc_transaction h opts)

  abbrev pub set_metadata : Transaction → String → String → Go Call (Unit {0})
  set_metadata tx key value = ask (Call.set_metadata tx key value) (λ _. ok tt)

  abbrev pub add_transfer :
      Transaction → Wallet → String → List ℕ → List Identity → Go Call (Unit {0})
  add_transfer tx w type values owners =
      ask (Call.transfer tx w type values owners) (λ h. P.transfer h tx w type values owners)

  abbrev pub add_issue : Transaction → Wallet → Identity → String → ℕ → Go Call (Unit {0})
  add_issue tx w recipient type q =
      ask (Call.issue tx w recipient type q) (λ h. P.issue h tx w recipient type q)

  abbrev pub add_redeem :
      Transaction → Wallet → String → ℕ → List TransferOption → Go Call (Unit {0})
  add_redeem tx w type q opts =
      ask (Call.redeem tx w type q opts) (λ h. P.redeem h tx w type q opts)

  abbrev pub add_lock :
      Transaction → Wallet → Identity → String → ℕ → Identity → ℤ → Bytes → Go Call Bytes
  add_lock tx w me type q recipient deadline hash =
      ask (Call.lock tx w me type q recipient deadline hash)
        (λ h. P.lock h tx w me type q recipient deadline hash)

  abbrev pub add_claim : Transaction → Wallet → Token → Bytes → Go Call (Unit {0})
  add_claim tx w token pre_image =
      ask (Call.claim tx w token pre_image) (λ h. P.claim h tx w token pre_image)

  abbrev pub add_reclaim : Transaction → Wallet → Token → Go Call (Unit {0})
  add_reclaim tx w token = ask (Call.reclaim tx w token) (λ h. P.reclaim h tx w token)

  -- `RunView` of the library's views.
  abbrev pub collect_endorsements : Transaction → List ServiceOption → Go Call (Unit {0})
  collect_endorsements tx opts =
      ask (Call.collect_endorsements tx opts) (λ h. P.collect_endorsements h tx opts)

  abbrev pub order : Transaction → Go Call (Unit {0})
  order tx = ask (Call.order tx) (λ h. P.order h tx)

  abbrev pub endorse : Transaction → Go Call (Unit {0})
  endorse tx = ask (Call.endorse tx) (λ h. P.endorse h tx)

  abbrev pub accept : Transaction → Go Call (Unit {0})
  accept tx = ask (Call.accept tx) (λ h. P.accept h tx)

  abbrev pub await_finality : Transaction → Go Call (Unit {0})
  await_finality tx = ask (Call.await_finality tx) (λ h. P.await_finality h tx)

  -- Reads.
  abbrev pub get_status : Transaction → Go Call TxStatus
  get_status tx = peek (λ h. P.status h tx)

  abbrev pub get_outputs : Transaction → Go Call (List Output)
  get_outputs tx = peek (λ h. P.outputs h tx)

  abbrev pub get_wallet : String → String → List ServiceOption → Go Call Wallet
  get_wallet text name opts = required text (λ h. P.get_wallet h name opts)

  abbrev pub get_management_service : List ServiceOption → Go Call (Unit {0})
  get_management_service opts = peek (λ h. P.get_management_service h opts)

  -- `if text != "" { tx.SetApplicationMetadata("message", text) }`
  abbrev pub set_message : Transaction → String → Go Call (Unit {0})
  set_message tx text = if text == "" then pure tt else set_metadata tx "message" text
