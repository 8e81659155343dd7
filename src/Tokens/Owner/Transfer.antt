-- ===== src/Tokens/Owner/Transfer.antt =====
-- tokens/owner/service/fsc.go: a transfer to a wallet of the same node or of another one.
use fabric_x_samples.Prelude.{
  ℕ, String, false, none, some, [], ◌∷◌, ◌<>◌, ◌==◌, contains, if◌then◌else◌,
}
use fabric_x_samples.Go.{Error, ok, Go, pure, throw, peek, on_error, wrapping, ◌>>=◌, ◌>>◌}
use fabric_x_samples.Tokens.Types.{Identity, Wallet, Transaction, Call}
use fabric_x_samples.Tokens.Platform.{Platform, initiate_view}
use fabric_x_samples.Tokens.Calls.{
  bind, request_recipient_identity, new_transaction, set_message, add_transfer,
  collect_endorsements, order, get_wallet,
}
use fabric_x_samples.Tokens.Owner.Types.{
  Value, as_string, err_counterparty_account_not_found, err_insufficient_funds,
  err_connection_error,
}

pub record TransferOptions : Type 0 where
  pub wallet : String
  pub token_type : String
  pub quantity : ℕ
  pub recipient_node : String
  pub recipient : String
  pub message : String

module _ (P : Platform) where
  -- What `getRemoteIdentity` makes of a failed request, by the text of the error.
  unfoldable pub remote_error : String → Error → Error
  remote_error node e =
      if contains (P.text e) "] not found"
      then err_counterparty_account_not_found
      else if contains (P.text e) "failed to dial"
      then err_connection_error
      else Error.wrap ("failed getting recipient identity from " <> node) e

  -- `recipient.IsNone()`
  unfoldable pub get_remote_identity : String → String → Go Call Identity
  unfolding remote_error
  get_remote_identity recipient_id recipient_node = do
    bind P recipient_node recipient_id
    recipient ←
        on_error (λ e. throw (remote_error recipient_node e))
          (request_recipient_identity P recipient_id [])
    if P.is_none recipient then throw err_counterparty_account_not_found else pure recipient

  -- The recipient's wallet on this node.
  unfoldable pub get_local_identity : String → Go Call Identity
  get_local_identity recipient = do
    w ← peek (λ h. ok (P.get_wallet h recipient []))
    elim w [
      | none ↦ throw err_counterparty_account_not_found
      | some wallet ↦
          on_error (λ _. throw err_counterparty_account_not_found)
            (peek (λ h. P.wallet_identity h wallet))
    ]

  -- The test on the text of the error that `tx.Transfer` and `tx.Redeem` return.
  unfoldable pub funds_error : String → Error → Error
  funds_error text e =
      if contains (P.text e) "insufficient funds" then err_insufficient_funds else Error.wrap text e

  -- The sender's wallet and the identity of the recipient, in `TransferView.Call`.
  unfoldable pub parties : TransferOptions → Go Call (Wallet × Identity)
  unfolding get_remote_identity get_local_identity
  parties v = do
    sender ← get_wallet P ("sender wallet [" <> v.wallet <> "] not found") v.wallet []
    recipient ←
        if v.recipient_node == ""
        then get_local_identity v.recipient
        else get_remote_identity v.recipient v.recipient_node
    pure (sender, recipient)

  -- `TransferView.Call` from there up to the collection of the endorsements.
  unfoldable pub build_transfer : TransferOptions → Wallet × Identity → Go Call Transaction
  unfolding funds_error
  build_transfer v (sender, recipient) = do
    tx ← wrapping "failed to create transaction" (new_transaction P false [])
    set_message P tx v.message
    on_error (λ e. throw (funds_error "failed preparing transfer" e))
        (add_transfer P tx sender v.token_type (v.quantity ∷ []) (recipient ∷ []))
    wrapping "failed to sign transaction" (collect_endorsements P tx [])
    pure tx

  -- `TransferView.Call`
  unfoldable pub transfer_call : TransferOptions → Go Call Value
  unfolding parties build_transfer
  transfer_call v = do
    both ← parties v
    tx ← build_transfer v both
    wrapping "failed asking ordering" (order P tx)
    pure (Value.string tx.id)

  -- `FabricSmartClient.Transfer`
  unfoldable pub transfer : String → ℕ → String → String → String → String → Go Call String
  unfolding transfer_call
  transfer token_type quantity sender recipient recipient_node message = do
    peek P.get_manager
    res ← initiate_view P (
        transfer_call (record {
          wallet = sender;
          token_type = token_type;
          quantity = quantity;
          recipient_node = recipient_node;
          recipient = recipient;
          message = message;
        }))
    as_string "cannot parse issue response" res
