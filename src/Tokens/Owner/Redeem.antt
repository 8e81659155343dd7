-- ===== src/Tokens/Owner/Redeem.antt =====
-- tokens/owner/service/fsc.go: burning tokens of a wallet, with the issuer's approval.
use fabric_x_samples.Prelude.{ℕ, String, List, false, [], ◌∷◌, ◌<>◌}
use fabric_x_samples.Go.{Error, ok, Go, pure, throw, peek, on_error, wrapping, ◌>>=◌, ◌>>◌}
use fabric_x_samples.Tokens.Types.{
  Identity, Transaction, Call, with_fsc_issuer_identity, with_issuer_public_params_public_key,
}
use fabric_x_samples.Tokens.Platform.{Platform, initiate_view}
use fabric_x_samples.Tokens.Calls.{
  new_transaction, set_message, add_redeem, collect_endorsements, order, get_wallet,
  get_management_service,
}
use fabric_x_samples.Tokens.Owner.Types.{Value, as_string}
use fabric_x_samples.Tokens.Owner.Transfer.{funds_error}

pub record RedeemOptions : Type 0 where
  pub wallet : String
  pub token_type : String
  pub quantity : ℕ
  pub message : String

-- `if len(issuers) == 0 { … }`, and then `issuers[0]`
abbrev pub first_issuer : List Identity → Go Call Identity
first_issuer [] = throw (Error.message "no issuer found in public parameters")
first_issuer (issuer ∷ _) = pure issuer

module _ (P : Platform) where
  -- `RedeemView.Call` up to the collection of the endorsements.
  unfoldable pub prepare_redeem : RedeemOptions → Go Call Transaction
  unfolding funds_error
  prepare_redeem v = do
    sender ← get_wallet P ("sender wallet [" <> v.wallet <> "] not found") v.wallet []
    wrapping "failed getting identity provider" (peek P.get_id_provider)
    tx ← wrapping "failed to create transaction" (new_transaction P false [])
    set_message P tx v.message
    wrapping "failed to get token management service" (get_management_service P [])
    listed ← peek (λ h. ok (P.issuers h []))
    issuer ← first_issuer listed
    on_error (λ e. throw (funds_error P "failed preparing redeem" e))
        (add_redeem P tx sender v.token_type v.quantity (
          with_fsc_issuer_identity (P.identity_of "issuer")
          ∷ with_issuer_public_params_public_key issuer
          ∷ []))
    wrapping "failed to sign transaction" (collect_endorsements P tx [])
    pure tx

  -- `RedeemView.Call`
  unfoldable pub redeem_call : RedeemOptions → Go Call Value
  unfolding prepare_redeem
  redeem_call v = do
    tx ← prepare_redeem v
    wrapping "failed asking ordering" (order P tx)
    pure (Value.string tx.id)

  -- `FabricSmartClient.Redeem`
  unfoldable pub redeem : String → ℕ → String → String → Go Call String
  unfolding redeem_call
  redeem token_type quantity sender message = do
    peek P.get_manager
    res ← initiate_view P (
        redeem_call (record {
          wallet = sender;
          token_type = token_type;
          quantity = quantity;
          message = message;
        }))
    as_string "cannot parse redeem response" res
