-- ===== src/Tokens/Common/Views.antt =====
-- tokens/common/views: accept.go, issue.go and redeem.go. A failed assertion panics; `nothing` is
-- the nil that a view returns.
use fabric_x_samples.Prelude.{
  ℕ, String, Bool, true, false, Option, List, [], ◌∷◌, ◌++◌, ◌<>◌, ◌==◌, ltb, length, has_prefix,
  if◌then◌else◌,
}
use fabric_x_samples.Go.{
  ok, Go, pure, wrapping, crash, peek, must, assert_true, non_nil, ◌>>=◌, ◌>>◌,
}
use fabric_x_samples.Tokens.Types.{
  Identity, Transaction, TmsId, TxStatus, pending, confirmed, other_status, ServiceOption, TxOption,
  Output, TransferOption, Call,
}
use fabric_x_samples.Tokens.Platform.{Platform}
use fabric_x_samples.Tokens.Calls.{
  request_recipient_identity, respond_recipient_identity, receive_transaction, new_transaction,
  set_metadata, add_issue, add_redeem, collect_endorsements, order, accept, await_finality,
  get_status, endorse, get_outputs, get_management_service,
}
use fabric_x_samples.Tokens.Common.Options.{service_opts, tx_opts}
use fabric_x_samples.Tokens.Common.Assert.{assert_tokens}

abbrev is_pending : TxStatus → Bool
is_pending pending = true
is_pending confirmed = false
is_pending other_status = false

abbrev is_confirmed : TxStatus → Bool
is_confirmed confirmed = true
is_confirmed pending = false
is_confirmed other_status = false

-- `IssueCash`
pub record IssueCash : Type 0 where
  pub tms_id : Option TmsId
  pub anonymous : Bool
  pub auditor : String
  pub issuer_wallet : String
  pub token_type : String
  pub quantity : ℕ
  pub recipient : Identity
  pub recipient_wallet_id : String
  pub recipient_eid : String
  pub skip_auditor_signature_verification : Bool

-- `Redeem`
pub record Redeem : Type 0 where
  pub auditor : String
  pub issuer : String
  pub issuer_public_params_public_key : Identity
  pub wallet : String
  pub token_ids : List String
  pub token_type : String
  pub amount : ℕ
  pub tms_id : Option TmsId

module _ (P : Platform) where
  -- `vc, _, err := owner.GetStatus(…)` with its two assertions, at each of the two statuses.
  unfoldable pub assert_pending : Transaction → Go Call (Unit {0})
  assert_pending tx = do
    vc ← must "failed to retrieve status" (get_status P tx)
    assert_true (is_pending vc) "transaction should be in busy state"

  unfoldable pub assert_confirmed : Transaction → Go Call (Unit {0})
  assert_confirmed tx = do
    vc ← must "failed to retrieve status" (get_status P tx)
    assert_true (is_confirmed vc) "transaction should be in valid state"

  -- `AcceptCashView.Call` up to the confirmed transaction, with its outputs and the identity given out.
  unfoldable pub accept_tokens : Go Call (Transaction × List Output × Identity)
  unfolding assert_pending assert_confirmed
  accept_tokens = do
    id ← must "failed to respond to identity request" (respond_recipient_identity P "")
    tx ← must "failed to receive tokens" (receive_transaction P)
    outputs ← must "failed getting outputs" (get_outputs P tx)
    assert_true (ltb 0 (length outputs)) ""
    assert_true (ltb 0 (length (P.by_recipient id outputs))) ""
    must "failed to accept new tokens" (accept P tx)
    assert_pending tx
    must "new tokens were not committed" (await_finality P tx)
    assert_confirmed tx
    pure (tx, outputs, id)

  -- `AcceptCashView.Call`
  unfoldable pub accept_cash_call : Go Call (Unit {0})
  unfolding accept_tokens
  accept_cash_call = do (tx, outputs, id) ← accept_tokens; assert_tokens P tx outputs id

  abbrev auditor_of : String → Identity
  auditor_of auditor = if auditor == "" then P.default_identity else P.identity_of auditor

  abbrev skip_opts : Bool → List ServiceOption
  skip_opts skip = if skip then ServiceOption.with_skip_auditor_signature_verification ∷ [] else []

  abbrev pub issue_source : String
  issue_source = "github.com/hyperledger/fabric-samples/token-sdk/common/views/"

  -- The end of `IssueCashView.Call` and of `RedeemView.Call`, with the texts of their assertions.
  unfoldable pub settle : Transaction → List ServiceOption → String → String → Go Call String
  unfolding assert_pending assert_confirmed
  settle tx opts sign_text order_text = do
    must sign_text (collect_endorsements P tx opts)
    assert_pending tx
    must order_text (order P tx)
    assert_confirmed tx
    pure tx.id

  -- `IssueCashView.Call` up to the new token.
  unfoldable pub prepare_issue : IssueCash → Go Call Transaction
  prepare_issue p = do
    recipient ← must "failed getting recipient identity" (
        request_recipient_identity P p.recipient (
          service_opts p.tms_id
            (ServiceOption.with_recipient_wallet_id p.recipient_wallet_id ∷ [])))
    must "" (get_management_service P (service_opts p.tms_id []))
    eid ← must "failed to get enrollment id for recipient" (peek (λ h. P.enrollment_id h recipient))
    assert_true (has_prefix eid p.recipient_eid) "recipient EID does not match the expected one"
    found ← peek (λ h. ok (P.get_issuer_wallet h p.issuer_wallet (service_opts p.tms_id [])))
    wallet ← non_nil found (crash "issuer wallet not found")
    must "failed getting id provider" (peek P.get_id_provider)
    tx ← must "failed creating issue transaction" (
        new_transaction P p.anonymous
          (tx_opts p.tms_id (TxOption.with_auditor (auditor_of p.auditor) ∷ [])))
    set_metadata P tx (issue_source <> "issue") "issue"
    set_metadata P tx (issue_source <> "meta") "meta"
    must "failed adding new issued token" (add_issue P tx wallet recipient p.token_type p.quantity)
    pure tx

  -- `IssueCashView.Call`
  unfoldable pub issue_cash_call : IssueCash → Go Call String
  unfolding prepare_issue settle
  issue_cash_call p = do
    tx ← prepare_issue p
    settle tx (skip_opts p.skip_auditor_signature_verification) "failed to sign issue transaction"
        "failed to commit issue transaction"

  abbrev pub redeem_opts : Redeem → List TransferOption
  redeem_opts t =
      (TransferOption.with_token_ids t.token_ids ∷ [])
      ++ (if t.issuer == ""
          then []
          else TransferOption.with_fsc_issuer_identity (P.identity_of t.issuer)
            ∷ TransferOption.with_issuer_public_params_public_key t.issuer_public_params_public_key
            ∷ [])

  -- `RedeemView.Call` up to the redemption.
  unfoldable pub prepare_redeem : Redeem → Go Call Transaction
  prepare_redeem t = do
    must "failed getting id provider" (peek P.get_id_provider)
    tx ← must "failed creating transaction" (
        new_transaction P true
          (tx_opts t.tms_id (TxOption.with_auditor (P.identity_of t.auditor) ∷ [])))
    found ← peek (λ h. ok (P.get_wallet h t.wallet (service_opts t.tms_id [])))
    sender ← non_nil found (crash "sender wallet not found")
    must "failed adding new tokens" (add_redeem P tx sender t.token_type t.amount (redeem_opts t))
    pure tx

  -- `RedeemView.Call`
  unfoldable pub redeem_call : Redeem → Go Call String
  unfolding prepare_redeem settle
  redeem_call t = do
    tx ← prepare_redeem t
    settle tx [] "failed to sign transaction" "failed asking ordering"

  -- `IssuerRedeemAcceptView.Call`
  unfoldable pub issuer_redeem_accept_call : Go Call (Unit {0})
  issuer_redeem_accept_call = do
    tx ← wrapping "failed getting transaction" (receive_transaction P)
    wrapping "issuer failed endorsing transaction" (endorse P tx)
