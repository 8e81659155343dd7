-- ===== src/Tokens/Issuer.antt =====
-- tokens/issuer: the service of service/fsc.go and the REST server of routes/routes.go.
pub mod Effects
pub mod Contents
pub mod Server
use fabric_x_samples.Prelude.{ℕ, String, false, Option, none, some, [], ◌∷◌, ◌<>◌}
use fabric_x_samples.Go.{Error, Go, pure, throw, peek, on_error, wrapping, ◌>>=◌, ◌>>◌}
use fabric_x_samples.Tokens.Types.{TmsId, TxOption, Call}
use fabric_x_samples.Tokens.Platform.{Platform, initiate_view}
use fabric_x_samples.Tokens.Calls.{
  required, bind, request_recipient_identity, new_transaction, set_message, add_issue,
  collect_endorsements, order,
}
use fabric_x_samples.Tokens.Http.{Reply, success}
use fabric_x_samples.Tokens.Common.Options.{service_opts, tx_opts}

-- `Amount`, `Counterparty` and the body of a request to issue.
pub record Amount : Type 0 where
  pub code : String
  pub value : ℕ

pub record Counterparty : Type 0 where
  pub account : String
  pub node : String

pub record IssueRequest : Type 0 where
  pub amount : Amount
  pub counterparty : Counterparty
  pub message : Option String
  pub tms_id : Option TmsId

-- `IssueCash`
pub record IssueCash : Type 0 where
  pub token_type : String
  pub quantity : ℕ
  pub recipient : String
  pub recipient_node : String
  pub message : String
  pub auditor : String
  pub tms_id : Option TmsId

-- `toTMSID`
unfoldable pub to_tmsid : Option TmsId → Option TmsId
to_tmsid none = none
to_tmsid (some id) =
    some (record { network = id.network; channel = id.channel; namespace = id.namespace })

abbrev pub or_empty : Option String → String
or_empty none = ""
or_empty (some s) = s

module _ (P : Platform) where
  -- `IssueCashView.Call`
  unfoldable pub issue_call : IssueCash → Go Call String
  issue_call v = do
    wallet ←
        required "issuer wallet not found" (λ h. P.my_issuer_wallet h (service_opts v.tms_id []))
    on_error
        (λ _. throw (Error.message ("error binding " <> v.recipient <> " to " <> v.recipient_node)))
        (bind P v.recipient_node v.recipient)
    recipient ←
        wrapping ("failed getting recipient identity from " <> v.recipient_node)
          (request_recipient_identity P v.recipient (service_opts v.tms_id []))
    tx ←
        wrapping "failed creating transaction"
          (new_transaction P false (tx_opts v.tms_id (TxOption.with_auditor v.auditor ∷ [])))
    set_message P tx v.message
    wrapping "failed adding new issued token"
        (add_issue P tx wallet recipient v.token_type v.quantity)
    wrapping "failed to sign transaction" (collect_endorsements P tx [])
    wrapping "failed asking ordering" (order P tx)
    pure tx.id

  -- `FabricSmartClient.Issue`; the view's result is always a string. No auditor is named.
  unfoldable pub issue : String → ℕ → String → String → String → Option TmsId → Go Call String
  unfolding issue_call
  issue token_type quantity recipient recipient_node message tms_id = do
    peek P.get_manager
    initiate_view P (
        issue_call (record {
          token_type = token_type;
          quantity = quantity;
          recipient = recipient;
          recipient_node = recipient_node;
          message = message;
          auditor = "";
          tms_id = tms_id;
        }))

  -- `Server.Issue`; `none` is a nil body.
  unfoldable pub issue_tokens : Option IssueRequest → Go Call (Reply String)
  unfolding to_tmsid
  issue_tokens none = throw (Error.message "no body")
  issue_tokens (some body) = do
    res ←
        issue body.amount.code body.amount.value body.counterparty.account body.counterparty.node
          (or_empty body.message) (to_tmsid body.tms_id)
    pure (success "ok" res)

  -- `Healthz` and `Readyz`
  unfoldable pub healthz : Go Call (Reply (Unit {0}))
  healthz = pure (success "ok" tt)

  unfoldable pub readyz : Go Call (Reply (Unit {0}))
  readyz = pure (success "ok" tt)
