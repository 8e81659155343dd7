-- ===== src/Tokens/Issuer/Contents.antt =====
-- What an issuance moves: which new tokens, and to whom.
use fabric_x_samples.Prelude.{
  String, false, Option, none, some, List, [], ◌∷◌, ◌≡◌, refl, arith, eq_iff,
}
use fabric_x_samples.Go.{Outcome, ok, err, panic, Go, peek, ◌>>◌}
use fabric_x_samples.Tokens.Types.{Identity, Wallet, Transaction, TxOption, Call}
use fabric_x_samples.Tokens.Platform.{Platform, initiate_view, rescue}
use fabric_x_samples.Tokens.Contents.{Moves, OnResult, OnAnswer, rescued-OnResult, success-OnAnswer}
use fabric_x_samples.Tokens.Http.{strict}
use fabric_x_samples.Tokens.Common.Options.{service_opts, tx_opts}
use fabric_x_samples.Tokens.Http.Tells.{Tells}
use fabric_x_samples.Tokens.Issuer.Effects.{issue_tokens-Tells}
use fabric_x_samples.Tokens.Issuer.{
  IssueCash, IssueRequest, issue_call, issue, issue_tokens, or_empty, to_tmsid,
}

module _ (P : Platform) (h : List Call) where
  -- The issuance of this quantity to the identity that the recipient's node answers, by the wallet
  -- of the issuer.
  abbrev pub Issues : IssueCash → String → List Call → Type 0
  Issues v id h' =
      (tx : Transaction) × (w : Wallet) × (owner : Identity) × ((P.my_issuer_wallet h
            (service_opts v.tms_id [])
          ≡ some w)
        × (P.request_recipient_identity (Call.bind v.recipient_node v.recipient ∷ h) v.recipient
              (service_opts v.tms_id [])
            ≡ ok owner)
        × Moves (λ t. Call.issue t w owner v.token_type v.quantity) v.message tx h id h')

  abbrev HoldsIssue :
      IssueCash
      → String
      → Outcome Transaction
      → Option Wallet
      → Outcome Identity
      → List Call
      → Type 0
  HoldsIssue v id (ok tx) (some w) (ok owner) h' =
      Moves (λ t. Call.issue t w owner v.token_type v.quantity) v.message tx h id h'
  HoldsIssue v id tx w owner h' = ⊥

  abbrev opened : IssueCash → List Call
  opened v =
      Call.request_recipient_identity v.recipient (service_opts v.tms_id [])
      ∷ Call.bind v.recipient_node v.recipient
      ∷ h

  abbrev issuer_of : IssueCash → Option Wallet
  issuer_of v = P.my_issuer_wallet h (service_opts v.tms_id [])

  abbrev owner_of : IssueCash → Outcome Identity
  owner_of v =
      P.request_recipient_identity (Call.bind v.recipient_node v.recipient ∷ h) v.recipient
        (service_opts v.tms_id [])

  abbrev tx_of : IssueCash → Outcome Transaction
  tx_of v =
      P.new_transaction (opened v) false (tx_opts v.tms_id (TxOption.with_auditor v.auditor ∷ []))

  issue_call-HoldsIssue :
      (v : IssueCash)
      → OnResult (λ id. HoldsIssue v id (tx_of v) (issuer_of v) (owner_of v)) (issue_call P v h)
  unfolding issue_call
  issue_call-HoldsIssue v = ground (arith, eq_iff v.message "")

  HoldsIssue-Issues :
      (v : IssueCash) (id : String) (h' : List Call) (made : Outcome Transaction)
      → (mine : Option Wallet) → issuer_of v ≡ mine
      → (theirs : Outcome Identity) → owner_of v ≡ theirs
      → HoldsIssue v id made mine theirs h'
      → Issues v id h'
  HoldsIssue-Issues v id h' (ok tx) (some w) e (ok owner) f moved = (tx, w, owner, (e, f, moved))
  HoldsIssue-Issues v id h' made mine e theirs f held = absurd held

  OnResult-Issues :
      (v : IssueCash) (r : Outcome String × List Call)
      → OnResult (λ id. HoldsIssue v id (tx_of v) (issuer_of v) (owner_of v)) r
      → OnResult (Issues v) r
  OnResult-Issues v (ok id, h') held = HoldsIssue-Issues v id h' _ _ refl _ refl held
  OnResult-Issues v (err e, h') held = tt
  OnResult-Issues v (panic why, h') held = tt

  service-OnResult :
      (Q : String → List Call → Type 0) (m : Go Call String)
      → OnResult Q (m h)
      → OnResult Q ((peek P.get_manager >> initiate_view P m) h)
  service-OnResult Q m q = start (P.get_manager h) (P.new_context h)
    where
      start :
          (managed context : Outcome (Unit {0}))
          → OnResult Q (
              ((λ (g : List Call). (managed, g))
                  >> ((λ (g : List Call). (context, g))
                      >> (λ g. let (r, h') = m g in (rescue P r, h'))))
                h)
      start (err e) context = tt
      start (panic why) context = tt
      start (ok _) (err e) = tt
      start (ok _) (panic why) = tt
      start (ok _) (ok _) = rescued-OnResult P Q (m h) q

  abbrev pub issue_cash : IssueRequest → IssueCash
  issue_cash body = record {
    token_type = body.amount.code;
    quantity = body.amount.value;
    recipient = body.counterparty.account;
    recipient_node = body.counterparty.node;
    message = or_empty body.message;
    auditor = "";
    tms_id = to_tmsid body.tms_id;
  }

  abbrev pub IssuesFor : Option IssueRequest → String → List Call → Type 0
  IssuesFor none id h' = ⊥
  IssuesFor (some body) id h' = Issues (issue_cash body) id h'

  issue_tokens-OnAnswer :
      (body : Option IssueRequest) → OnAnswer (IssuesFor body) (strict (issue_tokens P body) h)
  unfolding issue_tokens issue strict
  issue_tokens-OnAnswer none = tt
  issue_tokens-OnAnswer (some body) =
      let v = issue_cash body in
      success-OnAnswer P (Issues v) h
        (issue P v.token_type v.quantity v.recipient v.recipient_node v.message v.tms_id h)
        (service-OnResult (Issues v) (issue_call P v)
          (OnResult-Issues v (issue_call P v h) (issue_call-HoldsIssue v)))

  -- An issuance is answered with status 200 and the ID of the transaction that the last call
  -- committed, the only one that it committed; or with status 500, or by a panic, and then nothing is
  -- committed. The transaction of an ID in the answer to a request with a body holds one issuance and
  -- the message, if there is one, and no other was given anything: the quantity and the type of the
  -- request go from the issuer's wallet to the identity that the counterparty's node answered. Without
  -- a body there is no ID.
  pub issue_tokens-Issues :
      (body : Option IssueRequest)
      → Tells P h false (strict (issue_tokens P body) h)
        × OnAnswer (IssuesFor body) (strict (issue_tokens P body) h)
  issue_tokens-Issues body = (issue_tokens-Tells P h body, issue_tokens-OnAnswer body)
