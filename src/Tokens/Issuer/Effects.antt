-- ===== src/Tokens/Issuer/Effects.antt =====
-- What an issuance does to the ledger, in the view, in the service and for a client of the REST API.
use fabric_x_samples.Prelude.{
  refl, ℕ, String, Option, none, some, false, List, arith, Option-cases, inl, inr,
}
use fabric_x_samples.Go.{Outcome, ok, err, panic, Go, peek, ◌>>◌}
use fabric_x_samples.Tokens.Types.{TmsId, Call}
use fabric_x_samples.Tokens.Platform.{Platform, initiate_view, rescue}
use fabric_x_samples.Tokens.Settlement.{IsAtomic, IsSettled}
use fabric_x_samples.Tokens.Issuer.{
  IssueCash, issue_call, issue, IssueRequest, issue_tokens, or_empty, to_tmsid,
}
use fabric_x_samples.Tokens.Http.{strict}
use fabric_x_samples.Tokens.Http.Tells.{Tells, success-Tells}

module _ (P : Platform) (h : List Call) where
  pub issue_call-IsSettled : (v : IssueCash) → IsSettled P h → IsSettled P (issue_call P v h).1
  unfolding issue_call
  issue_call-IsSettled v s = ground arith

  pub issue_call-IsAtomic : (v : IssueCash) → IsAtomic P h (issue_call P v h)
  unfolding issue_call
  issue_call-IsAtomic v = ground arith

  rescued-IsAtomic :
      (r : Outcome String × List Call) → IsAtomic P h r → IsAtomic P h (rescue P r.0, r.1)
  rescued-IsAtomic (ok id, h') a = a
  rescued-IsAtomic (err e, h') a = a
  rescued-IsAtomic (panic why, h') a = elim (Option-cases (P.recovered why)) [
    | inl e ↦ rw (e, rescue) a
    | inr (x, e) ↦ rw (e, rescue) a
  ]

  service-IsAtomic :
      (m : Go Call String)
      → IsAtomic P h (m h)
      → IsAtomic P h ((peek P.get_manager >> initiate_view P m) h)
  service-IsAtomic m a = start (P.get_manager h) (P.new_context h)
    where
      start :
          (managed context : Outcome (Unit {0}))
          → IsAtomic P h (
              ((λ (g : List Call). (managed, g))
                  >> ((λ (g : List Call). (context, g))
                      >> (λ g. let (r, h') = m g in (rescue P r, h'))))
                h)
      start (err e) context = refl
      start (panic why) context = refl
      start (ok _) (err e) = refl
      start (ok _) (panic why) = refl
      start (ok _) (ok _) = rescued-IsAtomic (m h) a

  -- Issue returns the ID of the transaction that its last call committed, the only one that it
  -- committed, or fails and has committed nothing.
  pub issue-IsAtomic :
      (type : String) (q : ℕ) (recipient node message : String) (tms : Option TmsId)
      → IsAtomic P h (issue P type q recipient node message tms h)
  unfolding issue
  issue-IsAtomic type q recipient node message tms =
      let v : IssueCash = record {
        token_type = type;
        quantity = q;
        recipient = recipient;
        recipient_node = node;
        message = message;
        auditor = "";
        tms_id = tms;
      } in
      service-IsAtomic (issue_call P v) (issue_call-IsAtomic v)

  -- An issuance is answered with status 200 and the ID of the transaction that the last call
  -- committed, the only one that it committed; or with status 500, or by a panic, and then nothing is
  -- committed.
  pub issue_tokens-Tells :
      (body : Option IssueRequest) → Tells P h false (strict (issue_tokens P body) h)
  unfolding issue_tokens strict
  issue_tokens-Tells none = (refl, refl, refl)
  issue_tokens-Tells (some body) = success-Tells P h _ (
      issue-IsAtomic body.amount.code body.amount.value body.counterparty.account
        body.counterparty.node (or_empty body.message) (to_tmsid body.tms_id))
