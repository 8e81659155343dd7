-- ===== src/Tokens/Issuer/Server/Ledger.antt =====
-- The ledger as the clients of an issuer's server see it.
use fabric_x_samples.Prelude.{String, List, [], ◌∷◌, ◌++◌, ◌≡◌, refl, some}
use fabric_x_samples.Go.{Outcome}
use fabric_x_samples.Tokens.Types.{Call}
use fabric_x_samples.Tokens.Platform.{Platform}
use fabric_x_samples.Tokens.Settlement.{ledger}
use fabric_x_samples.Tokens.Http.{Answer, strict}
use fabric_x_samples.Tokens.Http.Mux.{Target, found, method_not_allowed, not_found, dispatch}
use fabric_x_samples.Tokens.Http.Serving.{Request, answer}
use fabric_x_samples.Tokens.Http.Cors.{with_any_cors}
use fabric_x_samples.Tokens.Http.Reports
use fabric_x_samples.Tokens.Http.Reports.{
  Event, serve_all, all_handed, Tells-IsReported, decoded-IsReported, serve_all-handed,
}
use fabric_x_samples.Tokens.Common.Views.{issuer_redeem_accept_call}
use fabric_x_samples.Tokens.Common.Responders.{issuer_redeem_accept_call-Responds}
use fabric_x_samples.Tokens.Issuer.{IssueRequest, issue_tokens, healthz, readyz}
use fabric_x_samples.Tokens.Issuer.Effects.{issue_tokens-Tells}
use fabric_x_samples.Tokens.Issuer.Server.{
  Operation, health, issue, ready, Payload, nothing, tx_id, routes, strict_healthz, strict_issue,
  strict_readyz, healthz_operation, issue_operation, readyz_operation, operate, serve,
}

-- The transaction IDs in a payload.
abbrev pub payload_ids : Payload → List String
payload_ids nothing = []
payload_ids (tx_id id) = id ∷ []

module _ (decode : String → Outcome IssueRequest) (P : Platform) where
  abbrev IsReported : List Call → Outcome (Answer Payload) × List Call → Type 0
  IsReported = Reports.IsReported payload_ids P

  strict_issue-IsReported :
      (h : List Call) (body : String) → IsReported h (strict_issue decode P body h)
  unfolding strict_issue
  strict_issue-IsReported h body =
      decoded-IsReported payload_ids P h tx_id (decode body) (λ b. issue_tokens P (some b))
        (λ b.
          Tells-IsReported payload_ids P tx_id (λ _. refl) h _ (strict (issue_tokens P (some b)) h)
            (issue_tokens-Tells P h (some b)))

  answer-IsReported :
      (t : Target Operation) (r : Request) (h : List Call)
      → IsReported h (answer (operate decode P) t r h)
  unfolding answer operate healthz_operation strict_healthz healthz readyz_operation strict_readyz
      readyz issue_operation strict
  answer-IsReported (found health values) r h = refl
  answer-IsReported (found ready values) r h = refl
  answer-IsReported (found issue values) r h = strict_issue-IsReported h r.body
  answer-IsReported method_not_allowed r h = refl
  answer-IsReported not_found r h = refl

  serve-IsReported : (r : Request) (h : List Call) → IsReported h (serve decode P r h)
  unfolding serve
  serve-IsReported r h = answer-IsReported (dispatch routes r.method r.path) r h

  -- The calls after `IssuerRedeemAcceptView`, with which an issuer responds to an owner's redemption, has
  -- run, however it ended.
  abbrev pub endorse_redeem : Unit {0} → List Call → List Call
  endorse_redeem v h = (issuer_redeem_accept_call P h).1

  -- The transactions that an issuer commits in a sequence of requests and of redemptions that it
  -- endorses are exactly those whose IDs are in the answers to the requests, in that order.
  pub serve_issues-ledger :
      (events : List (Event Unit)) (h : List Call)
      → ledger P (serve_all (with_any_cors (serve decode P)) endorse_redeem events h).1
        ≡ all_handed payload_ids
            (serve_all (with_any_cors (serve decode P)) endorse_redeem events h).0
          ++ ledger P h
  serve_issues-ledger =
      serve_all-handed payload_ids P (serve decode P) endorse_redeem serve-IsReported
        (λ v h. (issuer_redeem_accept_call-Responds P h).1)
