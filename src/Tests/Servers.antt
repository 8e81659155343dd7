-- ===== src/Tests/Servers.antt =====
-- The REST servers, run on concrete requests.
use fabric_x_samples.Prelude.{
  ℕ, eq_iff, String, Option, none, some, sym, ◌==◌, if◌then◌else◌, List, [], ◌∷◌, ◌++◌, ◌≡◌, arith,
  refl,
}
use mathlib.Core.Option.{none-ne-some}
use fabric_x_samples.Go.{Outcome, ok, Go}
use fabric_x_samples.Tokens.Types.{Transaction, Output, Script, Call}
use fabric_x_samples.Tokens.Settlement.{ledger}
use fabric_x_samples.Tokens.Platform.{Platform}
use fabric_x_samples.Tokens.Http.{Answer}
use fabric_x_samples.Tokens.Http.Mux.{found, dispatch}
use fabric_x_samples.Tokens.Http.Serving.{Request}
use fabric_x_samples.Tokens.Http.Cors.{Response, with_any_cors}
use fabric_x_samples.Tokens.Http.Reports.{Event, asks, responds, serve_all, all_handed}
use fabric_x_samples.Tokens.Http.Together.{none}
use fabric_x_samples.Tokens.Owner.Flows.Locks.{HasLock, Unread}
use fabric_x_samples.Tokens.Common.Views.{accept_cash_call}
use fabric_x_samples.Tokens.Owner.Routes
use fabric_x_samples.Tokens.Owner.Lock
use fabric_x_samples.Tokens.Owner.Transfer
use fabric_x_samples.Tokens.Owner.Server
use fabric_x_samples.Tokens.Owner.Server.{Reader}
use fabric_x_samples.Tokens.Owner.Server.Ledger
use fabric_x_samples.Tokens.Owner.Server.Moves.{Served, serve-Served}
use fabric_x_samples.Tokens.Contents.{OnAnswer}
use fabric_x_samples.Tokens.Owner.Server.Life.{
  Responder, accept_cash, respond, serve_all-ledger, server,
}
use fabric_x_samples.Tokens.Owner.Server.Routing.{dispatch-routes_iff}
use fabric_x_samples.Tokens.Owner.Server.Routing as Owned
use fabric_x_samples.Tokens.Issuer.Server.Routing as Issued
use fabric_x_samples.Tokens.Endorser.Server.Routing as Endorsed
use fabric_x_samples.Tokens.Routing.{dispatch-documented}
use fabric_x_samples.Tokens.Issuer.{IssueRequest}
use fabric_x_samples.Tokens.Issuer.Server as Issuing
use fabric_x_samples.Tokens.Issuer.Server.Ledger as Ledgers
use fabric_x_samples.Tokens.Issuer.Server.Ledger.{endorse_redeem, serve_issues-ledger}
use fabric_x_samples.Tokens.Endorser.Server as Endorsing
use fabric_x_samples.Tokens.Endorser.Server.Initialization.{Initializes, serve-Initializes}
use fabric_x_samples.Tests.Demo.{demo, output_1, script_1}
use fabric_x_samples.Tests.Tokens.{
  transfer_request, redeem_request, claim_request, reclaim_request, lock_request, same_order,
  services, configs_1,
}

-- A reader that finds the same in every text, and nothing in a query.
abbrev reader : Reader
reader = record {
  bind_path = λ name value. ok value;
  bind_query = λ name query. ok none;
  decode_claim = λ body. ok claim_request;
  decode_lock = λ body. ok lock_request;
  decode_reclaim = λ body. ok reclaim_request;
  decode_redeem = λ body. ok redeem_request;
  decode_transfer = λ body. ok transfer_request;
}

abbrev post : List String → Request
post path = record { method = "POST"; path = path; query = ""; body = "{}" }

abbrev of_alice : String → List String
of_alice verb = "owner" ∷ "accounts" ∷ "alice" ∷ verb ∷ []

-- A transfer, a preflight request, tokens from another owner, a reclaim that is refused, a lock and an
-- unknown path, in this order.
abbrev events_1 : List (Event Responder)
events_1 =
    asks (post ("unknown" ∷ []))
    ∷ asks (post (of_alice "lock"))
    ∷ asks (post (of_alice "reclaim"))
    ∷ responds accept_cash
    ∷ asks (record { method = "OPTIONS"; path = of_alice "transfer"; query = ""; body = "" })
    ∷ asks (post (of_alice "transfer"))
    ∷ []

-- The output of a transaction with a lock has a script; every other transaction has an output without one.
abbrev unscripted : Output
unscripted = record { owner = "bob"; token_type = "EUR"; quantity_hex = "0x10" }

abbrev outputs_of : List Call → List Output
outputs_of (Call.order t ∷ Call.collect_endorsements tx opts ∷ Call.lock _ _ _ _ _ _ _ _ ∷ h) =
    output_1 ∷ []
outputs_of h = unscripted ∷ []

abbrev script_of : List Output → Option Script
script_of [] = none
script_of (o ∷ os) = if o.owner == "alice" then some script_1 else none

abbrev scripting : Platform
scripting = record demo {
  outputs = λ h tx. ok (outputs_of h);
  script_at = λ outputs n. script_of outputs;
}

scripting-reads :
    (g : List Call) (t : Transaction)
    → HasLock t g
    → scripting.order g t ≡ ok tt
    → ¬ Unread scripting (scripting.outputs (Call.order t ∷ g) t)
scripting-reads (Call.collect_endorsements tx opts ∷ Call.lock _ _ _ _ _ _ _ _ ∷ g) t holds ordered
      unread =
    none-ne-some script_1 (sym unread)
scripting-reads g t holds ordered unread = absurd holds

abbrev run : List (Outcome (Response Server.Payload)) × List Call
run =
    serve_all (with_any_cors (Server.serve reader scripting same_order)) (respond scripting)
      events_1 []

serve_all-ledger_example :
    ledger scripting run.1 ≡ all_handed Ledger.payload_ids run.0 ++ ledger scripting []
serve_all-ledger_example = serve_all-ledger scripting scripting-reads reader same_order events_1 []

-- The two transactions of these requests.
two_ids : ledger scripting run.1 ≡ "tx1" ∷ "tx1" ∷ []
unfolding serve_all with_any_cors Server.serve Server.operate dispatch Server.lock_operation
    Server.strict_lock Routes.lock_tokens Lock.lock Lock.prepare_lock Lock.lock_receipt
    Server.reclaim_operation Server.strict_reclaim Routes.reclaim_tokens Server.transfer_operation
    Server.strict_transfer Routes.transfer_tokens Transfer.transfer respond accept_cash_call
two_ids = refl

dispatch-documented_example :
    ((e : Server.Operation)
      → dispatch Server.routes (Owned.method_of e) (Owned.path_of e "alice")
        ≡ found e (Owned.values_of e "alice"))
    × ((e : Issuing.Operation)
        → dispatch Issuing.routes (Issued.method_of e) (Issued.path_of e) ≡ found e [])
    × ((e : Endorsing.Operation)
        → dispatch Endorsing.routes (Endorsed.method_of e) (Endorsed.path_of e) ≡ found e [])
dispatch-documented_example = dispatch-documented "alice" (λ e. ground (arith, eq_iff "alice" ""))

abbrev pub issue_request : IssueRequest
issue_request = record {
  amount = record { code = "EUR"; value = 16 };
  counterparty = record { account = "alice"; node = "owner1" };
  message = none;
  tms_id = none;
}

abbrev decode : String → Outcome IssueRequest
decode body = ok issue_request

abbrev issues_1 : List (Event Unit)
issues_1 = asks (post ("issuer" ∷ "issue" ∷ [])) ∷ responds tt ∷ asks (post ("healthz" ∷ [])) ∷ []

serve_issues-ledger_example :
    ledger scripting
      (serve_all
        (with_any_cors (Issuing.serve decode demo))
        (endorse_redeem decode demo)
        issues_1
        []).1
    ≡ all_handed Ledgers.payload_ids
        (serve_all
          (with_any_cors (Issuing.serve decode demo))
          (endorse_redeem decode demo)
          issues_1
          []).0
      ++ ledger scripting []
serve_issues-ledger_example = serve_issues-ledger decode demo issues_1 []

serve-Initializes_example :
    Initializes services configs_1 []
      (Endorsing.serve services (post ("endorser" ∷ "init" ∷ [])) [])
serve-Initializes_example = serve-Initializes services configs_1 [] "" "{}" refl refl refl

-- Two clients at the same time: one locks and then transfers, the other transfers.
abbrev clients : List (List (Event Responder))
clients =
    (asks (post (of_alice "transfer")) ∷ asks (post (of_alice "lock")) ∷ [])
    ∷ (responds accept_cash ∷ asks (post (of_alice "transfer")) ∷ [])
    ∷ []

abbrev world : ℕ → Platform
world i = scripting

abbrev server_of : Platform → Request → Go Call (Answer Server.Payload)
server_of = server world reader same_order

abbrev transfer_of_alice : Request
transfer_of_alice = post (of_alice "transfer")

serve-Served_example :
    OnAnswer
      (Served reader demo same_order [] (found Server.transfer ("alice" ∷ [])) transfer_of_alice)
      (Server.serve reader demo same_order transfer_of_alice [])
unfolding dispatch
serve-Served_example = serve-Served reader demo same_order [] transfer_of_alice
