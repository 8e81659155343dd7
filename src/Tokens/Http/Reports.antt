-- ===== src/Tokens/Http/Reports.antt =====
-- The ledger as the clients of a server see it: what requests commit, and the transaction IDs in the
-- answers.
use fabric_x_samples.Prelude.{
  ℕ, String, Bool, Option, none, some, ◌==◌, Bool-cases, inl, inr, List, [], ◌∷◌, ◌++◌, ◌≡◌, refl,
  ap, sym, ◌∙◌,
}
use mathlib.Core.List.{append_assoc}
use fabric_x_samples.Go.{Outcome, ok, err, panic, Go, pure, ◌>>=◌}
use fabric_x_samples.Tokens.Types.{Call}
use fabric_x_samples.Tokens.Platform.{Platform}
use fabric_x_samples.Tokens.Settlement.{ledger}
use fabric_x_samples.Tokens.Http.{
  Answer, Body, json, problem, plain, Reply, strict, strict_body, request_error,
}
use fabric_x_samples.Tokens.Http.Serving.{Request, encode}
use fabric_x_samples.Tokens.Http.Cors.{Response, cors_headers, with_any_cors}
use fabric_x_samples.Tokens.Http.Tells.{Tells}

-- What happens to a node: a client's request, or a view that responds to another node.
pub data Event (V : Type 0) : Type 0 where
  asks : Request → Event V
  responds : V → Event V

-- What is written in answer to the requests among events that come one after another, and the calls
-- made, both newest first. A panic in a handler ends its request only.
unfoldable pub serve_all :
    {A V : Type 0}
    → (Request → Go Call (Response A))
    → (V → List Call → List Call)
    → List (Event V)
    → List Call
    → List (Outcome (Response A)) × List Call
serve_all handler respond [] h = ([], h)
serve_all handler respond (asks r ∷ events) h =
    let (answers, g) = serve_all handler respond events h in
    let (a, g') = handler r g in (a ∷ answers, g')
serve_all handler respond (responds v ∷ events) h =
    let (answers, g) = serve_all handler respond events h in (answers, respond v g)

module _ {A : Type 0} (ids : A → List String) where
  -- The transaction IDs that an answer hands to its client, and those of several answers.
  abbrev body_ids : Body A → List String
  body_ids (json message a) = ids a
  body_ids (problem p) = []
  body_ids (plain e) = []

  abbrev reported : Outcome (Answer A) → List String
  reported (ok a) = body_ids a.body
  reported (err e) = []
  reported (panic why) = []

  abbrev written : Option (Body A) → List String
  written none = []
  written (some b) = body_ids b

  abbrev handed : Outcome (Response A) → List String
  handed (ok a) = written a.body
  handed (err e) = []
  handed (panic why) = []

  abbrev pub all_handed : List (Outcome (Response A)) → List String
  all_handed [] = []
  all_handed (a ∷ answers) = handed a ++ all_handed answers

  module _ (P : Platform) where
    -- The transactions committed are those that the answer reports.
    abbrev pub IsReported : List Call → Outcome (Answer A) × List Call → Type 0
    IsReported h (a, h') = ledger P h' ≡ reported a ++ ledger P h

    module _ (tx_id : String → A) (one : (id : String) → ids (tx_id id) ≡ id ∷ []) where
      body-IsReported :
          (h : List Call) (refused : Bool) (status : ℕ) (b : Body String) (h' : List Call)
          → Tells P h refused (ok (record { status = status; body = b }), h')
          → IsReported h (encode tx_id (λ _. (ok (record { status = status; body = b }), h')) h)
      body-IsReported h refused status (json message id) h' (fine, code, commits) =
          commits.1 ∙ ap (λ l. l ++ ledger P h) (sym (one id))
      body-IsReported h refused status (problem p) h' (bad, code, same) = ap (ledger P) same
      body-IsReported h refused status (plain e) h' (fine, code, same) = same

      pub Tells-IsReported :
          (h : List Call) (refused : Bool) (r : Outcome (Answer String) × List Call)
          → Tells P h refused r
          → IsReported h (encode tx_id (λ _. r) h)
      Tells-IsReported h refused (ok a, h') tells =
          body-IsReported h refused a.status a.body h' tells
      Tells-IsReported h refused (err e, h') tells = absurd tells
      Tells-IsReported h refused (panic why, h') (fine, same) = same

    pub decoded-IsReported :
        {B C : Type 0} (h : List Call) (f : B → A) (o : Outcome C)
        → (handler : C → Go Call (Reply B))
        → ((c : C) → IsReported h (encode f (strict (handler c)) h))
        → IsReported h (encode f (strict_body o handler) h)
    unfolding strict_body request_error
    decoded-IsReported h f (ok c) handler each = each c
    decoded-IsReported h f (err e) handler each = refl
    decoded-IsReported h f (panic why) handler each = refl

    IsHanded : List Call → Outcome (Response A) × List Call → Type 0
    IsHanded h (a, h') = ledger P h' ≡ handed a ++ ledger P h

    wrapped-IsHanded :
        (h : List Call) (r : Outcome (Answer A) × List Call)
        → IsReported h r
        → IsHanded h (
            ((λ (_ : List Call). r) >>= λ a.
            pure (record { headers = cors_headers; status = a.status; body = some a.body }))
              h)
    unfolding IsHanded
    wrapped-IsHanded h (ok a, h') e = e
    wrapped-IsHanded h (err e, h') same = same
    wrapped-IsHanded h (panic why, h') same = same

    with_any_cors-IsHanded :
        (serve : Request → Go Call (Answer A)) (r : Request) (h : List Call)
        → IsReported h (serve r h)
        → IsHanded h (with_any_cors serve r h)
    unfolding with_any_cors IsHanded
    with_any_cors-IsHanded serve r h e = elim (Bool-cases (r.method == "OPTIONS")) [
      | inl options ↦ rw options refl
      | inr other ↦ rw other (wrapped-IsHanded h (serve r h) e)
    ]

    -- What holds of every request holds of a sequence of them, behind the headers for CORS and with
    -- views that commit nothing in between.
    pub serve_all-handed :
        {V : Type 0} (serve : Request → Go Call (Answer A)) (respond : V → List Call → List Call)
        → ((r : Request) (h : List Call) → IsReported h (serve r h))
        → ((v : V) (h : List Call) → ledger P (respond v h) ≡ ledger P h)
        → (events : List (Event V)) (h : List Call)
        → ledger P (serve_all (with_any_cors serve) respond events h).1
          ≡ all_handed (serve_all (with_any_cors serve) respond events h).0 ++ ledger P h
    unfolding serve_all IsHanded
    serve_all-handed serve respond each quiet [] h = refl
    serve_all-handed serve respond each quiet (responds v ∷ events) h =
        quiet v (serve_all (with_any_cors serve) respond events h).1
        ∙ serve_all-handed serve respond each quiet events h
    serve_all-handed serve respond each quiet (asks r ∷ events) h =
        let before = serve_all (with_any_cors serve) respond events h in
        with_any_cors-IsHanded serve r before.1 (each r before.1)
        ∙ ap (λ l. handed (with_any_cors serve r before.1).0 ++ l)
            (serve_all-handed serve respond each quiet events h)
        ∙ sym (
            append_assoc (handed (with_any_cors serve r before.1).0) (all_handed before.0)
              (ledger P h))
