-- ===== src/Tokens/Owner/Server/Ledger.antt =====
-- The ledger as the clients of an owner's server see it: what a sequence of requests commits, and the
-- transaction IDs in the answers.
use fabric_x_samples.Prelude.{ℕ, String, Bool, List, [], ◌∷◌, ◌≡◌, ◌⊎◌, refl, ap, inl, inr, arith}
use fabric_x_samples.Go.{Outcome, ok, err, panic, Go}
use fabric_x_samples.Tokens.Types.{Transaction, Call}
use fabric_x_samples.Tokens.Platform.{Platform}
use fabric_x_samples.Tokens.Settlement.{ledger, CommitsNothing}
use fabric_x_samples.Tokens.Http.{Answer, Body, json, problem, plain, strict, request_error}
use fabric_x_samples.Tokens.Http.Serving.{Request, encode, answer}
use fabric_x_samples.Tokens.Http.Reports
use fabric_x_samples.Tokens.Http.Reports.{
  serve_all, all_handed, Tells-IsReported, decoded-IsReported, serve_all-handed,
}
use fabric_x_samples.Tokens.Http.Mux.{Target, found, method_not_allowed, not_found, dispatch}
use fabric_x_samples.Tokens.Owner.Balances.{AmountMap, balance, balances}
use fabric_x_samples.Tokens.Owner.History.{get_transactions}
use fabric_x_samples.Tokens.Owner.Flows.Locks.{HasLock, Unread, LostReceipt}
use fabric_x_samples.Tokens.Owner.Routes.{
  owner_accounts, owner_account, redeem_tokens, owner_transactions, transfer_tokens, lock_tokens,
  claim_tokens, reclaim_tokens, healthz, readyz,
}
use fabric_x_samples.Tokens.Owner.Routes.Requests.{LockPayload}
use fabric_x_samples.Tokens.Owner.Routes.Effects.{
  TellsLock, transfer_tokens-Tells, redeem_tokens-Tells, claim_tokens-Tells, reclaim_tokens-Tells,
  lock_tokens-TellsLock,
}
use fabric_x_samples.Tokens.Owner.Server.{
  Reader, Operation, health, accounts, account, claim, lock, reclaim, redeem, transactions,
  transfer, ready, Payload, nothing, all_accounts, one_account, records, tx_id, locked, bound,
  routes, operate, serve, strict_claim, strict_lock, strict_reclaim, strict_redeem, strict_transfer,
  strict_account, strict_transactions, strict_accounts, strict_healthz, strict_readyz,
  claim_operation, lock_operation, reclaim_operation, redeem_operation, transfer_operation,
  path_value, account_operation, transactions_operation, accounts_operation, healthz_operation,
  readyz_operation,
}

-- The transaction IDs in a payload.
abbrev pub payload_ids : Payload → List String
payload_ids nothing = []
payload_ids (all_accounts a) = []
payload_ids (one_account a) = []
payload_ids (records r) = []
payload_ids (tx_id id) = id ∷ []
payload_ids (locked l) = l.tx_id ∷ []

module _ (R : Reader) (P : Platform) (iterate : AmountMap → AmountMap) where
  abbrev pub IsReported : List Call → Outcome (Answer Payload) × List Call → Type 0
  IsReported = Reports.IsReported payload_ids P

  module _
      (readable : (g : List Call) (t : Transaction)
        → HasLock t g
        → P.order g t ≡ ok tt
        → ¬ Unread P (P.outputs (Call.order t ∷ g) t)) where
    LostReceipt-absurd : (h h' : List Call) → LostReceipt P h h' → ⊥
    LostReceipt-absurd h (Call.order t ∷ g) (holds, done, unread, grows) =
        readable g t holds done unread
    LostReceipt-absurd h h' lost = absurd lost

    settled :
        (h h' : List Call) → CommitsNothing P h h' ⊎ LostReceipt P h h' → CommitsNothing P h h'
    settled h h' (inl same) = same
    settled h h' (inr lost) = absurd (LostReceipt-absurd h h' lost)

    lock_body-IsReported :
        (h : List Call) (refused : Bool) (status : ℕ) (b : Body LockPayload) (h' : List Call)
        → TellsLock P h refused (ok (record { status = status; body = b }), h')
        → IsReported h (encode locked (λ _. (ok (record { status = status; body = b }), h')) h)
    lock_body-IsReported h refused status (json message l) h' (fine, code, commits) = commits.1
    lock_body-IsReported h refused status (problem p) h' (bad, code, same) = ap (ledger P) same
    lock_body-IsReported h refused status (plain e) h' (fine, code, end) = settled h h' end

    TellsLock-IsReported :
        (h : List Call) (refused : Bool) (r : Outcome (Answer LockPayload) × List Call)
        → TellsLock P h refused r
        → IsReported h (encode locked (λ _. r) h)
    TellsLock-IsReported h refused (ok a, h') tells =
        lock_body-IsReported h refused a.status a.body h' tells
    TellsLock-IsReported h refused (err e, h') tells = absurd tells
    TellsLock-IsReported h refused (panic why, h') (fine, end) = settled h h' end

    bound-IsReported :
        {A : Type 0} (h : List Call) (name : String) (o : Outcome A)
        → (rest : A → Go Call (Answer Payload)) → ((a : A) → IsReported h (rest a h))
        → IsReported h (bound name o rest h)
    unfolding request_error
    bound-IsReported h name (ok a) rest each = each a
    bound-IsReported h name (err e) rest each = refl
    bound-IsReported h name (panic why) rest each = refl

    strict_claim-IsReported :
        (h : List Call) (id body : String) → IsReported h (strict_claim R P iterate id body h)
    unfolding strict_claim
    strict_claim-IsReported h id body =
        decoded-IsReported payload_ids P h tx_id (R.decode_claim body) (claim_tokens P id) (λ b.
          Tells-IsReported payload_ids P tx_id (λ _. refl) h _ (strict (claim_tokens P id b) h)
            (claim_tokens-Tells P h id b))

    strict_reclaim-IsReported :
        (h : List Call) (id body : String) → IsReported h (strict_reclaim R P iterate id body h)
    unfolding strict_reclaim
    strict_reclaim-IsReported h id body =
        decoded-IsReported payload_ids P h tx_id (R.decode_reclaim body) (reclaim_tokens P id) (λ b.
          Tells-IsReported payload_ids P tx_id (λ _. refl) h _ (strict (reclaim_tokens P id b) h)
            (reclaim_tokens-Tells P h id b))

    strict_redeem-IsReported :
        (h : List Call) (id body : String) → IsReported h (strict_redeem R P iterate id body h)
    unfolding strict_redeem
    strict_redeem-IsReported h id body =
        decoded-IsReported payload_ids P h tx_id (R.decode_redeem body) (redeem_tokens P id) (λ b.
          Tells-IsReported payload_ids P tx_id (λ _. refl) h _ (strict (redeem_tokens P id b) h)
            (redeem_tokens-Tells P h id b))

    strict_transfer-IsReported :
        (h : List Call) (id body : String) → IsReported h (strict_transfer R P iterate id body h)
    unfolding strict_transfer
    strict_transfer-IsReported h id body =
        decoded-IsReported payload_ids P h tx_id (R.decode_transfer body) (transfer_tokens P id)
          (λ b.
            Tells-IsReported payload_ids P tx_id (λ _. refl) h _ (strict (transfer_tokens P id b) h)
              (transfer_tokens-Tells P h id b))

    strict_lock-IsReported :
        (h : List Call) (id body : String) → IsReported h (strict_lock R P iterate id body h)
    unfolding strict_lock
    strict_lock-IsReported h id body =
        decoded-IsReported payload_ids P h locked (R.decode_lock body) (lock_tokens P id) (λ b.
          TellsLock-IsReported h _ (strict (lock_tokens P id b) h) (lock_tokens-TellsLock P h id b))

    -- The handlers that only read.
    strict_transactions-IsReported :
        (h : List Call) (id : String) → IsReported h (strict_transactions R P iterate id h)
    unfolding strict_transactions owner_transactions get_transactions strict
    strict_transactions-IsReported h id = ground arith

    account_operation-IsReported :
        (h : List Call) (values : List String) (r : Request)
        → IsReported h (account_operation R P iterate values r h)
    unfolding account_operation strict_account owner_account balance balances strict request_error
    account_operation-IsReported h values r = ground arith

    by_id-IsReported :
        (h : List Call) (values : List String) (handler : String → Go Call (Answer Payload))
        → ((id : String) → IsReported h (handler id h))
        → IsReported h (bound "id" (R.bind_path "id" (path_value R P iterate values)) handler h)
    by_id-IsReported h values handler each =
        bound-IsReported h "id" (R.bind_path "id" (path_value R P iterate values)) handler each

    operate-IsReported :
        (e : Operation) (values : List String) (r : Request) (h : List Call)
        → IsReported h (operate R P iterate e values r h)
    unfolding operate healthz_operation strict_healthz healthz accounts_operation strict_accounts
        owner_accounts readyz_operation strict_readyz readyz strict claim_operation lock_operation
        reclaim_operation redeem_operation transactions_operation transfer_operation
    operate-IsReported health values r h = refl
    operate-IsReported ready values r h = refl
    operate-IsReported accounts values r h = refl
    operate-IsReported account values r h = account_operation-IsReported h values r
    operate-IsReported claim values r h =
        by_id-IsReported h values (λ id. strict_claim R P iterate id r.body)
          (λ id. strict_claim-IsReported h id r.body)
    operate-IsReported lock values r h =
        by_id-IsReported h values (λ id. strict_lock R P iterate id r.body)
          (λ id. strict_lock-IsReported h id r.body)
    operate-IsReported reclaim values r h =
        by_id-IsReported h values (λ id. strict_reclaim R P iterate id r.body)
          (λ id. strict_reclaim-IsReported h id r.body)
    operate-IsReported redeem values r h =
        by_id-IsReported h values (λ id. strict_redeem R P iterate id r.body)
          (λ id. strict_redeem-IsReported h id r.body)
    operate-IsReported transactions values r h =
        by_id-IsReported h values (strict_transactions R P iterate)
          (strict_transactions-IsReported h)
    operate-IsReported transfer values r h =
        by_id-IsReported h values (λ id. strict_transfer R P iterate id r.body)
          (λ id. strict_transfer-IsReported h id r.body)

    answer-IsReported :
        (t : Target Operation) (r : Request) (h : List Call)
        → IsReported h (answer (operate R P iterate) t r h)
    unfolding answer
    answer-IsReported (found e values) r h = operate-IsReported e values r h
    answer-IsReported method_not_allowed r h = refl
    answer-IsReported not_found r h = refl

    pub serve-IsReported : (r : Request) (h : List Call) → IsReported h (serve R P iterate r h)
    unfolding serve
    serve-IsReported r h = answer-IsReported (dispatch routes r.method r.path) r h
