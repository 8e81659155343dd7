-- ===== src/Tokens/Owner/Server/Moves.antt =====
-- What the transactions move whose IDs an owner's server answers, from the request on the wire: its path,
-- its body, and the route that it takes.
use fabric_x_samples.Prelude.{ℕ, String, List, arith}
use fabric_x_samples.Go.{Outcome, ok, err, panic, Go}
use fabric_x_samples.Tokens.Types.{Call}
use fabric_x_samples.Tokens.Platform.{Platform}
use fabric_x_samples.Tokens.Contents.{OnAnswer}
use fabric_x_samples.Tokens.Http.{
  Answer, Body, json, problem, plain, Reply, strict, strict_body, request_error,
}
use fabric_x_samples.Tokens.Http.Serving.{Request, encode, answer}
use fabric_x_samples.Tokens.Http.Mux.{Target, found, method_not_allowed, not_found, dispatch}
use fabric_x_samples.Tokens.Owner.Balances.{AmountMap, balance, balances}
use fabric_x_samples.Tokens.Owner.History.{get_transactions}
use fabric_x_samples.Tokens.Owner.Contents.Payments.{
  Pays, transfer_options, transfer_tokens-Pays, Burns, redeem_options, redeem_tokens-Burns,
}
use fabric_x_samples.Tokens.Owner.Contents.Unlocks.{
  Claims, claim_options, claim_tokens-Claims, Reclaims, reclaim_options, reclaim_tokens-Reclaims,
}
use fabric_x_samples.Tokens.Owner.Contents.LockRequests.{
  nanoseconds, LocksUntil, lock_tokens-LocksUntil,
}
use fabric_x_samples.Tokens.Owner.Routes.{
  owner_accounts, owner_account, redeem_tokens, owner_transactions, transfer_tokens, lock_tokens,
  claim_tokens, reclaim_tokens, healthz, readyz,
}
use fabric_x_samples.Tokens.Owner.Routes.Requests.{LockPayload}
use fabric_x_samples.Tokens.Owner.Server.{
  Reader, Operation, health, accounts, account, claim, lock, reclaim, redeem, transactions,
  transfer, ready, Payload, tx_id, locked, bound, routes, operate, serve, strict_claim, strict_lock,
  strict_reclaim, strict_redeem, strict_transfer, strict_account, strict_transactions,
  strict_accounts, strict_healthz, strict_readyz, claim_operation, lock_operation,
  reclaim_operation, redeem_operation, transfer_operation, path_value, account_operation,
  transactions_operation, accounts_operation, healthz_operation, readyz_operation,
}

-- The parameter or the body was read, and then this holds of it.
abbrev Read : {A : Type 0} → Outcome A → (A → Type 0) → Type 0
Read (ok a) F = F a
Read (err e) F = ⊥
Read (panic why) F = ⊥

-- What a payload says of the transaction whose ID it has: nothing is said without an ID, the payload of
-- an operation that moves tokens speaks of the account in the path and of the body.
abbrev Silent : Payload → List Call → Type 0
Silent (tx_id id) h' = ⊥
Silent (locked l) h' = ⊥
Silent _ h' = Unit

module _ {B : Type 0} (o : Outcome String) (d : Outcome B) where
  abbrev Moved : (String → B → String → List Call → Type 0) → Payload → List Call → Type 0
  Moved F (tx_id id) h' = Read o (λ who. Read d (λ body. F who body id h'))
  Moved F (locked l) h' = ⊥
  Moved F _ h' = Unit

  abbrev Locked : (String → B → LockPayload → List Call → Type 0) → Payload → List Call → Type 0
  Locked F (locked l) h' = Read o (λ who. Read d (λ body. F who body l h'))
  Locked F (tx_id id) h' = ⊥
  Locked F _ h' = Unit

module _ (h : List Call) {A : Type 0} (f : A → Payload) (F : A → List Call → Type 0)
    (G : Payload → List Call → Type 0) (lift : (a : A) (h' : List Call) → F a h' → G (f a) h') where
  body-OnAnswer :
      (status : ℕ) (b : Body A) (h' : List Call)
      → OnAnswer F (ok (record { status = status; body = b }), h')
      → OnAnswer G (encode f (λ _. (ok (record { status = status; body = b }), h')) h)
  body-OnAnswer status (json message a) h' q = lift a h' q
  body-OnAnswer status (problem p) h' q = tt
  body-OnAnswer status (plain e) h' q = tt

  encode-OnAnswer :
      (r : Outcome (Answer A) × List Call) → OnAnswer F r → OnAnswer G (encode f (λ _. r) h)
  encode-OnAnswer (ok a, h') q = body-OnAnswer a.status a.body h' q
  encode-OnAnswer (err e, h') q = tt
  encode-OnAnswer (panic why, h') q = tt

module _ (h : List Call) {B : Type 0} where
  transferred :
      (o : Outcome String) (d : Outcome B) (F : String → B → String → List Call → Type 0)
      → (handler : String → B → Go Call (Reply String))
      → ((who : String) (body : B) → OnAnswer (F who body) (strict (handler who body) h))
      → OnAnswer (Moved o d F) (bound "id" o (λ who. encode tx_id (strict_body d (handler who))) h)
  unfolding strict_body request_error
  transferred (ok who) (ok body) F handler each =
      encode-OnAnswer h tx_id (F who body) (Moved (ok who) (ok body) F) (λ id h' q. q)
        (strict (handler who body) h) (each who body)
  transferred (ok who) (err e) F handler each = tt
  transferred (ok who) (panic why) F handler each = tt
  transferred (err e) d F handler each = tt
  transferred (panic why) d F handler each = tt

  hash_locked :
      (o : Outcome String) (d : Outcome B) (F : String → B → LockPayload → List Call → Type 0)
      → (handler : String → B → Go Call (Reply LockPayload))
      → ((who : String) (body : B) → OnAnswer (F who body) (strict (handler who body) h))
      → OnAnswer
          (Locked o d F)
          (bound "id" o (λ who. encode locked (strict_body d (handler who))) h)
  unfolding strict_body request_error
  hash_locked (ok who) (ok body) F handler each =
      encode-OnAnswer h locked (F who body) (Locked (ok who) (ok body) F) (λ l h' q. q)
        (strict (handler who body) h) (each who body)
  hash_locked (ok who) (err e) F handler each = tt
  hash_locked (ok who) (panic why) F handler each = tt
  hash_locked (err e) d F handler each = tt
  hash_locked (panic why) d F handler each = tt

module _ (R : Reader) (P : Platform) (iterate : AmountMap → AmountMap) (h : List Call) where
  abbrev account_of : List String → Outcome String
  account_of values = R.bind_path "id" (path_value R P iterate values)

  -- By the operation: the one action that the transaction of an ID in the answer holds.
  abbrev pub Wanted : Operation → List String → Request → Payload → List Call → Type 0
  Wanted transfer values r =
      Moved (account_of values) (R.decode_transfer r.body)
        (λ id body. Pays P h (transfer_options P h id body))
  Wanted redeem values r =
      Moved (account_of values) (R.decode_redeem r.body)
        (λ id body. Burns P h (redeem_options P h id body))
  Wanted claim values r =
      Moved (account_of values) (R.decode_claim r.body)
        (λ id body. Claims P h (claim_options P h id body))
  Wanted reclaim values r =
      Moved (account_of values) (R.decode_reclaim r.body)
        (λ id body. Reclaims P h (reclaim_options P h id body))
  Wanted lock values r =
      Locked (account_of values) (R.decode_lock r.body)
        (λ id body. LocksUntil P h id body (nanoseconds body.deadline))
  Wanted _ values r = Silent

  account_operation-Silent :
      (values : List String) (r : Request)
      → OnAnswer Silent (account_operation R P iterate values r h)
  unfolding account_operation strict_account owner_account balance balances strict request_error
  account_operation-Silent values r = ground arith

  transactions_operation-Silent :
      (values : List String) (r : Request)
      → OnAnswer Silent (transactions_operation R P iterate values r h)
  unfolding transactions_operation strict_transactions owner_transactions get_transactions strict
      request_error
  transactions_operation-Silent values r = ground arith

  operate-Wanted :
      (e : Operation) (values : List String) (r : Request)
      → OnAnswer (Wanted e values r) (operate R P iterate e values r h)
  unfolding operate healthz_operation strict_healthz healthz accounts_operation strict_accounts
      owner_accounts readyz_operation strict_readyz readyz strict claim_operation lock_operation
      reclaim_operation redeem_operation transactions_operation transfer_operation strict_claim
      strict_lock strict_reclaim strict_redeem strict_transfer
  operate-Wanted health values r = tt
  operate-Wanted ready values r = tt
  operate-Wanted accounts values r = tt
  operate-Wanted account values r = account_operation-Silent values r
  operate-Wanted transactions values r = transactions_operation-Silent values r
  operate-Wanted transfer values r =
      transferred h (account_of values) (R.decode_transfer r.body) _ (transfer_tokens P)
        (λ id body. (transfer_tokens-Pays P h id body).1)
  operate-Wanted redeem values r =
      transferred h (account_of values) (R.decode_redeem r.body) _ (redeem_tokens P)
        (λ id body. (redeem_tokens-Burns P h id body).1)
  operate-Wanted claim values r =
      transferred h (account_of values) (R.decode_claim r.body) _ (claim_tokens P)
        (λ id body. (claim_tokens-Claims P h id body).1)
  operate-Wanted reclaim values r =
      transferred h (account_of values) (R.decode_reclaim r.body) _ (reclaim_tokens P)
        (λ id body. (reclaim_tokens-Reclaims P h id body).1)
  operate-Wanted lock values r =
      hash_locked h (account_of values) (R.decode_lock r.body) _ (lock_tokens P)
        (λ id body. (lock_tokens-LocksUntil P h id body).1)

  -- The same by the route that a request takes.
  abbrev pub Served : Target Operation → Request → Payload → List Call → Type 0
  Served (found e values) r = Wanted e values r
  Served method_not_allowed r = Silent
  Served not_found r = Silent

  answer-Served :
      (t : Target Operation) (r : Request)
      → OnAnswer (Served t r) (answer (operate R P iterate) t r h)
  unfolding answer
  answer-Served (found e values) r = operate-Wanted e values r
  answer-Served method_not_allowed r = tt
  answer-Served not_found r = tt

  -- If an owner's server answers a request with a transaction's ID, then the route of the request is one
  -- of the five operations that move tokens, its account and its body were read, and the transaction
  -- holds the one action that this operation asks for, of this account and as the body says: a transfer,
  -- a redemption, a claim, a reclaim or a lock.
  pub serve-Served :
      (r : Request) → OnAnswer (Served (dispatch routes r.method r.path) r) (serve R P iterate r h)
  unfolding serve
  serve-Served r = answer-Served (dispatch routes r.method r.path) r
