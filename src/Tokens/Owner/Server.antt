-- ===== src/Tokens/Owner/Server.antt =====
-- tokens/owner/routes/routes.gen.go: the HTTP server of an owner, from a request to its answer. Each
-- operation has a strict handler (`strictHandler`) and a wrapper that binds the request's parameters
-- (`ServerInterfaceWrapper`); no middleware is given to either.
pub mod Routing
pub mod Ledger
pub mod Life
pub mod Moves
use fabric_x_samples.Prelude.{String, Option, none, some, List, [], ◌∷◌, ◌<>◌}
use fabric_x_samples.Go.{Error, Outcome, ok, err, panic, Go, pure, crash, ◌>>=◌}
use fabric_x_samples.Tokens.Types.{Call}
use fabric_x_samples.Tokens.Platform.{Platform}
use fabric_x_samples.Tokens.Http.{
  Answer, Body, json, problem, plain, request_error, strict, strict_body,
}
use fabric_x_samples.Tokens.Http.Serving.{Request, route, encode, answer}
use fabric_x_samples.Tokens.Http.Mux.{
  Segment, literal, wildcard, Route, Target, found, method_not_allowed, not_found, dispatch,
}
use fabric_x_samples.Tokens.Owner.Balances.{AmountMap}
use fabric_x_samples.Tokens.Owner.Routes.{
  owner_accounts, owner_account, redeem_tokens, owner_transactions, transfer_tokens, lock_tokens,
  claim_tokens, reclaim_tokens, healthz, readyz,
}
use fabric_x_samples.Tokens.Owner.Routes.Requests.{
  Account, AccountParams, RedeemRequest, TransferRequest, LockRequest, LockPayload, ClaimRequest,
  ReclaimRequest, Record,
}

-- The libraries that read parameters and JSON: `BindStyledParameterWithOptions` and
-- `BindQueryParameter`, by the parameter's name, and `json.Decoder.Decode` into each kind of body.
pub record Reader : Type 0 where
  pub bind_path : String → String → Outcome String
  pub bind_query : String → String → Outcome (Option String)
  pub decode_claim : String → Outcome ClaimRequest
  pub decode_lock : String → Outcome LockRequest
  pub decode_reclaim : String → Outcome ReclaimRequest
  pub decode_redeem : String → Outcome RedeemRequest
  pub decode_transfer : String → Outcome TransferRequest

pub data Operation : Type 0 where
  health accounts account claim lock reclaim redeem transactions transfer ready : Operation

-- The payloads of the operations, as one type.
pub data Payload : Type 0 where
  nothing : Payload
  all_accounts : List Account → Payload
  one_account : Account → Payload
  records : List Record → Payload
  tx_id : String → Payload
  locked : LockPayload → Payload

-- `BindStyledParameterWithOptions(…)` and `BindQueryParameter(…)`, each with `if err != nil { … }`
abbrev pub bound :
    {A B : Type 0} → String → Outcome B → (B → Go Call (Answer A)) → Go Call (Answer A)
bound name (ok b) rest = rest b
bound name (err e) rest =
    pure (request_error (Error.wrap ("Invalid format for parameter " <> name) e))
bound name (panic why) rest = crash why

abbrev under_accounts : List Segment → List Segment
under_accounts rest = literal "owner" ∷ literal "accounts" ∷ rest

abbrev of_account : String → List Segment
of_account verb = under_accounts (wildcard ∷ literal verb ∷ [])

-- The patterns of `HandlerWithOptions`.
abbrev pub routes : List (Route Operation)
routes =
    route "GET" (literal "healthz" ∷ []) health
    ∷ route "GET" (under_accounts []) accounts
    ∷ route "GET" (under_accounts (wildcard ∷ [])) account
    ∷ route "POST" (of_account "claim") claim
    ∷ route "POST" (of_account "lock") lock
    ∷ route "POST" (of_account "reclaim") reclaim
    ∷ route "POST" (of_account "redeem") redeem
    ∷ route "GET" (of_account "transactions") transactions
    ∷ route "POST" (of_account "transfer") transfer
    ∷ route "GET" (literal "readyz" ∷ []) ready
    ∷ []

module _ (R : Reader) (P : Platform) (iterate : AmountMap → AmountMap) where
  unfoldable pub strict_healthz : Go Call (Answer Payload)
  unfolding strict healthz
  strict_healthz = encode (λ _. nothing) (strict (healthz P))

  unfoldable pub strict_accounts : Go Call (Answer Payload)
  unfolding strict owner_accounts
  strict_accounts = encode all_accounts (strict (owner_accounts P))

  unfoldable pub strict_account : String → AccountParams → Go Call (Answer Payload)
  unfolding strict
  strict_account id params = encode one_account (strict (owner_account P iterate id params))

  unfoldable pub strict_claim : String → String → Go Call (Answer Payload)
  unfolding strict_body
  strict_claim id body = encode tx_id (strict_body (R.decode_claim body) (claim_tokens P id))

  unfoldable pub strict_lock : String → String → Go Call (Answer Payload)
  unfolding strict_body
  strict_lock id body = encode locked (strict_body (R.decode_lock body) (lock_tokens P id))

  unfoldable pub strict_reclaim : String → String → Go Call (Answer Payload)
  unfolding strict_body
  strict_reclaim id body = encode tx_id (strict_body (R.decode_reclaim body) (reclaim_tokens P id))

  unfoldable pub strict_redeem : String → String → Go Call (Answer Payload)
  unfolding strict_body
  strict_redeem id body = encode tx_id (strict_body (R.decode_redeem body) (redeem_tokens P id))

  unfoldable pub strict_transactions : String → Go Call (Answer Payload)
  unfolding strict
  strict_transactions id = encode records (strict (owner_transactions P id))

  unfoldable pub strict_transfer : String → String → Go Call (Answer Payload)
  unfolding strict_body
  strict_transfer id body =
      encode tx_id (strict_body (R.decode_transfer body) (transfer_tokens P id))

  unfoldable pub strict_readyz : Go Call (Answer Payload)
  unfolding strict readyz
  strict_readyz = encode (λ _. nothing) (strict (readyz P))

  -- `r.PathValue("id")`
  abbrev pub path_value : List String → String
  path_value [] = ""
  path_value (v ∷ values) = v

  -- The wrappers, on the values of the path and the request.
  unfoldable pub healthz_operation : List String → Request → Go Call (Answer Payload)
  healthz_operation values r = strict_healthz

  unfoldable pub accounts_operation : List String → Request → Go Call (Answer Payload)
  accounts_operation values r = strict_accounts

  unfoldable pub account_operation : List String → Request → Go Call (Answer Payload)
  account_operation values r = bound "id" (R.bind_path "id" (path_value values)) λ id.
      bound "code" (R.bind_query "code" r.query) λ code.
        bound "network" (R.bind_query "network" r.query) λ network.
          bound "channel" (R.bind_query "channel" r.query) λ channel.
            bound "namespace" (R.bind_query "namespace" r.query) λ namespace.
              strict_account id (record {
                code = code;
                network = network;
                channel = channel;
                namespace = namespace;
              })

  unfoldable pub claim_operation : List String → Request → Go Call (Answer Payload)
  claim_operation values r =
      bound "id" (R.bind_path "id" (path_value values)) λ id. strict_claim id r.body

  unfoldable pub lock_operation : List String → Request → Go Call (Answer Payload)
  lock_operation values r =
      bound "id" (R.bind_path "id" (path_value values)) λ id. strict_lock id r.body

  unfoldable pub reclaim_operation : List String → Request → Go Call (Answer Payload)
  reclaim_operation values r =
      bound "id" (R.bind_path "id" (path_value values)) λ id. strict_reclaim id r.body

  unfoldable pub redeem_operation : List String → Request → Go Call (Answer Payload)
  redeem_operation values r =
      bound "id" (R.bind_path "id" (path_value values)) λ id. strict_redeem id r.body

  unfoldable pub transactions_operation : List String → Request → Go Call (Answer Payload)
  transactions_operation values r =
      bound "id" (R.bind_path "id" (path_value values)) λ id. strict_transactions id

  unfoldable pub transfer_operation : List String → Request → Go Call (Answer Payload)
  transfer_operation values r =
      bound "id" (R.bind_path "id" (path_value values)) λ id. strict_transfer id r.body

  unfoldable pub readyz_operation : List String → Request → Go Call (Answer Payload)
  readyz_operation values r = strict_readyz

  -- The handler of each operation, as `HandlerWithOptions` registers it.
  unfoldable pub operate : Operation → List String → Request → Go Call (Answer Payload)
  operate health = healthz_operation
  operate accounts = accounts_operation
  operate account = account_operation
  operate claim = claim_operation
  operate lock = lock_operation
  operate reclaim = reclaim_operation
  operate redeem = redeem_operation
  operate transactions = transactions_operation
  operate transfer = transfer_operation
  operate ready = readyz_operation

  -- `ServeHTTP` of the handler that `HandlerFromMux` returns.
  unfoldable pub serve : Request → Go Call (Answer Payload)
  unfolding answer operate
  serve r = answer operate (dispatch routes r.method r.path) r
