-- ===== src/Tokens/Issuer/Server.antt =====
-- tokens/issuer/routes/routes.gen.go: the HTTP server of an issuer, from a request to its answer.
pub mod Ledger
pub mod Routing
use fabric_x_samples.Prelude.{String, List, [], ◌∷◌, some}
use fabric_x_samples.Go.{Outcome, Go}
use fabric_x_samples.Tokens.Types.{Call}
use fabric_x_samples.Tokens.Platform.{Platform}
use fabric_x_samples.Tokens.Http.{Answer, strict, strict_body}
use fabric_x_samples.Tokens.Http.Mux.{literal, Route, dispatch}
use fabric_x_samples.Tokens.Http.Serving.{Request, route, encode, answer}
use fabric_x_samples.Tokens.Issuer.{IssueRequest, issue_tokens, healthz, readyz}

pub data Operation : Type 0 where
  health issue ready : Operation

-- The payloads of the operations, as one type.
pub data Payload : Type 0 where
  nothing : Payload
  tx_id : String → Payload

-- The patterns of `HandlerWithOptions`.
abbrev pub routes : List (Route Operation)
routes =
    route "GET" (literal "healthz" ∷ []) health
    ∷ route "POST" (literal "issuer" ∷ literal "issue" ∷ []) issue
    ∷ route "GET" (literal "readyz" ∷ []) ready
    ∷ []

-- `decode` is `json.Decoder.Decode` into the body of a request to issue.
module _ (decode : String → Outcome IssueRequest) (P : Platform) where
  unfoldable pub strict_healthz : Go Call (Answer Payload)
  unfolding strict healthz
  strict_healthz = encode (λ _. nothing) (strict (healthz P))

  unfoldable pub strict_issue : String → Go Call (Answer Payload)
  unfolding strict_body
  strict_issue body = encode tx_id (strict_body (decode body) (λ b. issue_tokens P (some b)))

  unfoldable pub strict_readyz : Go Call (Answer Payload)
  unfolding strict readyz
  strict_readyz = encode (λ _. nothing) (strict (readyz P))

  -- The wrappers; none of them binds a parameter.
  unfoldable pub healthz_operation : List String → Request → Go Call (Answer Payload)
  healthz_operation values r = strict_healthz

  unfoldable pub issue_operation : List String → Request → Go Call (Answer Payload)
  issue_operation values r = strict_issue r.body

  unfoldable pub readyz_operation : List String → Request → Go Call (Answer Payload)
  readyz_operation values r = strict_readyz

  -- The handler of each operation, as `HandlerWithOptions` registers it.
  unfoldable pub operate : Operation → List String → Request → Go Call (Answer Payload)
  operate health = healthz_operation
  operate issue = issue_operation
  operate ready = readyz_operation

  -- `ServeHTTP` of the handler that `HandlerFromMux` returns.
  unfoldable pub serve : Request → Go Call (Answer Payload)
  unfolding answer operate
  serve r = answer operate (dispatch routes r.method r.path) r
