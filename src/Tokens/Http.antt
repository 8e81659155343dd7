-- ===== src/Tokens/Http.antt =====
-- The generated server code of tokens/*/routes/routes.gen.go: what a strict handler writes to the
-- client for what a method of the server returned. Encoding a reply as JSON does not fail here.
pub mod Mux
pub mod Patterns
pub mod Serving
pub mod Cors
pub mod Tells
pub mod Reports
pub mod Together
use fabric_x_samples.Prelude.{ℕ, String}
use fabric_x_samples.Go.{Error, Outcome, ok, err, panic, Go, crash, pure}
use fabric_x_samples.Tokens.Types.{Call}

-- `Error` of the API
pub record Problem : Type 0 where
  pub message : String
  pub payload : String

-- A response object: the one for status 200, with its message and payload, or the default one, with
-- a status of its own.
pub data Reply (A : Type 0) : Type 0 where
  success : String → A → Reply A
  default_reply : Problem → ℕ → Reply A

pub data Body (A : Type 0) : Type 0 where
  json : String → A → Body A
  problem : Problem → Body A
  plain : Error → Body A

pub record Answer (A : Type 0) : Type 0 where
  pub status : ℕ
  pub body : Body A

module _ {A : Type 0} where
  -- `VisitLockResponse` and the like
  unfoldable pub visit : Reply A → Answer A
  visit (success message payload) = record { status = 200; body = json message payload }
  visit (default_reply p code) = record { status = code; body = problem p }

  -- `ResponseErrorHandlerFunc` and `RequestErrorHandlerFunc` of `NewStrictHandler`
  unfoldable pub response_error : Error → Answer A
  response_error e = record { status = 500; body = plain e }

  unfoldable pub request_error : Error → Answer A
  request_error e = record { status = 400; body = plain e }

  -- A handler of a request without a body.
  unfoldable pub strict : Go Call (Reply A) → Go Call (Answer A)
  unfolding visit response_error
  strict handler h =
      let (r, h') = handler h in
      elim r [
        | ok reply ↦ (ok (visit reply), h')
        | err e ↦ (ok (response_error e), h')
        | panic why ↦ (panic why, h')
      ]

  -- A handler of a request whose body is decoded first.
  unfoldable pub strict_body :
      {B : Type 0} → Outcome B → (B → Go Call (Reply A)) → Go Call (Answer A)
  unfolding strict request_error
  strict_body (ok body) handler = strict (handler body)
  strict_body (err e) handler = pure (request_error (Error.wrap "can't decode JSON body" e))
  strict_body (panic why) handler = crash why
