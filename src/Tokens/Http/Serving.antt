-- ===== src/Tokens/Http/Serving.antt =====
-- What the generated servers of tokens/*/routes/routes.gen.go share: requests, the payloads of several
-- operations as one type, and the answers of `http.ServeMux` itself.
use fabric_x_samples.Prelude.{String, List}
use fabric_x_samples.Go.{Error, Go, pure, ◌>>=◌}
use fabric_x_samples.Tokens.Types.{Call}
use fabric_x_samples.Tokens.Http.{Answer, Body, json, problem, plain}
use fabric_x_samples.Tokens.Http.Mux.{Segment, Route, Target, found, method_not_allowed, not_found}

-- A request: the unescaped segments of its path, its query and its body as texts.
pub record Request : Type 0 where
  pub method : String
  pub path : List String
  pub query : String
  pub body : String

-- One call of `m.HandleFunc`.
abbrev pub route : {E : Type 0} → String → List Segment → E → Route E
route method pattern operation = record {
  method = method;
  pattern = pattern;
  operation = operation;
}

abbrev encode_body : {A B : Type 0} → (A → B) → Body A → Body B
encode_body f (json message a) = json message (f a)
encode_body f (problem p) = problem p
encode_body f (plain e) = plain e

-- The answer of an operation, with its payload put into the type of all payloads.
abbrev pub encode : {A B : Type 0} → (A → B) → Go Call (Answer A) → Go Call (Answer B)
encode f m = m >>= λ a. pure (record { status = a.status; body = encode_body f a.body })

-- What the mux makes of a request.
unfoldable pub answer :
    {E A : Type 0}
    → (E → List String → Request → Go Call (Answer A))
    → Target E
    → Request
    → Go Call (Answer A)
answer operate (found operation values) r = operate operation values r
answer operate method_not_allowed r =
    pure (record { status = 405; body = plain (Error.message "Method Not Allowed") })
answer operate not_found r =
    pure (record { status = 404; body = plain (Error.message "404 page not found") })
