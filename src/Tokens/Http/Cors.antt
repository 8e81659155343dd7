-- ===== src/Tokens/Http/Cors.antt =====
-- tokens/common/fsc.go: `WithAnyCORS`, which every node puts around its routes.
use fabric_x_samples.Prelude.{ℕ, String, Option, none, some, List, [], ◌∷◌, ◌==◌, if◌then◌else◌}
use fabric_x_samples.Go.{Go, pure, ◌>>=◌}
use fabric_x_samples.Tokens.Types.{Call}
use fabric_x_samples.Tokens.Http.{Answer, Body}
use fabric_x_samples.Tokens.Http.Serving.{Request}

-- What is written to a client: the headers that `WithAnyCORS` sets, the status, and a body if there is
-- one.
pub record Response (A : Type 0) : Type 0 where
  pub headers : List (String × String)
  pub status : ℕ
  pub body : Option (Body A)

abbrev pub cors_headers : List (String × String)
cors_headers =
    ("Access-Control-Allow-Origin", "*")
    ∷ ("Access-Control-Allow-Methods", "GET, POST, PUT, DELETE, OPTIONS")
    ∷ ("Access-Control-Allow-Headers", "Content-Type, Authorization")
    ∷ []

-- `WithAnyCORS`
unfoldable pub with_any_cors :
    {A : Type 0} → (Request → Go Call (Answer A)) → Request → Go Call (Response A)
with_any_cors next r =
    if r.method == "OPTIONS"
    then pure (record { headers = cors_headers; status = 204; body = none })
    else (do
      a ← next r
      pure (record { headers = cors_headers; status = a.status; body = some a.body }))
