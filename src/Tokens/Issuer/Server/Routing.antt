-- ===== src/Tokens/Issuer/Server/Routing.antt =====
-- The paths that tokens/swagger.yaml documents for an issuer reach their operations.
use fabric_x_samples.Prelude.{String, List, [], ◌∷◌, ◌≡◌, refl, arith}
use fabric_x_samples.Tokens.Http.Mux.{found, dispatch}
use fabric_x_samples.Tokens.Http.Patterns.{Serves, dispatch_iff}
use fabric_x_samples.Tokens.Issuer.Server.{Operation, health, issue, ready, routes}

-- The method and the path of an operation.
abbrev pub method_of : Operation → String
method_of health = "GET"
method_of issue = "POST"
method_of ready = "GET"

abbrev pub path_of : Operation → List String
path_of health = "healthz" ∷ []
path_of issue = "issuer" ∷ "issue" ∷ []
path_of ready = "readyz" ∷ []

documented-Serves : (e : Operation) → Serves routes (method_of e) (path_of e) e []
documented-Serves health = ground arith
documented-Serves issue = ground arith
documented-Serves ready = ground arith

pub dispatch-path_of : (e : Operation) → dispatch routes (method_of e) (path_of e) ≡ found e []
dispatch-path_of e =
    (dispatch_iff routes (method_of e) (path_of e) [] e refl).1 (documented-Serves e)
