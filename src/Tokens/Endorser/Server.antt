-- ===== src/Tokens/Endorser/Server.antt =====
-- tokens/endorser/routes/routes.gen.go: the HTTP server of an endorser, from a request to its answer.
-- No operation of it has a parameter, a body or a payload.
pub mod Initialization
pub mod Routing
use fabric_x_samples.Prelude.{List, [], ◌∷◌, String}
use fabric_x_samples.Go.{Go}
use fabric_x_samples.Tokens.Types.{Call}
use fabric_x_samples.Tokens.Http.{Answer, strict}
use fabric_x_samples.Tokens.Http.Mux.{literal, Route, dispatch}
use fabric_x_samples.Tokens.Http.Serving.{Request, route, answer}
use fabric_x_samples.Tokens.Endorser.{Services, init_route, healthz, readyz}

pub data Operation : Type 0 where
  initialize health ready : Operation

-- The patterns of `HandlerWithOptions`.
abbrev pub routes : List (Route Operation)
routes =
    route "POST" (literal "endorser" ∷ literal "init" ∷ []) initialize
    ∷ route "GET" (literal "healthz" ∷ []) health
    ∷ route "GET" (literal "readyz" ∷ []) ready
    ∷ []

module _ (S : Services) where
  unfoldable pub strict_init : Go Call (Answer (Unit {0}))
  unfolding strict init_route
  strict_init = strict (init_route S)

  unfoldable pub strict_healthz : Go Call (Answer (Unit {0}))
  unfolding strict healthz
  strict_healthz = strict (healthz S)

  unfoldable pub strict_readyz : Go Call (Answer (Unit {0}))
  unfolding strict readyz
  strict_readyz = strict (readyz S)

  -- The wrappers.
  unfoldable pub init_operation : List String → Request → Go Call (Answer (Unit {0}))
  init_operation values r = strict_init

  unfoldable pub healthz_operation : List String → Request → Go Call (Answer (Unit {0}))
  healthz_operation values r = strict_healthz

  unfoldable pub readyz_operation : List String → Request → Go Call (Answer (Unit {0}))
  readyz_operation values r = strict_readyz

  -- The handler of each operation, as `HandlerWithOptions` registers it.
  unfoldable pub operate : Operation → List String → Request → Go Call (Answer (Unit {0}))
  operate initialize = init_operation
  operate health = healthz_operation
  operate ready = readyz_operation

  -- `ServeHTTP` of the handler that `HandlerFromMux` returns.
  unfoldable pub serve : Request → Go Call (Answer (Unit {0}))
  unfolding answer operate
  serve r = answer operate (dispatch routes r.method r.path) r
