-- ===== src/Tokens/Owner/Server/Routing.antt =====
-- Where requests go: the paths that tokens/swagger.yaml documents reach their operations.
use fabric_x_samples.Prelude.{String, List, [], ◌∷◌, ◌≡◌, ◌≢◌, ◌↔◌, refl, arith}
use fabric_x_samples.Tokens.Http.Mux.{found, dispatch}
use fabric_x_samples.Tokens.Http.Patterns.{Serves, dispatch_iff}
use fabric_x_samples.Tokens.Owner.Server.{
  Operation, health, accounts, account, claim, lock, reclaim, redeem, transactions, transfer, ready,
  routes,
}

-- The method and the path of an operation, for an account.
abbrev pub method_of : Operation → String
method_of health = "GET"
method_of accounts = "GET"
method_of account = "GET"
method_of claim = "POST"
method_of lock = "POST"
method_of reclaim = "POST"
method_of redeem = "POST"
method_of transactions = "GET"
method_of transfer = "POST"
method_of ready = "GET"

abbrev pub path_of : Operation → String → List String
path_of health id = "healthz" ∷ []
path_of accounts id = "owner" ∷ "accounts" ∷ []
path_of account id = "owner" ∷ "accounts" ∷ id ∷ []
path_of claim id = "owner" ∷ "accounts" ∷ id ∷ "claim" ∷ []
path_of lock id = "owner" ∷ "accounts" ∷ id ∷ "lock" ∷ []
path_of reclaim id = "owner" ∷ "accounts" ∷ id ∷ "reclaim" ∷ []
path_of redeem id = "owner" ∷ "accounts" ∷ id ∷ "redeem" ∷ []
path_of transactions id = "owner" ∷ "accounts" ∷ id ∷ "transactions" ∷ []
path_of transfer id = "owner" ∷ "accounts" ∷ id ∷ "transfer" ∷ []
path_of ready id = "readyz" ∷ []

abbrev pub values_of : Operation → String → List String
values_of health id = []
values_of accounts id = []
values_of ready id = []
values_of account id = id ∷ []
values_of claim id = id ∷ []
values_of lock id = id ∷ []
values_of reclaim id = id ∷ []
values_of redeem id = id ∷ []
values_of transactions id = id ∷ []
values_of transfer id = id ∷ []

-- An operation is found exactly by the requests that one of its routes fits: no two routes overlap.
pub dispatch-routes_iff :
    (method : String) (path values : List String) (e : Operation)
    → (dispatch routes method path ≡ found e values) ↔ Serves routes method path e values
dispatch-routes_iff method path values e = dispatch_iff routes method path values e refl

documented-Serves :
    (e : Operation) (id : String)
    → id ≢ ""
    → Serves routes (method_of e) (path_of e id) e (values_of e id)
documented-Serves health id named = ground arith
documented-Serves accounts id named = ground arith
documented-Serves account id named = ground arith
documented-Serves claim id named = ground arith
documented-Serves lock id named = ground arith
documented-Serves reclaim id named = ground arith
documented-Serves redeem id named = ground arith
documented-Serves transactions id named = ground arith
documented-Serves transfer id named = ground arith
documented-Serves ready id named = ground arith

-- The method and the path that are documented for an operation reach that operation, with the account
-- of the path, if it is not empty.
pub dispatch-path_of :
    (e : Operation) (id : String)
    → id ≢ ""
    → dispatch routes (method_of e) (path_of e id) ≡ found e (values_of e id)
dispatch-path_of e id named =
    (dispatch-routes_iff (method_of e) (path_of e id) (values_of e id) e).1
      (documented-Serves e id named)
