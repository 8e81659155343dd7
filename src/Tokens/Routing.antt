-- ===== src/Tokens/Routing.antt =====
-- tokens/swagger.yaml and the three generated servers: every documented operation is reachable.
use fabric_x_samples.Prelude.{String, [], ◌≡◌, ◌≢◌}
use fabric_x_samples.Tokens.Http.Mux.{found, dispatch}
use fabric_x_samples.Tokens.Owner.Server
use fabric_x_samples.Tokens.Owner.Server.Routing as Owned
use fabric_x_samples.Tokens.Issuer.Server as Issuing
use fabric_x_samples.Tokens.Issuer.Server.Routing as Issued
use fabric_x_samples.Tokens.Endorser.Server as Endorsing
use fabric_x_samples.Tokens.Endorser.Server.Routing as Endorsed

-- At all three servers, the method and the path that are documented for an operation reach that
-- operation, with the account of the path, which is not empty.
pub dispatch-documented :
    (id : String)
    → id ≢ ""
    → ((e : Server.Operation)
        → dispatch Server.routes (Owned.method_of e) (Owned.path_of e id)
          ≡ found e (Owned.values_of e id))
      × ((e : Issuing.Operation)
          → dispatch Issuing.routes (Issued.method_of e) (Issued.path_of e) ≡ found e [])
      × ((e : Endorsing.Operation)
          → dispatch Endorsing.routes (Endorsed.method_of e) (Endorsed.path_of e) ≡ found e [])
dispatch-documented id named =
    (λ e. Owned.dispatch-path_of e id named, Issued.dispatch-path_of, Endorsed.dispatch-path_of)
