-- ===== src/Tokens/Endorser/Server/Initialization.antt =====
-- What a request to an endorser's server does.
use fabric_x_samples.Prelude.{String, List, [], ◌∷◌, ◌≡◌, refl, ℕ}
use fabric_x_samples.Go.{Outcome, ok, err, panic, pure, ◌>>◌}
use fabric_x_samples.Tokens.Types.{Call}
use fabric_x_samples.Tokens.Http.{Answer, Body, json, problem, plain, strict, success}
use fabric_x_samples.Tokens.Http.Mux.{dispatch}
use fabric_x_samples.Tokens.Http.Serving.{answer}
use fabric_x_samples.Tokens.Endorser.{Services, Config, init, init_route}
use fabric_x_samples.Tokens.Endorser.Deployment.{
  AreDeployed, deployments, Stopped, Deploys, init-Deploys,
}
use fabric_x_samples.Tokens.Endorser.Server.{strict_init, init_operation, operate, serve}

module _ (S : Services) (cs : List Config) (h : List Call) where
  abbrev InitializesBody : ℕ → Body (Unit {0}) → List Call → Type 0
  InitializesBody status (json message u) h' =
      (status ≡ 200) × AreDeployed S cs h × (h' ≡ deployments S cs h)
  InitializesBody status (problem p) h' = ⊥
  InitializesBody status (plain e) h' = (status ≡ 500) × Stopped S cs h h'

  -- Status 200 comes with the deployment of every TMS, in order; status 500 (and a panic) with the
  -- deployments of the first ones.
  abbrev pub Initializes : Outcome (Answer (Unit {0})) × List Call → Type 0
  Initializes (ok a, h') = InitializesBody a.status a.body h'
  Initializes (err e, h') = ⊥
  Initializes (panic why, h') = Stopped S cs h h'

  answered-Initializes :
      (r : Outcome (Unit {0}) × List Call)
      → Deploys S cs h r
      → Initializes (strict ((λ (_ : List Call). r) >> pure (success "ok" tt)) h)
  unfolding strict
  answered-Initializes (ok u, h') (all, e) = (refl, all, e)
  answered-Initializes (err x, h') stopped = (refl, stopped)
  answered-Initializes (panic why, h') stopped = stopped

  -- When the services of the node answer, a POST to /endorser/init is answered with status 200, and
  -- then every TMS that is not settled on an EVM chain was deployed with success, in the order of the
  -- configuration and with the file that its configuration names; or with status 500 or by a panic,
  -- and then the calls made are the deployments of the first configurations.
  pub serve-Initializes :
      (query body : String)
      → S.deployer h ≡ ok tt
      → S.config_service h ≡ ok tt
      → S.configurations h ≡ ok cs
      → Initializes (
          serve S
            (record {
              method = "POST";
              path = "endorser" ∷ "init" ∷ [];
              query = query;
              body = body;
            })
            h)
  unfolding serve answer dispatch operate init_operation strict_init init_route
  serve-Initializes query body deployer service configured =
      answered-Initializes (init S h) (init-Deploys S h deployer service configured)
