-- ===== src/Tokens/Endorser.antt =====
-- tokens/endorser: service/fsc.go, which commits the public parameters of every TMS, and the REST
-- server of routes/routes.go.
pub mod Deployment
pub mod Server
use fabric_x_samples.Prelude.{String, Bool, List, [], ◌∷◌, ◌==◌, if◌then◌else◌}
use fabric_x_samples.Go.{Error, Outcome, Go, pure, throw, ask, peek, wrapping, ◌>>=◌, ◌>>◌}
use fabric_x_samples.Tokens.Types.{TmsId, Call}
use fabric_x_samples.Tokens.Http.{Reply, success}

-- The configuration of a TMS, as far as `Init` reads it.
pub record Config : Type 0 where
  pub id : TmsId
  pub is_evm : Bool
  pub public_parameters_path : String

-- The deployer, the configuration service and the file system.
pub record Services : Type 0 where
  pub deployer : List Call → Outcome (Unit {0})
  pub config_service : List Call → Outcome (Unit {0})
  pub configurations : List Call → Outcome (List Config)
  pub translate_path : Config → String → String
  pub read_file : List Call → String → Outcome String
  pub deploy : List Call → TmsId → String → Outcome (Unit {0})

module _ (S : Services) where
  -- The body of the loop, behind the test for an EVM chain.
  unfoldable pub deploy_config : Config → Go Call (Unit {0})
  deploy_config c =
      if c.public_parameters_path == ""
      then throw (Error.message "no publicParameters.path configured")
      else (do
        pp ←
            wrapping "failed reading public parameters"
              (peek (λ h. S.read_file h (S.translate_path c c.public_parameters_path)))
        wrapping "failed deploying TMS" (ask (Call.deploy_tms c.id pp) (λ h. S.deploy h c.id pp)))

  -- The loop over the configurations; it stops at the first error.
  unfoldable pub deploy_all : List Config → Go Call (Unit {0})
  deploy_all [] = pure tt
  deploy_all (c ∷ configs) = do if c.is_evm then pure tt else deploy_config c; deploy_all configs

  -- `FabricSmartClient.Init`
  unfoldable pub init : Go Call (Unit {0})
  unfolding deploy_all deploy_config
  init = do
    peek S.deployer
    wrapping "failed getting token config service" (peek S.config_service)
    configs ← wrapping "failed loading TMS configurations" (peek S.configurations)
    deploy_all configs

  -- `Server.Init`
  unfoldable pub init_route : Go Call (Reply (Unit {0}))
  unfolding init
  init_route = do init; pure (success "ok" tt)

  unfoldable pub healthz : Go Call (Reply (Unit {0}))
  healthz = pure (success "ok" tt)

  unfoldable pub readyz : Go Call (Reply (Unit {0}))
  readyz = pure (success "ok" tt)
