-- ===== src/Tokens/Node/Sdk.antt =====
-- tokens/common/sdk_3.go, sdk_x.go, sdk_evm_driver.go, sdk_evm_fabric.go and sdk_x_evm.go: what the SDK of
-- each build gives to its container and when the SDK below it is installed.
pub mod Joins
pub mod Installs
use fabric_x_samples.Prelude.{String, List, [], ◌∷◌, ◌++◌}
use fabric_x_samples.Go.{Error, Outcome, ok, err, panic, Go, pure, throw, ask, ◌>>=◌, ◌>>◌}

-- The calls on the container: `sdk.RegisterTokenDriverDependencies`, `Provide` with a constructor and the
-- group or the interface it is for, `p.SDK.Install()` and `digutils.Register`.
pub data Wiring : Type 0 where
  driver_dependencies : Wiring
  provide : String → String → Wiring
  install_base : Wiring
  register : String → Wiring

-- The container, as a parameter.
pub record Container : Type 0 where
  pub answer : List Wiring → Wiring → Outcome (Unit {0})

-- The builds, by their tags.
pub data Build : Type 0 where
  fabric3 evm fabricx xevm : Build

module _ (K : Container) where
  abbrev pub call : Wiring → Go Wiring (Unit {0})
  call w = ask w (λ h. K.answer h w)

  -- The error of a call, if there is one.
  abbrev pub attempt : Go Wiring (Unit {0}) → Go Wiring (List Error)
  attempt m h =
      let (r, h') = m h in
      elim r [ ok u ↦ (ok [], h') | err e ↦ (ok (e ∷ []), h') | panic why ↦ (panic why, h') ]

  unfoldable pub attempts : List (Go Wiring (Unit {0})) → Go Wiring (List Error)
  attempts [] = pure []
  attempts (m ∷ ms) = do e ← attempt m; es ← attempts ms; pure (e ++ es)

  abbrev joined : Error → List Error → Error
  joined e [] = e
  joined e (f ∷ fs) = Error.cause e (joined f fs)

  abbrev pub fail : List Error → Go Wiring (Unit {0})
  fail [] = pure tt
  fail (e ∷ es) = throw (joined e es)

  -- `errors.Join(…)`: its arguments are all called first, and it is nil if all of them are.
  unfoldable pub join : List (Go Wiring (Unit {0})) → Go Wiring (Unit {0})
  unfolding attempts
  join ms = do es ← attempts ms; fail es

  -- `provideEVMDriver`
  unfoldable pub provide_evm_driver : Go Wiring (Unit {0})
  unfolding join
  provide_evm_driver = join (
      call (
        provide "digutils.Identity[*ftscore.TokenDriverService]"
          "endorsement.PublicParamsValidator")
      ∷ call (provide "evm.NewDriver" "network-drivers")
      ∷ [])

  -- `SDK.Install` of sdk_3.go
  unfoldable pub install_fabric3 : Go Wiring (Unit {0})
  unfolding join
  install_fabric3 = do
    join (
        call driver_dependencies
        ∷ call (provide "fabric.NewGenericDriver" "network-drivers")
        ∷ call (provide "dlog.NewTokenDriver" "token-drivers")
        ∷ call (provide "dlog.NewValidatorDriver" "validator-drivers")
        ∷ [])
    call install_base

  -- `SDK.Install` of sdk_evm_fabric.go
  unfoldable pub install_evm : Go Wiring (Unit {0})
  unfolding join provide_evm_driver
  install_evm = do
    join (
        call driver_dependencies
        ∷ call (provide "fabric.NewGenericDriver" "network-drivers")
        ∷ provide_evm_driver
        ∷ call (provide "dlog.NewTokenDriver" "token-drivers")
        ∷ call (provide "dlog.NewValidatorDriver" "validator-drivers")
        ∷ [])
    call install_base

  -- `err = errors.Join(err, provide(…))` for each of the extra network drivers
  unfoldable pub join_extra :
      List (Go Wiring (Unit {0})) → Go Wiring (Unit {0}) → Go Wiring (Unit {0})
  unfolding join
  join_extra [] m = m
  join_extra (driver ∷ drivers) m = join_extra drivers (join (m ∷ driver ∷ []))

  -- `SDK.Install` of sdk_x.go, by `extraNetworkDrivers`
  unfoldable pub install_with : List (Go Wiring (Unit {0})) → Go Wiring (Unit {0})
  unfolding join join_extra
  install_with extra_network_drivers = do
    join_extra extra_network_drivers (
        join (
          call driver_dependencies
          ∷ call (provide "dlog.NewTokenDriver" "token-drivers")
          ∷ call (provide "dlog.NewValidatorDriver" "validator-drivers")
          ∷ call (provide "fabricx.NewDriver" "network-drivers")
          ∷ call (provide "tms.NewSubmitterFromFNS" "tms.Submitter")
          ∷ call (provide "tms.NewTMSDeployerService" "tms.DeployerService")
          ∷ call (provide "pp.NewPublicParametersService" "")
          ∷ call (provide "digutils.Identity[*pp.PublicParametersService]" "pp.Loader")
          ∷ []))
    call install_base
    join (
        call (register "state.VaultService")
        ∷ call (register "tms.DeployerService")
        ∷ call (register "pp.Loader")
        ∷ [])

  -- The installation of a build. `init` of sdk_x_evm.go appends the driver for EVM chains to the extra
  -- network drivers.
  unfoldable pub install : Build → Go Wiring (Unit {0})
  unfolding install_fabric3 install_evm install_with provide_evm_driver
  install fabric3 = install_fabric3
  install evm = install_evm
  install fabricx = install_with []
  install xevm = install_with (provide_evm_driver ∷ [])
