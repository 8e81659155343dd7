-- ===== src/Tokens/Node/Sdk/Installs.antt =====
-- What the installation of each build provides.
use fabric_x_samples.Prelude.{List, [], ◌∷◌, ◌++◌, ◌≡◌, ◌≢◌, ◌⊎◌, inl, inr, refl, arith, subst}
use fabric_x_samples.Go.{Outcome, ok, err, panic, Go, ◌>>◌}
use fabric_x_samples.Tokens.Node.Sdk.{
  Wiring, driver_dependencies, provide, install_base, register, Container, Build, fabric3, evm,
  fabricx, xevm, call, provide_evm_driver, join_extra, install_fabric3, install_evm, install_with,
  install,
}
use fabric_x_samples.Tokens.Node.Sdk.Joins.{
  called, AllSucceed, Joins, IsJoin, join-IsJoin, call-IsJoin, nil-AreAttempts, cons-AreAttempts,
  calls, calls-AreAttempts,
}

abbrev drivers : List Wiring
drivers =
    provide "dlog.NewTokenDriver" "token-drivers"
    ∷ provide "dlog.NewValidatorDriver" "validator-drivers"
    ∷ []

abbrev evm_driver : List Wiring
evm_driver =
    provide "digutils.Identity[*ftscore.TokenDriverService]" "endorsement.PublicParamsValidator"
    ∷ provide "evm.NewDriver" "network-drivers"
    ∷ []

abbrev fabric_x_services : List Wiring
fabric_x_services =
    provide "fabricx.NewDriver" "network-drivers"
    ∷ provide "tms.NewSubmitterFromFNS" "tms.Submitter"
    ∷ provide "tms.NewTMSDeployerService" "tms.DeployerService"
    ∷ provide "pp.NewPublicParametersService" ""
    ∷ provide "digutils.Identity[*pp.PublicParametersService]" "pp.Loader"
    ∷ []

abbrev generic_driver : List Wiring
generic_driver = provide "fabric.NewGenericDriver" "network-drivers" ∷ []

-- What the SDK of a build provides before the SDK below it is installed, and what it registers after.
abbrev pub provided : Build → List Wiring
provided fabric3 = driver_dependencies ∷ generic_driver ++ drivers
provided evm = driver_dependencies ∷ generic_driver ++ evm_driver ++ drivers
provided fabricx = driver_dependencies ∷ drivers ++ fabric_x_services
provided xevm = driver_dependencies ∷ drivers ++ fabric_x_services ++ evm_driver

abbrev pub registered : Build → List Wiring
registered fabric3 = []
registered evm = []
registered fabricx =
    register "state.VaultService" ∷ register "tms.DeployerService" ∷ register "pp.Loader" ∷ []
registered xevm =
    register "state.VaultService" ∷ register "tms.DeployerService" ∷ register "pp.Loader" ∷ []

module _ (K : Container) where
  -- How the part behind the join ends: the SDK below is installed, and then the services registered.
  abbrev Finishes : List Wiring → List Wiring → Outcome (Unit {0}) × List Wiring → Type 0
  Finishes ws h (ok u, h') =
      AllSucceed K (install_base ∷ ws) h × (h' ≡ called (install_base ∷ ws) h)
  Finishes ws h (err e, h') =
      ((K.answer h install_base ≢ ok tt) × (h' ≡ install_base ∷ h))
      ⊎ ((K.answer h install_base ≡ ok tt)
          × (¬ AllSucceed K ws (install_base ∷ h))
          × (h' ≡ called ws (install_base ∷ h)))
  Finishes ws h (panic why, h') = Unit

  -- An installation makes every call of the first list. If one of them fails, it ends there with an
  -- error.
  abbrev pub Installs :
      List Wiring → List Wiring → List Wiring → Outcome (Unit {0}) × List Wiring → Type 0
  Installs ws vs h (ok u, h') = AllSucceed K ws h × Finishes vs (called ws h) (ok u, h')
  Installs ws vs h (err e, h') =
      ((¬ AllSucceed K ws h) × (h' ≡ called ws h))
      ⊎ (AllSucceed K ws h × Finishes vs (called ws h) (err e, h'))
  Installs ws vs h (panic why, h') = Unit

  record IsFinish (ws : List Wiring) (m : Go Wiring (Unit {0})) : Type 0 where
    at : (h : List Wiring) → Finishes ws h (m h)

  finished-Installs :
      (ws vs h g : List Wiring)
      → AllSucceed K ws h
      → g ≡ called ws h
      → (r : Outcome (Unit {0}) × List Wiring) → Finishes vs g r
      → Installs ws vs h r
  finished-Installs ws vs h g all e (ok u, h') f = (all, subst (λ g. Finishes vs g (ok u, h')) e f)
  finished-Installs ws vs h g all e (err x, h') f =
      inr (all, subst (λ g. Finishes vs g (err x, h')) e f)
  finished-Installs ws vs h g all e (panic why, h') f = tt

  joined-Installs :
      (ws vs h : List Wiring) (m : Go Wiring (Unit {0}))
      → IsFinish vs m
      → (r : Outcome (Unit {0}) × List Wiring) → Joins K ws h r
      → Installs ws vs h (((λ (_ : List Wiring). r) >> m) h)
  joined-Installs ws vs h m finish (ok u, h') (all, e) =
      finished-Installs ws vs h h' all e (m h') (finish.at h')
  joined-Installs ws vs h m finish (err x, h') j = inl j
  joined-Installs ws vs h m finish (panic why, h') j = tt

  install_base-IsFinish : IsFinish [] (call K install_base)
  install_base-IsFinish = record { at = λ h. answered h (K.answer h install_base) refl }
    where
      answered :
          (h : List Wiring) (r : Outcome (Unit {0}))
          → K.answer h install_base ≡ r
          → Finishes [] h (r, install_base ∷ h)
      answered h (ok u) e = ((e, tt), refl)
      answered h (err x) e = inl (λ all. ground (arith, all), refl)
      answered h (panic why) e = tt

  registered-IsFinish :
      {ws : List Wiring} {m : Go Wiring (Unit {0})}
      → IsJoin K ws m
      → IsFinish ws (call K install_base >> m)
  registered-IsFinish {ws} {m} all = record { at = λ h. answered h (K.answer h install_base) refl }
    where
      later :
          (h : List Wiring) (r : Outcome (Unit {0}) × List Wiring)
          → K.answer h install_base ≡ ok tt
          → Joins K ws (install_base ∷ h) r
          → Finishes ws h r
      later h (ok u, h') e (both, same) = ((e, both), same)
      later h (err x, h') e j = inr (e, j.0, j.1)
      later h (panic why, h') e j = tt

      answered :
          (h : List Wiring) (r : Outcome (Unit {0}))
          → K.answer h install_base ≡ r
          → Finishes ws h (((λ (g : List Wiring). (r, install_base ∷ g)) >> m) h)
      answered h (ok u) e = later h (m (install_base ∷ h)) e (all.at (install_base ∷ h))
      answered h (err x) e = inl (λ all. ground (arith, all), refl)
      answered h (panic why) e = tt

  provide_evm_driver-IsJoin : IsJoin K evm_driver (provide_evm_driver K)
  unfolding provide_evm_driver calls
  provide_evm_driver-IsJoin = join-IsJoin K (calls-AreAttempts K evm_driver)

  -- Unless a call panics: every call by which the SDK of a build provides something to its
  -- container is made, also behind one that failed. The SDK below is installed only if all of them
  -- succeeded, and only if that succeeds too the services are registered, all of them. The
  -- installation succeeds exactly if all these calls do.
  pub install-Installs :
      (b : Build) (h : List Wiring) → Installs (provided b) (registered b) h (install K b h)
  unfolding install install_fabric3 install_evm install_with join_extra calls
  install-Installs fabric3 h =
      joined-Installs (provided fabric3) [] h (call K install_base) install_base-IsFinish _
        ((join-IsJoin K (calls-AreAttempts K (provided fabric3))).at h)
  install-Installs evm h =
      joined-Installs (provided evm) [] h (call K install_base) install_base-IsFinish _ (
        (join-IsJoin K (
            cons-AreAttempts K (call-IsJoin K driver_dependencies) (
              cons-AreAttempts K
                (call-IsJoin K (provide "fabric.NewGenericDriver" "network-drivers"))
                (cons-AreAttempts K provide_evm_driver-IsJoin (calls-AreAttempts K drivers))))).at
          h)
  install-Installs fabricx h =
      joined-Installs (provided fabricx) (registered fabricx) h _
        (registered-IsFinish (join-IsJoin K (calls-AreAttempts K (registered fabricx)))) _
        ((join-IsJoin K (calls-AreAttempts K (provided fabricx))).at h)
  install-Installs xevm h =
      joined-Installs (provided xevm) (registered xevm) h _
        (registered-IsFinish (join-IsJoin K (calls-AreAttempts K (registered xevm)))) _
        ((join-IsJoin K (
            cons-AreAttempts K (join-IsJoin K (calls-AreAttempts K (provided fabricx)))
              (cons-AreAttempts K provide_evm_driver-IsJoin (nil-AreAttempts K)))).at
          h)
