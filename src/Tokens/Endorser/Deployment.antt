-- ===== src/Tokens/Endorser/Deployment.antt =====
-- Which public parameters `Init` deploys.
use fabric_x_samples.Prelude.{
  String, Bool, true, false, List, [], ◌∷◌, ◌++◌, ◌≡◌, ◌≢◌, ◌⊎◌, refl, ap, arith, inl, inr, eq_iff,
  if◌then◌else◌,
}
use fabric_x_samples.Go.{Outcome, ok, err, panic, ◌>>◌, pure}
use fabric_x_samples.Tokens.Types.{Call}
use fabric_x_samples.Tokens.Endorser.{Config, Services, deploy_config, deploy_all, init}

module _ (S : Services) where
  abbrev content : Outcome String → String
  content (ok pp) = pp
  content (err e) = ""
  content (panic why) = ""

  -- The deployment of one TMS, with the file that its configuration names.
  abbrev pub deployment : List Call → Config → Call
  deployment h c =
      Call.deploy_tms c.id (content (S.read_file h (S.translate_path c c.public_parameters_path)))

  -- The history after the deployment of every TMS that is not settled on an EVM chain, in order.
  abbrev pub deployments : List Config → List Call → List Call
  deployments [] h = h
  deployments (c ∷ cs) h = deployments cs (if c.is_evm then h else deployment h c ∷ h)

  abbrev IsRead : List Call → Config → Outcome String → Type 0
  IsRead h c (ok pp) = S.deploy h c.id pp ≡ ok tt
  IsRead h c (err e) = ⊥
  IsRead h c (panic why) = ⊥

  -- Each such TMS names a file, the file is read, and its deployment succeeds.
  abbrev IsDeployed : Bool → List Call → Config → Type 0
  IsDeployed true h c = Unit
  IsDeployed false h c =
      (c.public_parameters_path ≢ "")
      × IsRead h c (S.read_file h (S.translate_path c c.public_parameters_path))

  abbrev pub AreDeployed : List Config → List Call → Type 0
  AreDeployed [] h = Unit
  AreDeployed (c ∷ cs) h =
      IsDeployed c.is_evm h c × AreDeployed cs (if c.is_evm then h else deployment h c ∷ h)

  -- The calls made are the deployments of the first configurations.
  abbrev pub Stopped : List Config → List Call → List Call → Type 0
  Stopped cs h h' = (done rest : List Config) × (cs ≡ done ++ rest) × (h' ≡ deployments done h)

  abbrev pub Deploys : List Config → List Call → Outcome (Unit {0}) × List Call → Type 0
  Deploys cs h (ok _, h') = AreDeployed cs h × (h' ≡ deployments cs h)
  Deploys cs h (err e, h') = Stopped cs h h'
  Deploys cs h (panic why, h') = Stopped cs h h'

  -- What one round of the loop does, by whether the TMS is settled on an EVM chain.
  abbrev Round : Bool → Config → List Call → Outcome (Unit {0}) × List Call → Type 0
  Round evm c h (ok _, h') = IsDeployed evm h c × (h' ≡ (if evm then h else deployment h c ∷ h))
  Round evm c h (err e, h') = (h' ≡ h) ⊎ (h' ≡ (if evm then h else deployment h c ∷ h))
  Round evm c h (panic why, h') = (h' ≡ h) ⊎ (h' ≡ (if evm then h else deployment h c ∷ h))

  deploy_config-Round : (c : Config) (h : List Call) → Round false c h (deploy_config S c h)
  unfolding deploy_config
  deploy_config-Round c h = ground (arith, eq_iff c.public_parameters_path "")

  deploy_if-Round :
      (evm : Bool) (c : Config) (h : List Call)
      → Round evm c h ((if evm then pure tt else deploy_config S c) h)
  deploy_if-Round true c h = (tt, refl)
  deploy_if-Round false c h = deploy_config-Round c h

  Deploys-cons :
      (c : Config) (cs : List Config) (h : List Call) (r : Outcome (Unit {0}) × List Call)
      → IsDeployed c.is_evm h c
      → Deploys cs (if c.is_evm then h else deployment h c ∷ h) r
      → Deploys (c ∷ cs) h r
  Deploys-cons c cs h (ok u, h') d (all, e) = ((d, all), e)
  Deploys-cons c cs h (err x, h') d (done, rest, e, made) =
      (c ∷ done, rest, ap (λ l. c ∷ l) e, made)
  Deploys-cons c cs h (panic why, h') d (done, rest, e, made) =
      (c ∷ done, rest, ap (λ l. c ∷ l) e, made)

  next-Deploys :
      (c : Config) (cs : List Config) (h : List Call) (r : Outcome (Unit {0}) × List Call)
      → Round c.is_evm c h r
      → ((g : List Call) → Deploys cs g (deploy_all S cs g))
      → Deploys (c ∷ cs) h (((λ (_ : List Call). r) >> deploy_all S cs) h)
  next-Deploys c cs h (ok u, h') (d, e) rest = rw e (Deploys-cons c cs h _ d (rest _))
  next-Deploys c cs h (err x, h') (inl e) rest = ([], c ∷ cs, refl, e)
  next-Deploys c cs h (err x, h') (inr e) rest = (c ∷ [], cs, refl, e)
  next-Deploys c cs h (panic why, h') (inl e) rest = ([], c ∷ cs, refl, e)
  next-Deploys c cs h (panic why, h') (inr e) rest = (c ∷ [], cs, refl, e)

  deploy_all-Deploys : (cs : List Config) (h : List Call) → Deploys cs h (deploy_all S cs h)
  unfolding deploy_all
  deploy_all-Deploys [] h = (tt, refl)
  deploy_all-Deploys (c ∷ cs) h =
      next-Deploys c cs h _ (deploy_if-Round c.is_evm c h) (deploy_all-Deploys cs)

  init-deploy_all :
      (h : List Call) {cs : List Config}
      → S.deployer h ≡ ok tt
      → S.config_service h ≡ ok tt
      → S.configurations h ≡ ok cs
      → init S h ≡ deploy_all S cs h
  unfolding init
  init-deploy_all h deployer service configured = ground arith

  -- When the services of the node answer, `Init` deploys the TMSs that are not settled on an EVM
  -- chain, in the order of the configuration, each with the file that its configuration names: all
  -- of them if it returns, and then each deployment has succeeded; and those of the first
  -- configurations if it fails.
  pub init-Deploys :
      (h : List Call) {cs : List Config}
      → S.deployer h ≡ ok tt
      → S.config_service h ≡ ok tt
      → S.configurations h ≡ ok cs
      → Deploys cs h (init S h)
  unfolding init
  init-Deploys h {cs} deployer service configured =
      rw (init-deploy_all h deployer service configured) (deploy_all-Deploys cs h)
