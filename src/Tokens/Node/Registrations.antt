-- ===== src/Tokens/Node/Registrations.antt =====
-- Which views and factories the main functions of tokens/owner, tokens/issuer and tokens/endorser have
-- registered when they return.
use fabric_x_samples.Prelude.{String, List, [], ◌∷◌, ◌≡◌, refl, ◌∙◌, arith}
use fabric_x_samples.Go.{Outcome, ok, err, panic, Go, ◌>>◌}
use fabric_x_samples.Tokens.Node.{
  Step, Node, start_fsc, bind_endorsing_identities, bind_pairs, bind_pair, register_owner,
  register_issuer, serve_until_stopped, owner_main, issuer_main, endorser_main, endorsers, logged,
}

-- The views and the factories that were registered, newest first.
abbrev pub registrations : List Step → List Step
registrations [] = []
registrations (Step.register_responder view initiator ∷ h) =
    Step.register_responder view initiator ∷ registrations h
registrations (Step.register_factory name view ∷ h) =
    Step.register_factory name view ∷ registrations h
registrations (_ ∷ h) = registrations h

-- When a main function returns, it has registered these and no others.
abbrev pub Registers : List Step → Outcome (Unit {0}) × List Step → Type 0
Registers views (ok u, h) = registrations h ≡ views
Registers views (err e, h) = Unit
Registers views (panic why, h) = Unit

-- What an owner registers: it accepts cash and locks, and serves the four factories.
abbrev pub owner_views : List Step
owner_views =
    Step.register_factory "reclaim" "service.ReclaimViewFactory"
    ∷ Step.register_factory "claim" "service.ClaimViewFactory"
    ∷ Step.register_factory "lock" "service.LockViewFactory"
    ∷ Step.register_responder "service.LockAcceptView" "service.LockView"
    ∷ Step.register_factory "redeem" "views.RedeemViewFactory"
    ∷ Step.register_responder "views.AcceptCashView" "service.TransferView"
    ∷ Step.register_responder "views.AcceptCashView"
        "github.com/hyperledger/fabric-samples/token-sdk/issuer/service/IssueCashView"
    ∷ []

-- What an issuer registers: it issues, and accepts redemptions.
abbrev pub issuer_views : List Step
issuer_views =
    Step.register_responder "views.IssuerRedeemAcceptView"
      "github.com/hyperledger/fabric-samples/token-sdk/owner/service/RedeemView"
    ∷ Step.register_factory "issue" "views.IssueCashViewFactory"
    ∷ []

module _ (N : Node) where
  -- The computation registers nothing, however it ends.
  record Keeps (m : Go Step (Unit {0})) : Type 0 where
    at : (h : List Step) → registrations (m h).1 ≡ registrations h

  start_fsc-Keeps : (conf datadir : String) → Keeps (start_fsc N conf datadir)
  unfolding start_fsc
  start_fsc-Keeps conf datadir = record { at = λ h. ground arith }

  bind_pair-Keeps : (pair : String × String) → Keeps (bind_pair N pair)
  unfolding bind_pair
  bind_pair-Keeps (label, name) = record { at = λ h. ground arith }

  then-Keeps :
      (r : Outcome (Unit {0}) × List Step) (k : Go Step (Unit {0}))
      → Keeps k
      → (h : List Step) → registrations (((λ (_ : List Step). r) >> k) h).1 ≡ registrations r.1
  then-Keeps (ok u, g) k keeps h = keeps.at g
  then-Keeps (err e, g) k keeps h = refl
  then-Keeps (panic why, g) k keeps h = refl

  bind_pairs-Keeps : (pairs : List (String × String)) → Keeps (bind_pairs N pairs)
  unfolding bind_pairs
  bind_pairs-Keeps [] = record { at = λ h. refl }
  bind_pairs-Keeps (pair ∷ pairs) = record {
    at = λ h.
        then-Keeps (bind_pair N pair h) (bind_pairs N pairs) (bind_pairs-Keeps pairs) h
        ∙ (bind_pair-Keeps pair).at h;
  }

  logged-Keeps :
      (r : Outcome (Unit {0}) × List Step) (h : List Step)
      → registrations (logged (λ (_ : List Step). r) h).1 ≡ registrations r.1
  logged-Keeps (ok u, g) h = refl
  logged-Keeps (err e, g) h = refl
  logged-Keeps (panic why, g) h = refl

  bind_endorsing_identities-Keeps :
      (network : String) (pairs : List (String × String))
      → Keeps (bind_endorsing_identities N network pairs)
  unfolding bind_endorsing_identities
  bind_endorsing_identities-Keeps network [] = record { at = λ h. refl }
  bind_endorsing_identities-Keeps network (pair ∷ pairs) = record {
    at = λ h. by_services h (N.network_service h network) (N.id_provider h);
  }
    where
      by_services :
          (h : List Step) (service provider : Outcome (Unit {0}))
          → registrations
              (logged
                ((λ (g : List Step). (service, g))
                  >> ((λ (g : List Step). (provider, g)) >> bind_pairs N (N.range (pair ∷ pairs))))
                h).1
            ≡ registrations h
      by_services h (ok u) (ok v) =
          logged-Keeps (bind_pairs N (N.range (pair ∷ pairs)) h) h
          ∙ (bind_pairs-Keeps (N.range (pair ∷ pairs))).at h
      by_services h (ok u) (err x) = refl
      by_services h (ok u) (panic why) = refl
      by_services h (err x) provider = refl
      by_services h (panic why) provider = refl

  serve_until_stopped-Keeps : (port : String) → Keeps (serve_until_stopped N port)
  unfolding serve_until_stopped
  serve_until_stopped-Keeps port = record { at = λ h. ground arith }

  -- A part that registers nothing comes first.
  after-Registers :
      (views : List Step) (r : Outcome (Unit {0}) × List Step) (k : Go Step (Unit {0}))
      → registrations r.1 ≡ []
      → ((g : List Step) → registrations g ≡ [] → Registers views (k g))
      → (h : List Step) → Registers views (((λ (_ : List Step). r) >> k) h)
  after-Registers views (ok u, g) k none rest h = rest g none
  after-Registers views (err e, g) k none rest h = tt
  after-Registers views (panic why, g) k none rest h = tt

  -- A part that registers nothing comes last.
  served-Registers :
      (views : List Step) (r : Outcome (Unit {0}) × List Step)
      → registrations r.1 ≡ views
      → Registers views r
  served-Registers views (ok u, g) same = same
  served-Registers views (err e, g) same = tt
  served-Registers views (panic why, g) same = tt

  serve-Registers :
      (views : List Step) (port : String) (g : List Step)
      → registrations g ≡ views
      → Registers views (serve_until_stopped N port g)
  serve-Registers views port g same =
      served-Registers views (serve_until_stopped N port g)
        ((serve_until_stopped-Keeps port).at g ∙ same)

  -- The owner's and the issuer's main function, from its start.
  main-Registers :
      (views : List Step) (register : Go Step (Unit {0})) (conf datadir port : String)
      → ((g : List Step)
          → registrations g ≡ []
          → Registers views ((register >> serve_until_stopped N port) g))
      → Registers views (
          (start_fsc N conf datadir
              >> (bind_endorsing_identities N "default" endorsers
                  >> (register >> serve_until_stopped N port)))
            [])
  main-Registers views register conf datadir port registers =
      after-Registers views (start_fsc N conf datadir []) _ ((start_fsc-Keeps conf datadir).at [])
        (λ g none.
          after-Registers views (bind_endorsing_identities N "default" endorsers g) _
            ((bind_endorsing_identities-Keeps "default" endorsers).at g ∙ none) registers g)
        []

  pub owner_main-Registers :
      (conf port : String) → Registers owner_views (owner_main N conf port [])
  unfolding owner_main register_owner
  owner_main-Registers conf port =
      main-Registers owner_views (register_owner N) conf (N.join_path conf "data") port
        (λ g none. serve-Registers owner_views port (register_owner N g).1 (ground (arith, none)))

  pub issuer_main-Registers :
      (conf port : String) → Registers issuer_views (issuer_main N conf port [])
  unfolding issuer_main register_issuer
  issuer_main-Registers conf port =
      main-Registers issuer_views (register_issuer N) conf (N.join_path conf "data") port
        (λ g none. serve-Registers issuer_views port (register_issuer N g).1 (ground (arith, none)))

  pub endorser_main-Registers : (conf port : String) → Registers [] (endorser_main N conf port [])
  unfolding endorser_main
  endorser_main-Registers conf port =
      after-Registers [] (start_fsc N conf (N.join_path conf "data") [])
        (serve_until_stopped N port) ((start_fsc-Keeps conf (N.join_path conf "data")).at [])
        (serve-Registers [] port) []
