-- ===== src/Tokens/Node/Mains.antt =====
-- That every main function drives its node through its life in order.
use fabric_x_samples.Prelude.{◌<>◌, String, List, [], ◌∷◌, inl, inr, Bool-cases}
use fabric_x_samples.Go.{Outcome, ok, err, panic, Go, ◌>>=◌, ◌>>◌}
use fabric_x_samples.Tokens.Node.{
  Step, Node, start_fsc, bind_endorsing_identities, bind_pairs, bind_pair, register_owner,
  register_issuer, serve_until_stopped, owner_main, issuer_main, endorser_main, endorsers, effect,
  logged, bind_found,
}
use fabric_x_samples.Tokens.Node.Lifecycle.{
  Phase, started, stopped, Reaches, begin, bind, respond, make, serve, close, stop, Ends, Stays,
  Starts, start_fsc-Starts,
}
use fabric_x_samples.Tokens.Node.Registrations.{
  Registers, owner_views, issuer_views, owner_main-Registers, issuer_main-Registers,
  endorser_main-Registers,
}

module _ (N : Node) where
  logged-Stays :
      (h : List Step) (r : Outcome (Unit {0}) × List Step)
      → Stays N started r
      → Stays N started (logged (λ (_ : List Step). r) h)
  logged-Stays h (ok u, g) e = e
  logged-Stays h (err x, g) e = absurd e
  logged-Stays h (panic why, g) e = tt

  bind-Stays :
      (phase : Phase) (r : Outcome (Unit {0}) × List Step) (k : Go Step (Unit {0}))
      → Stays N started r
      → ((h : List Step) → Reaches N started h → Stays N phase (k h))
      → (g : List Step) → Stays N phase (((λ (_ : List Step). r) >> k) g)
  bind-Stays phase (ok u, h) k now rest g = rest h now
  bind-Stays phase (err e, h) k now rest g = absurd now
  bind-Stays phase (panic why, h) k now rest g = tt

  bind_pair-Stays :
      (label name : String) (h : List Step)
      → Reaches N started h
      → Stays N started (bind_pair N (label, name) h)
  unfolding bind_pair
  bind_pair-Stays label name h now = by_label (N.identity_by_id h label)
    where
      by_bind :
          (e : String) (r : Outcome (Unit {0}))
          → Stays N started (logged (λ (g : List Step). (r, Step.bind e (N.identity name) ∷ g)) h)
      by_bind e (ok u) = bind e _ now
      by_bind e (err x) = bind e _ now
      by_bind e (panic why) = tt

      found : (e : String) → Stays N started (bind_found N e (N.identity name) h)
      found e = elim (Bool-cases (N.is_none (N.identity name))) [
        | inl absent ↦ rw absent now
        | inr present ↦ rw present (by_bind e (N.bind h e (N.identity name)))
      ]

      by_label :
          (r : Outcome String)
          → Stays N started
              (logged ((λ (g : List Step). (r, g)) >>= λ e. bind_found N e (N.identity name)) h)
      by_label (ok e) = logged-Stays h (bind_found N e (N.identity name) h) (found e)
      by_label (err x) = now
      by_label (panic why) = tt

  bind_pairs-Stays :
      (pairs : List (String × String)) (h : List Step)
      → Reaches N started h
      → Stays N started (bind_pairs N pairs h)
  unfolding bind_pairs
  bind_pairs-Stays [] h now = now
  bind_pairs-Stays ((label, name) ∷ pairs) h now =
      bind-Stays started (bind_pair N (label, name) h) (bind_pairs N pairs)
        (bind_pair-Stays label name h now) (bind_pairs-Stays pairs) h

  bind_endorsing_identities-Stays :
      (network : String) (pairs : List (String × String)) (h : List Step)
      → Reaches N started h
      → Stays N started (bind_endorsing_identities N network pairs h)
  unfolding bind_endorsing_identities
  bind_endorsing_identities-Stays network [] h now = now
  bind_endorsing_identities-Stays network (pair ∷ pairs) h now =
      by_services (N.network_service h network) (N.id_provider h)
    where
      by_services :
          (service provider : Outcome (Unit {0}))
          → Stays N started (
              logged
                ((λ (g : List Step). (service, g))
                  >> ((λ (g : List Step). (provider, g)) >> bind_pairs N (N.range (pair ∷ pairs))))
                h)
      by_services (ok u) (ok v) =
          logged-Stays h (bind_pairs N (N.range (pair ∷ pairs)) h)
            (bind_pairs-Stays (N.range (pair ∷ pairs)) h now)
      by_services (ok u) (err x) = now
      by_services (ok u) (panic why) = tt
      by_services (err x) provider = now
      by_services (panic why) provider = tt

  register_owner-Stays :
      (h : List Step) → Reaches N started h → Stays N started (register_owner N h)
  unfolding register_owner
  register_owner-Stays h now =
      make _ _ (make _ _ (make _ _ (respond _ _ (make _ _ (respond _ _ (respond _ _ now))))))

  register_issuer-Stays :
      (h : List Step) → Reaches N started h → Stays N started (register_issuer N h)
  unfolding register_issuer
  register_issuer-Stays h now = respond _ _ (make _ _ now)

  serve_until_stopped-Stays :
      (port : String) (h : List Step)
      → Reaches N started h
      → Stays N stopped (serve_until_stopped N port h)
  unfolding serve_until_stopped
  serve_until_stopped-Stays port h now = by_end (N.listen h ("0.0.0.0:" <> port))
    where
      by_end :
          (r : Outcome (Unit {0}))
          → Stays N stopped (
              (logged (λ (g : List Step). (r, Step.listen ("0.0.0.0:" <> port) ∷ g))
                  >> (effect Step.shutdown >> effect Step.stop_node))
                h)
      by_end (ok u) = stop (close (serve _ now))
      by_end (err e) = stop (close (serve _ now))
      by_end (panic why) = tt

  started-Ends :
      (r : Outcome (Unit {0}) × List Step) (k : Go Step (Unit {0}))
      → Starts N r
      → ((h : List Step) → Reaches N started h → Stays N stopped (k h))
      → (g : List Step) → Ends N (((λ (_ : List Step). r) >> k) g)
  started-Ends (ok u, h) k now rest g = ended (k h) (rest h now)
    where
      ended : (r : Outcome (Unit {0}) × List Step) → Stays N stopped r → Ends N r
      ended (ok u, g) e = e
      ended (err x, g) e = absurd e
      ended (panic why, g) e = tt
  started-Ends (err x, h) k failed rest g = failed
  started-Ends (panic why, h) k now rest g = tt

  -- What owner and issuer do with a started node.
  registered-Stays :
      (register : Go Step (Unit {0}))
      → ((h : List Step) → Reaches N started h → Stays N started (register h))
      → (port : String) (h : List Step) → Reaches N started h
      → Stays N stopped (
          (bind_endorsing_identities N "default" endorsers
              >> (register >> serve_until_stopped N port))
            h)
  registered-Stays register registers port h now =
      bind-Stays stopped (bind_endorsing_identities N "default" endorsers h) _
        (bind_endorsing_identities-Stays "default" endorsers h now)
        (λ g at.
          bind-Stays stopped (register g) _ (registers g at) (serve_until_stopped-Stays port) g)
        h

  main-Reaches :
      (conf port : String)
      → Ends N (owner_main N conf port [])
        × Ends N (issuer_main N conf port [])
        × Ends N (endorser_main N conf port [])
  unfolding owner_main issuer_main endorser_main
  main-Reaches conf port =
      let begun = start_fsc-Starts N conf (N.join_path conf "data") [] begin in
      let start = start_fsc N conf (N.join_path conf "data") [] in
      (
        started-Ends start _ begun (registered-Stays (register_owner N) register_owner-Stays port)
            [],
        started-Ends start _ begun (registered-Stays (register_issuer N) register_issuer-Stays port)
            [],
        started-Ends start (serve_until_stopped N port) begun (serve_until_stopped-Stays port) [],
      )

  -- Every main function that is not ended by a panic returns with the node stopped: it was created,
  -- installed and started with success, then bound identities, if any, and registered its views, then
  -- it was served, and its HTTP server and the node were shut down, in this order; or it ends with the
  -- error of a call of the start, which is its last call. A main function that returns has registered
  -- exactly its own views and factories, each once: the seven of an owner, the two of an issuer, and none
  -- for an endorser.
  pub main-Ends :
      (conf port : String)
      → (Ends N (owner_main N conf port []) × Registers owner_views (owner_main N conf port []))
        × (Ends N (issuer_main N conf port [])
            × Registers issuer_views (issuer_main N conf port []))
        × (Ends N (endorser_main N conf port []) × Registers [] (endorser_main N conf port []))
  main-Ends conf port =
      let (owner, issuer, endorser) = main-Reaches conf port in
      (
        (owner, owner_main-Registers N conf port),
        (issuer, issuer_main-Registers N conf port),
        (endorser, endorser_main-Registers N conf port),
      )
