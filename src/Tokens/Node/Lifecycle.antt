-- ===== src/Tokens/Node/Lifecycle.antt =====
-- The life of a node, as its main function drives it: a state machine on the calls that it makes.
use fabric_x_samples.Prelude.{◌<>◌, String, List, [], ◌∷◌, ◌≡◌, refl, inl, inr, ◌==◌, Bool-cases}
use fabric_x_samples.Go.{Outcome, ok, err, panic, ask, wrapping, ◌>>◌}
use fabric_x_samples.Tokens.Node.{Step, Node, start_fsc, effect}

pub data Phase : Type 0 where
  fresh created installed started served closed stopped : Phase

module _ (N : Node) where
  -- A node is in a phase after the calls that lead there, in the order of a main function.
  pub data Reaches : Phase → List Step → Type 0 where
    begin : Reaches fresh []
    mkdir : {h : List Step} (dir : String) → Reaches fresh h → Reaches fresh (Step.make_dir dir ∷ h)
    create :
        {h : List Step} (conf : String) → Reaches fresh h → Reaches created (Step.new_node conf ∷ h)
    install :
        {h : List Step}
        → N.install_sdk h ≡ ok tt
        → Reaches created h
        → Reaches installed (Step.install_sdk ∷ h)
    start :
        {h : List Step}
        → N.start_node h ≡ ok tt
        → Reaches installed h
        → Reaches started (Step.start_node ∷ h)
    bind : {h : List Step} (e p : String) → Reaches started h → Reaches started (Step.bind e p ∷ h)
    respond :
        {h : List Step} (view initiator : String)
        → Reaches started h
        → Reaches started (Step.register_responder view initiator ∷ h)
    make :
        {h : List Step} (name view : String)
        → Reaches started h
        → Reaches started (Step.register_factory name view ∷ h)
    serve :
        {h : List Step} (address : String)
        → Reaches started h
        → Reaches served (Step.listen address ∷ h)
    close : {h : List Step} → Reaches served h → Reaches closed (Step.shutdown ∷ h)
    stop : {h : List Step} → Reaches closed h → Reaches stopped (Step.stop_node ∷ h)

  -- The newest call is one of the start that did not succeed.
  abbrev Fails : Step → List Step → Type 0
  Fails (Step.make_dir dir) h = Reaches fresh h
  Fails Step.install_sdk h = Reaches created h
  Fails Step.start_node h = Reaches installed h
  Fails _ h = ⊥

  abbrev pub FailsToStart : List Step → Type 0
  FailsToStart [] = ⊥
  FailsToStart (s ∷ h) = Fails s h

  -- A main function returns with the node stopped, or ends with an error of the start.
  abbrev pub Ends : Outcome (Unit {0}) × List Step → Type 0
  Ends (ok u, h) = Reaches stopped h
  Ends (err e, h) = FailsToStart h
  Ends (panic why, h) = Unit

  -- How a part of a main function ends that takes a started node.
  abbrev pub Stays : Phase → Outcome (Unit {0}) × List Step → Type 0
  Stays phase (ok u, h) = Reaches phase h
  Stays phase (err e, h) = ⊥
  Stays phase (panic why, h) = Unit

  abbrev pub Starts : Outcome (Unit {0}) × List Step → Type 0
  Starts (ok u, h) = Reaches started h
  Starts (err e, h) = FailsToStart h
  Starts (panic why, h) = Unit

  installed-Starts :
      (h : List Step)
      → Reaches installed h
      → (r : Outcome (Unit {0})) → N.start_node h ≡ r
      → Starts (wrapping "error starting fsc" (λ (g : List Step). (r, Step.start_node ∷ g)) h)
  installed-Starts h at (ok u) e = start e at
  installed-Starts h at (err x) e = at
  installed-Starts h at (panic why) e = tt

  created-Starts :
      (h : List Step)
      → Reaches created h
      → (r : Outcome (Unit {0})) → N.install_sdk h ≡ r
      → Starts (
          (wrapping "error installing fsc" (λ (g : List Step). (r, Step.install_sdk ∷ g))
              >> wrapping "error starting fsc" (ask Step.start_node N.start_node))
            h)
  created-Starts h at (ok u) e = installed-Starts _ (install e at) _ refl
  created-Starts h at (err x) e = at
  created-Starts h at (panic why) e = tt

  pub start_fsc-Starts :
      (conf datadir : String) (h : List Step)
      → Reaches fresh h
      → Starts (start_fsc N conf datadir h)
  unfolding start_fsc
  start_fsc-Starts conf datadir h at = elim (Bool-cases (datadir == "")) [
    | inl none ↦ rw none (created-Starts _ (create conf at) _ refl)
    | inr some ↦ rw some (in_directory (N.make_dir h datadir))
  ]
    where
      in_directory :
          (r : Outcome (Unit {0}))
          → Starts (
              (wrapping
                    ("error creating data directory " <> datadir)
                    (λ (g : List Step). (r, Step.make_dir datadir ∷ g))
                  >> (effect (Step.new_node conf)
                      >> (wrapping "error installing fsc" (ask Step.install_sdk N.install_sdk)
                          >> wrapping "error starting fsc" (ask Step.start_node N.start_node))))
                h)
      in_directory (ok u) = created-Starts _ (create conf (mkdir datadir at)) _ refl
      in_directory (err e) = at
      in_directory (panic why) = tt
