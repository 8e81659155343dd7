-- ===== src/Endorser/Programs/Ends.antt =====
-- With which status the programs end, and what they have done then.
use fabric_x_samples.Prelude.{ℕ, List, ◌∷◌, ◌≡◌, refl, subst}
use fabric_x_samples.Go.{Outcome, ok, err, panic, Go, ask, wrapping, ◌>>=◌}
use fabric_x_samples.Endorser.Main as Main
use fabric_x_samples.Endorser.Service.{Service}
use fabric_x_samples.Endorser.Types.{Call, Platform}
use fabric_x_samples.Endorser.Client.Submissions.{
  Submitted, Shows, invoke-Invoked, Invoked, query-Queried, Queried,
}
use fabric_x_samples.Endorser.Programs.{
  CommandLine, refused, help, runs, Subcommand, query_cmd, invoke_cmd, ending, execute_context,
  run_subcommand, client_main, endorser_main,
}

module _ {A : Type 0} (run_e : A → Go Call (Unit {0})) (Done : A → List Call → Type 0)
    (h : List Call) where
  abbrev pub started : List Call
  started = Call.notify_signals ∷ h

  -- What has happened when a program ends with status 0.
  abbrev Succeeds : CommandLine A → List Call → Type 0
  Succeeds (refused e) g = ⊥
  Succeeds help g = g ≡ started
  Succeeds (runs command) g = Done command g

  -- Status 1 comes with the error, which is printed before; no other status is returned.
  abbrev pub Ends : CommandLine A → Outcome ℕ × List Call → Type 0
  Ends line (ok status, Call.stop_signals ∷ g) = (status ≡ 0) × Succeeds line g
  Ends line (ok status, Call.exit code ∷ Call.print_error e ∷ g) =
      (status ≡ 1) × (code ≡ 1) × (execute_context run_e line started ≡ (err e, g))
  Ends line (ok status, g) = ⊥
  Ends line (err e, g) = ⊥
  Ends line (panic why, Call.stop_signals ∷ g) = execute_context run_e line started ≡ (panic why, g)
  Ends line (panic why, g) = ⊥

  ending-Ends :
      (line : CommandLine A) (r : Outcome (Unit {0}) × List Call)
      → execute_context run_e line started ≡ r
      → ((u : Unit {0}) (g : List Call) → r ≡ (ok u, g) → Succeeds line g)
      → Ends line (ending (λ (_ : List Call). r) started)
  ending-Ends line (ok u, g) e done = (refl, done u g refl)
  ending-Ends line (err x, g) e done = (refl, refl, e)
  ending-Ends line (panic why, g) e done = e

  execute_context-Ends :
      ((command : A) (u : Unit {0}) (g : List Call)
        → run_e command started ≡ (ok u, g)
        → Done command g)
      → (line : CommandLine A) → Ends line (ending (execute_context run_e line) started)
  execute_context-Ends done (refused e) = (refl, refl, refl)
  execute_context-Ends done help = (refl, refl)
  execute_context-Ends done (runs command) =
      ending-Ends (runs command) (run_e command started) refl (done command)

module _ (P : Platform) (h : List Call) where
  -- What a subcommand of the client has done when it ends without an error.
  abbrev pub Done : Subcommand → List Call → Type 0
  Done (query_cmd cmd) g = Shows P cmd (Call.notify_signals ∷ h) g
  Done (invoke_cmd cmd) g = Submitted P cmd (Call.notify_signals ∷ h) g

  run_subcommand-Done :
      (command : Subcommand) (u : Unit {0}) (g : List Call)
      → run_subcommand P command (Call.notify_signals ∷ h) ≡ (ok u, g)
      → Done command g
  unfolding run_subcommand
  run_subcommand-Done (query_cmd cmd) u g e =
      subst (Queried P cmd (Call.notify_signals ∷ h)) e
        (query-Queried P cmd (Call.notify_signals ∷ h))
  run_subcommand-Done (invoke_cmd cmd) u g e =
      subst (Invoked P cmd (Call.notify_signals ∷ h)) e
        (invoke-Invoked P cmd (Call.notify_signals ∷ h))

  -- The client ends with status 0 or 1, or by a panic. Status 0 means that the help text was asked for,
  -- or that the transaction of the command was executed: for an invocation, it was then submitted without
  -- an error and the payload of its first response, a success, printed; for a query, the payload was
  -- printed, or there was no response and nothing was printed. The namespace is that of the flag, if it is
  -- given, and the function's name stands before its arguments. Status 1 means that the
  -- command line was refused or the command failed, and this error was printed last.
  pub client_main-Ends :
      (line : CommandLine Subcommand) → Ends (run_subcommand P) Done h line (client_main P line h)
  unfolding client_main
  client_main-Ends = execute_context-Ends (run_subcommand P) Done h run_subcommand-Done

  -- The newest call has served the service until it was shut down.
  abbrev pub HasServed : List Call → Type 0
  HasServed (Call.serve ∷ g) = P.serve g ≡ ok tt
  HasServed g = ⊥

  Serves : Outcome (Unit {0}) × List Call → Type 0
  Serves (ok u, g) = HasServed g
  Serves (err e, g) = Unit
  Serves (panic why, g) = Unit

  served-Serves :
      (g : List Call) (r : Outcome (Unit {0}))
      → P.serve g ≡ r
      → Serves (wrapping "service failed" (λ (_ : List Call). (r, Call.serve ∷ g)) g)
  unfolding Serves
  served-Serves g (ok u) e = e
  served-Serves g (err x) e = tt
  served-Serves g (panic why) e = tt

  run-Serves : (cmd : Main.Command) (g : List Call) → Serves (Main.run P cmd g)
  unfolding Main.run Serves
  run-Serves cmd g = by_start (Main.start P cmd g)
    where
      by_start :
          (r : Outcome Service × List Call)
          → Serves (
              ((λ (_ : List Call). r) >>= λ svc. wrapping "service failed" (ask Call.serve P.serve))
                g)
      by_start (ok svc, g') = served-Serves g' (P.serve g') refl
      by_start (err e, g') = tt
      by_start (panic why, g') = tt

  -- The program of the endorser ends with status 0 only behind the help text, or when a service was
  -- served without an error until it was shut down. Status 1 comes with the error, which is printed last.
  pub endorser_main-Ends :
      (line : CommandLine Main.Command)
      → Ends (Main.run P) (λ cmd. HasServed) h line (endorser_main P line h)
  unfolding endorser_main Serves
  endorser_main-Ends =
      execute_context-Ends (Main.run P) (λ cmd. HasServed) h
        (λ cmd u g e. subst Serves e (run-Serves cmd (Call.notify_signals ∷ h)))
