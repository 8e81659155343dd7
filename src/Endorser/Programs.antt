-- ===== src/Endorser/Programs.antt =====
-- custom-endorser/cmd/endorser/main.go and custom-endorser/cmd/client/main.go: the main functions.
-- What cobra makes of the command line is given: an error (such as a missing `--config`), the help
-- text, or a command to run.
pub mod Ends
use fabric_x_samples.Prelude.{ℕ, ◌∷◌}
use fabric_x_samples.Go.{Error, ok, err, panic, Go, pure, throw, ask, ◌>>=◌, ◌>>◌}
use fabric_x_samples.Endorser.Types.{Call, Platform}
use fabric_x_samples.Endorser.Client as Client
use fabric_x_samples.Endorser.Main as Main

pub data CommandLine {ℓ} (A : Type ℓ) : Type ℓ where
  refused : Error → CommandLine A
  help : CommandLine A
  runs : A → CommandLine A

-- The subcommands that `newQueryCmd` and `newInvokeCmd` return.
pub data Subcommand : Type 0 where
  query_cmd : Client.Command → Subcommand
  invoke_cmd : Client.Command → Subcommand

-- `signal.NotifyContext(…)`
abbrev notify_signals : Go Call (Unit {0})
notify_signals = ask Call.notify_signals (λ h. ok tt)

-- `cmd.ExecuteContext(ctx)`, with the `RunE` of each command.
abbrev pub execute_context {ℓ} :
    {A : Type ℓ} → (A → Go Call (Unit {0})) → CommandLine A → Go Call (Unit {0})
execute_context run_e (refused e) = throw e
execute_context run_e help = pure tt
execute_context run_e (runs command) = run_e command

-- What both main functions do around it; the result is the status with which the process ends. The
-- deferred `stop()` is not run by `os.Exit(1)`.
abbrev ending : Go Call (Unit {0}) → Go Call ℕ
ending m h =
    let (r, h') = m h in
    elim r [
      | ok done ↦ (ok 0, Call.stop_signals ∷ h')
      | err e ↦ (ok 1, Call.exit 1 ∷ Call.print_error e ∷ h')
      | panic why ↦ (panic why, Call.stop_signals ∷ h')
    ]

module _ (P : Platform) where
  -- `RunE` of the client's subcommands.
  unfoldable pub run_subcommand : Subcommand → Go Call (Unit {0})
  run_subcommand (query_cmd cmd) = Client.query P cmd
  run_subcommand (invoke_cmd cmd) = Client.invoke P cmd

  -- `main` of cmd/client
  unfoldable pub client_main : CommandLine Subcommand → Go Call ℕ
  unfolding run_subcommand
  client_main line = do notify_signals; ending (execute_context run_subcommand line)

  -- `main` of cmd/endorser
  unfoldable pub endorser_main : CommandLine Main.Command → Go Call ℕ
  endorser_main line = do notify_signals; ending (execute_context (Main.run P) line)
