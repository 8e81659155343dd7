-- ===== src/Endorser/Service/Running.antt =====
-- custom-endorser/service/service.go: `BlockNumber`, `RegisterService` and `Run` of the endorser service.
pub mod Databases
use fabric_x_samples.Prelude.{ℕ, String, Option, none, some, List, ◌∷◌}
use fabric_x_samples.Go.{Outcome, ok, Go, crash, ask, peek, ◌>>=◌, ◌>>◌}
use fabric_x_samples.Endorser.Types.{Network, Call, Platform}
use fabric_x_samples.Endorser.Service.{Service}

-- `BlockNumber`
unfoldable pub block_number : Platform → Go Call ℕ
block_number P = peek P.block_number

-- A call of the SDK whose result nobody reads.
abbrev pub effect : Call → Go Call (Unit {0})
effect c = ask c (λ h. ok tt)

-- `RegisterService`
unfoldable pub register_service : Go Call (Unit {0})
register_service = do
  effect (Call.register "endorser")
  effect (Call.register "health")
  effect (Call.register "reflection")

-- `go s.synchronizer.Start(ctx)`; a nil synchronizer is dereferenced.
abbrev pub start_synchronizer : Option Network → Go Call (Unit {0})
start_synchronizer none = crash "nil pointer dereference"
start_synchronizer (some n) = effect (Call.start_synchronizer n)

-- `Run`: it waits until the context is done, and then closes the databases.
unfoldable pub run_service : Service → Go Call (Unit {0})
run_service s = do
  start_synchronizer s.synchronizer
  effect Call.await_shutdown
  effect Call.close_write_db
  effect Call.close_read_db
