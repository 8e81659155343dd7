-- ===== src/Endorser/Service/Running/Databases.antt =====
-- The databases of the endorser service: those that `NewWithSigner` opens and `Run` closes.
use fabric_x_samples.Prelude.{ℕ, suc, ◌+◌, String, List, [], ◌∷◌, ◌≡◌, arith}
use fabric_x_samples.Go.{Error, Outcome, ok, err, panic, ◌>>=◌}
use fabric_x_samples.Endorser.Types.{Call, Platform}
use fabric_x_samples.Endorser.Executor.{Executor}
use fabric_x_samples.Endorser.Service.{ServiceConfig, new_with_signer, network_of}
use fabric_x_samples.Endorser.Service.Running.{run_service}

-- How many databases were closed.
abbrev pub closings : List Call → ℕ
closings [] = 0
closings (Call.close_write_db ∷ h) = suc (closings h)
closings (Call.close_read_db ∷ h) = suc (closings h)
closings (_ ∷ h) = closings h

module _ (P : Platform) where
  abbrev count : Outcome (Unit {0}) → ℕ → ℕ
  count (ok u) n = suc n
  count (err e) n = n
  count (panic why) n = n

  -- How many databases were opened.
  abbrev pub openings : List Call → ℕ
  openings [] = 0
  openings (Call.new_write_db channel conn ∷ h) = count (P.new_write_db h channel conn) (openings h)
  openings (Call.new_read_db channel conn ∷ h) = count (P.new_read_db h channel conn) (openings h)
  openings (_ ∷ h) = openings h

  -- How often the write database was opened, and the read database.
  abbrev pub writers : List Call → ℕ
  writers [] = 0
  writers (Call.new_write_db channel conn ∷ h) = count (P.new_write_db h channel conn) (writers h)
  writers (_ ∷ h) = writers h

  abbrev pub readers : List Call → ℕ
  readers [] = 0
  readers (Call.new_read_db channel conn ∷ h) = count (P.new_read_db h channel conn) (readers h)
  readers (_ ∷ h) = readers h

  -- Each of the two databases is opened once and then closed once, by the two newest calls, when the
  -- shutdown has come; without a service, none is closed.
  abbrev pub Closes : List Call → Outcome (Unit {0}) × List Call → Type 0
  Closes h (ok u, Call.close_read_db ∷ Call.close_write_db ∷ Call.await_shutdown ∷ g) =
      (writers g ≡ 1 + writers h) × (readers g ≡ 1 + readers h) × (closings g ≡ closings h)
  Closes h (ok u, h') = ⊥
  Closes h (err e, h') = closings h' ≡ closings h
  Closes h (panic why, h') = closings h' ≡ closings h

  -- A service that `NewWithSigner` creates and `Run` runs to its end has opened the write database and
  -- the read database once each, and the last three calls are the end of the context, the closing of the write
  -- database and the closing of the read database; none was closed before. If there is an error or a
  -- panic on the way, no database is closed.
  pub new_with_signer-run_service :
      (cfg : ServiceConfig) (signer : String) (executors : List (String × Executor)) (h : List Call)
      → Closes h ((new_with_signer P cfg signer executors >>= run_service) h)
  unfolding new_with_signer network_of run_service
  new_with_signer-run_service cfg signer executors h = ground arith

  -- When the write database is opened and the read database cannot be, `NewWithSigner` returns the
  -- error and leaves the write database open.
  pub new_with_signer_leaks :
      (cfg : ServiceConfig) (signer : String) (executors : List (String × Executor)) (h : List Call)
      → {e : Error} → P.new_write_db h cfg.channel_id cfg.db_conn_str ≡ ok tt
      → P.new_read_db
          (Call.new_write_db cfg.channel_id cfg.db_conn_str ∷ h)
          cfg.channel_id
          cfg.db_conn_str
        ≡ err e
      → ((new_with_signer P cfg signer executors h).0 ≡ err (Error.wrap "db" e))
        × (openings (new_with_signer P cfg signer executors h).1 ≡ 1 + openings h)
        × (closings (new_with_signer P cfg signer executors h).1 ≡ closings h)
  unfolding new_with_signer
  new_with_signer_leaks cfg signer executors h opened failed = ground arith
