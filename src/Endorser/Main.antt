-- ===== src/Endorser/Main.antt =====
-- custom-endorser/cmd/endorser/main.go: the program that starts the endorser.
pub mod Starts
pub mod Serves
use fabric_x_samples.Prelude.{String, Bool, Option, none, some, List, [], ◌∷◌, if◌then◌else◌}
use fabric_x_samples.Go.{
  Error, Outcome, ok, err, panic, Go, pure, throw, crash, ask, peek, wrapping, ◌>>=◌, ◌>>◌,
}
use fabric_x_samples.Endorser.Config.{Config, to_peer_conf, validate}
use fabric_x_samples.Endorser.Types.{Call, Platform}
use fabric_x_samples.Endorser.Executor.{Executor, execute}
use fabric_x_samples.Endorser.Service.{Service, new}
use fabric_x_samples.Endorser.Client.{need}

-- What opening, reading and unmarshalling the configuration returns, and the flag `--log-level` if it
-- was changed.
pub record Command : Type 0 where
  pub open_config : Outcome (Unit {0})
  pub read_config : Outcome (Unit {0})
  pub unmarshal_config : Outcome Config
  pub log_level : Option String

-- `errors.Join(errs...)` is nil if there are no errors.
abbrev pub check : List String → Go Call (Unit {0})
check [] = pure tt
check (text ∷ texts) = throw (Error.wrap "invalid config" (Error.message text))

abbrev pub override : Option String → Config → Config
override none cfg = cfg
override (some level) cfg = record cfg { log_spec = level }

module _ (P : Platform) where
  -- The middle of `run`: the service is created.
  unfoldable pub create : Config → Go Call Service
  unfolding to_peer_conf
  create cfg = do
    committer ← peek (λ _. to_peer_conf cfg.committer)
    identity ← need cfg.identity
    wrapping "failed to create service" (
        new P
          (record {
            channel_id = cfg.channel_id;
            protocol = cfg.protocol;
            committer = committer;
            db_conn_str = cfg.conn_str;
          })
          identity.msp_dir identity.msp_id (("mynamespace", execute P) ∷ []))

  -- `run`, up to the service that it starts.
  unfoldable pub start : Command → Go Call Service
  unfolding create
  start cmd = do
    wrapping "failed to open config" (peek (λ _. cmd.open_config))
    wrapping "failed to read config" (peek (λ _. cmd.read_config))
    cfg ← wrapping "invalid config" (peek (λ _. cmd.unmarshal_config))
    check (validate cfg)
    create (override cmd.log_level cfg)

  -- `run`
  unfoldable pub run : Command → Go Call (Unit {0})
  unfolding start
  run cmd = do svc ← start cmd; wrapping "service failed" (ask Call.serve P.serve)
