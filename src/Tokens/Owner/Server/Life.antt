-- ===== src/Tokens/Owner/Server/Life.antt =====
-- The life of an owner's node after its start: requests of clients, and the views with which it responds to
-- other nodes (tokens/owner/main.go registers them).
use fabric_x_samples.Prelude.{ℕ, List, ◌∷◌, ◌++◌, ◌≡◌, arith}
use fabric_x_samples.Go.{ok, Go}
use fabric_x_samples.Tokens.Types.{Transaction, Call}
use fabric_x_samples.Tokens.Platform.{Platform}
use fabric_x_samples.Tokens.Settlement.{ledger}
use fabric_x_samples.Tokens.Http.Cors.{with_any_cors}
use fabric_x_samples.Tokens.Http.Reports.{Event, serve_all, all_handed, serve_all-handed}
use fabric_x_samples.Tokens.Http.{Answer}
use fabric_x_samples.Tokens.Http.Serving.{Request}
use fabric_x_samples.Tokens.Common.Views.{accept_cash_call}
use fabric_x_samples.Tokens.Common.Responders.{accept_cash_call-Responds}
use fabric_x_samples.Tokens.Owner.Balances.{AmountMap}
use fabric_x_samples.Tokens.Owner.Lock.{lock_accept_call, receive_lock, accept_script}
use fabric_x_samples.Tokens.Owner.Flows.Locks.{HasLock, Unread}
use fabric_x_samples.Tokens.Owner.Server.{Reader, Payload, serve}
use fabric_x_samples.Tokens.Owner.Server.Ledger.{payload_ids, serve-IsReported}

-- The responders of an owner.
pub data Responder : Type 0 where
  accept_cash accept_lock : Responder

module _ (P : Platform) where
  -- The calls after a responder has run, however it ended.
  unfoldable pub respond : Responder → List Call → List Call
  respond accept_cash h = (accept_cash_call P h).1
  respond accept_lock h = (lock_accept_call P h).1

  respond-ledger : (v : Responder) (h : List Call) → ledger P (respond v h) ≡ ledger P h
  unfolding respond lock_accept_call receive_lock accept_script
  respond-ledger accept_cash h = (accept_cash_call-Responds P h).1
  respond-ledger accept_lock h = ground arith

  -- If the outputs of every transaction that was given a lock, endorsed and ordered can be read, and the
  -- first of them has a script, then the transactions that an owner commits in a sequence of requests
  -- and of views that respond to other nodes are exactly those whose IDs are in the answers to the
  -- requests, in that order. Nothing is asked of transfers and other transactions.
  pub serve_all-ledger :
      (readable : (g : List Call) (t : Transaction)
        → HasLock t g
        → P.order g t ≡ ok tt
        → ¬ Unread P (P.outputs (Call.order t ∷ g) t))
      (R : Reader) (iterate : AmountMap → AmountMap) (events : List (Event Responder))
      (h : List Call)
      → ledger P (serve_all (with_any_cors (serve R P iterate)) respond events h).1
        ≡ all_handed payload_ids (serve_all (with_any_cors (serve R P iterate)) respond events h).0
          ++ ledger P h
  serve_all-ledger readable R iterate =
      serve_all-handed payload_ids P (serve R P iterate) respond
        (serve-IsReported R P iterate readable) respond-ledger

module _ (world : ℕ → Platform) (R : Reader) (iterate : AmountMap → AmountMap) where
  abbrev pub server : Platform → Request → Go Call (Answer Payload)
  server P = serve R P iterate
