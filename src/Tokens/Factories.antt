-- ===== src/Tokens/Factories.antt =====
-- The view factories of tokens/common/views and tokens/owner/service: views that are made from JSON, by
-- what `json.Unmarshal` made of the input.
use fabric_x_samples.Prelude.{String}
use fabric_x_samples.Go.{Error, Outcome, ok, err, panic, Go, throw, crash}
use fabric_x_samples.Tokens.Types.{Call}
use fabric_x_samples.Tokens.Platform.{Platform}
use fabric_x_samples.Tokens.Common.Views.{IssueCash, Redeem, issue_cash_call}
use fabric_x_samples.Tokens.Common.Views
use fabric_x_samples.Tokens.Owner.Types.{Value}
use fabric_x_samples.Tokens.Owner.Lock.{LockOptions, lock_call}
use fabric_x_samples.Tokens.Owner.Unlock.{ClaimOptions, ReclaimOptions, claim_call, reclaim_call}

abbrev failure : String
failure = "failed unmarshalling input"

-- A view that a factory has made is run; without a view there is nothing to run.
abbrev pub run_made : {A : Type 0} → Outcome (Go Call A) → Go Call A
run_made (ok view) = view
run_made (err e) = throw e
run_made (panic why) = crash why

module _ (P : Platform) where
  -- `IssueCashViewFactory.NewView`
  unfoldable pub new_issue_cash_view : Outcome IssueCash → Outcome (Go Call String)
  new_issue_cash_view (ok p) = ok (issue_cash_call P p)
  new_issue_cash_view (err e) = panic failure
  new_issue_cash_view (panic why) = panic why

  -- `RedeemViewFactory.NewView`
  unfoldable pub new_redeem_view : Outcome Redeem → Outcome (Go Call String)
  new_redeem_view (ok t) = ok (Views.redeem_call P t)
  new_redeem_view (err e) = panic failure
  new_redeem_view (panic why) = panic why

  -- `LockViewFactory.NewView`
  unfoldable pub new_lock_view : Outcome LockOptions → Outcome (Go Call Value)
  new_lock_view (ok v) = ok (lock_call P v)
  new_lock_view (err e) = err (Error.wrap failure e)
  new_lock_view (panic why) = panic why

  -- `ClaimViewFactory.NewView`
  unfoldable pub new_claim_view : Outcome ClaimOptions → Outcome (Go Call Value)
  new_claim_view (ok v) = ok (claim_call P v)
  new_claim_view (err e) = err (Error.wrap failure e)
  new_claim_view (panic why) = panic why

  -- `ReclaimViewFactory.NewView`
  unfoldable pub new_reclaim_view : Outcome ReclaimOptions → Outcome (Go Call Value)
  new_reclaim_view (ok v) = ok (reclaim_call P v)
  new_reclaim_view (err e) = err (Error.wrap failure e)
  new_reclaim_view (panic why) = panic why
