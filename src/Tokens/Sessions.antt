-- ===== src/Tokens/Sessions.antt =====
-- Sequences of the views that tokens/ runs, one behind the other: those of an owner, those of an issuer
-- and the common ones.
use fabric_x_samples.Prelude.{List, [], ◌∷◌, inl, inr, arith}
use fabric_x_samples.Go.{Outcome, ok, err, panic}
use fabric_x_samples.Tokens.Types.{Transaction, Call}
use fabric_x_samples.Tokens.Platform.{Platform}
use fabric_x_samples.Tokens.Settlement.{IsSettled, Collected, Committed}
use fabric_x_samples.Tokens.Common.Views.{
  IssueCash, Redeem, issue_cash_call, accept_cash_call, issuer_redeem_accept_call,
}
use fabric_x_samples.Tokens.Common.Views
use fabric_x_samples.Tokens.Common.Lifecycle.{issue_cash_call-IsSettled}
use fabric_x_samples.Tokens.Common.Lifecycle
use fabric_x_samples.Tokens.Common.Responders.{
  accept_cash_call-Responds, issuer_redeem_accept_call-Responds,
}
use fabric_x_samples.Tokens.Owner.Transfer.{TransferOptions, transfer_call}
use fabric_x_samples.Tokens.Owner.Redeem.{RedeemOptions, redeem_call}
use fabric_x_samples.Tokens.Owner.Lock.{LockOptions, lock_call, lock_accept_call}
use fabric_x_samples.Tokens.Owner.Unlock.{ClaimOptions, ReclaimOptions, claim_call, reclaim_call}
use fabric_x_samples.Tokens.Owner.Flows.Settled.{
  transfer_call-IsSettled, redeem_call-IsSettled, lock_call-IsSettled, lock_accept_call-IsSettled,
  claim_call-IsSettled, reclaim_call-IsSettled,
}
use fabric_x_samples.Tokens.Issuer.{issue_call}
use fabric_x_samples.Tokens.Issuer
use fabric_x_samples.Tokens.Issuer.Effects.{issue_call-IsSettled}
use fabric_x_samples.Tokens.Factories.{
  run_made, new_issue_cash_view, new_redeem_view, new_lock_view, new_claim_view, new_reclaim_view,
}

-- The histories of a node that has run some of the views, each from its start to its end.
pub data Session (P : Platform) : List Call → Type 0 where
  start : Session P []
  transfers :
      {h : List Call} (v : TransferOptions) → Session P h → Session P (transfer_call P v h).1
  redeems : {h : List Call} (v : RedeemOptions) → Session P h → Session P (redeem_call P v h).1
  locks : {h : List Call} (v : LockOptions) → Session P h → Session P (lock_call P v h).1
  accepts : {h : List Call} → Session P h → Session P (lock_accept_call P h).1
  claims : {h : List Call} (v : ClaimOptions) → Session P h → Session P (claim_call P v h).1
  reclaims : {h : List Call} (v : ReclaimOptions) → Session P h → Session P (reclaim_call P v h).1
  issues : {h : List Call} (v : Issuer.IssueCash) → Session P h → Session P (issue_call P v h).1
  issues_cash : {h : List Call} (p : IssueCash) → Session P h → Session P (issue_cash_call P p h).1
  accepts_cash : {h : List Call} → Session P h → Session P (accept_cash_call P h).1
  endorses_redeem : {h : List Call} → Session P h → Session P (issuer_redeem_accept_call P h).1
  redeems_cash : {h : List Call} (t : Redeem) → Session P h → Session P (Views.redeem_call P t h).1
  makes_issue_cash :
      {h : List Call} (input : Outcome IssueCash)
      → Session P h
      → Session P (run_made (new_issue_cash_view P input) h).1
  makes_redeem :
      {h : List Call} (input : Outcome Redeem)
      → Session P h
      → Session P (run_made (new_redeem_view P input) h).1
  makes_lock :
      {h : List Call} (input : Outcome LockOptions)
      → Session P h
      → Session P (run_made (new_lock_view P input) h).1
  makes_claim :
      {h : List Call} (input : Outcome ClaimOptions)
      → Session P h
      → Session P (run_made (new_claim_view P input) h).1
  makes_reclaim :
      {h : List Call} (input : Outcome ReclaimOptions)
      → Session P h
      → Session P (run_made (new_reclaim_view P input) h).1

module _ (P : Platform) where
  -- A view that a factory makes of its input runs like any other, and nothing runs without one.
  made_issue_cash-IsSettled :
      (input : Outcome IssueCash) (h : List Call)
      → IsSettled P h
      → IsSettled P (run_made (new_issue_cash_view P input) h).1
  unfolding new_issue_cash_view
  made_issue_cash-IsSettled (ok v) h s = issue_cash_call-IsSettled P v h s
  made_issue_cash-IsSettled (err e) h s = s
  made_issue_cash-IsSettled (panic why) h s = s

  made_redeem-IsSettled :
      (input : Outcome Redeem) (h : List Call)
      → IsSettled P h
      → IsSettled P (run_made (new_redeem_view P input) h).1
  unfolding new_redeem_view
  made_redeem-IsSettled (ok v) h s = Lifecycle.redeem_call-IsSettled P v h s
  made_redeem-IsSettled (err e) h s = s
  made_redeem-IsSettled (panic why) h s = s

  made_lock-IsSettled :
      (input : Outcome LockOptions) (h : List Call)
      → IsSettled P h
      → IsSettled P (run_made (new_lock_view P input) h).1
  unfolding new_lock_view
  made_lock-IsSettled (ok v) h s = lock_call-IsSettled P v h s
  made_lock-IsSettled (err e) h s = s
  made_lock-IsSettled (panic why) h s = s

  made_claim-IsSettled :
      (input : Outcome ClaimOptions) (h : List Call)
      → IsSettled P h
      → IsSettled P (run_made (new_claim_view P input) h).1
  unfolding new_claim_view
  made_claim-IsSettled (ok v) h s = claim_call-IsSettled P v h s
  made_claim-IsSettled (err e) h s = s
  made_claim-IsSettled (panic why) h s = s

  made_reclaim-IsSettled :
      (input : Outcome ReclaimOptions) (h : List Call)
      → IsSettled P h
      → IsSettled P (run_made (new_reclaim_view P input) h).1
  unfolding new_reclaim_view
  made_reclaim-IsSettled (ok v) h s = reclaim_call-IsSettled P v h s
  made_reclaim-IsSettled (err e) h s = s
  made_reclaim-IsSettled (panic why) h s = s

  Session-IsSettled : {h : List Call} → Session P h → IsSettled P h
  Session-IsSettled start = tt
  Session-IsSettled (transfers {h} v s) = transfer_call-IsSettled P v h (Session-IsSettled s)
  Session-IsSettled (redeems {h} v s) = redeem_call-IsSettled P v h (Session-IsSettled s)
  Session-IsSettled (locks {h} v s) = lock_call-IsSettled P v h (Session-IsSettled s)
  Session-IsSettled (accepts {h} s) = lock_accept_call-IsSettled P h (Session-IsSettled s)
  Session-IsSettled (claims {h} v s) = claim_call-IsSettled P v h (Session-IsSettled s)
  Session-IsSettled (reclaims {h} v s) = reclaim_call-IsSettled P v h (Session-IsSettled s)
  Session-IsSettled (issues {h} v s) = issue_call-IsSettled P h v (Session-IsSettled s)
  Session-IsSettled (issues_cash {h} p s) = issue_cash_call-IsSettled P p h (Session-IsSettled s)
  Session-IsSettled (accepts_cash {h} s) = (accept_cash_call-Responds P h).0 (Session-IsSettled s)
  Session-IsSettled (endorses_redeem {h} s) =
      (issuer_redeem_accept_call-Responds P h).0 (Session-IsSettled s)
  Session-IsSettled (redeems_cash {h} t s) =
      Lifecycle.redeem_call-IsSettled P t h (Session-IsSettled s)
  Session-IsSettled (makes_issue_cash {h} input s) =
      made_issue_cash-IsSettled input h (Session-IsSettled s)
  Session-IsSettled (makes_redeem {h} input s) = made_redeem-IsSettled input h (Session-IsSettled s)
  Session-IsSettled (makes_lock {h} input s) = made_lock-IsSettled input h (Session-IsSettled s)
  Session-IsSettled (makes_claim {h} input s) = made_claim-IsSettled input h (Session-IsSettled s)
  Session-IsSettled (makes_reclaim {h} input s) =
      made_reclaim-IsSettled input h (Session-IsSettled s)

  settled-Collected :
      (tx : Transaction) (h : List Call) → IsSettled P h → Committed P tx h → Collected P tx h
  settled-Collected tx [] s c = c
  settled-Collected tx (c ∷ h) (allowed, s) (inl commits) = inr (ground arith)
  settled-Collected tx (c ∷ h) (allowed, s) (inr k) = inr (settled-Collected tx h s k)

  -- In every session, which is a sequence of any of the views of owner, issuer and the common
  -- package, also as the view factories make them from any input, whatever their options and
  -- whatever the other nodes answer, a transaction that the ordering service has committed had its
  -- endorsements collected without an error.
  pub Committed-Collected :
      (tx : Transaction) {h : List Call} → Session P h → Committed P tx h → Collected P tx h
  Committed-Collected tx {h} s = settled-Collected tx h (Session-IsSettled s)
