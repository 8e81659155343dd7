-- ===== src/Tokens/Common/Lifecycle.antt =====
-- What the common views do to their transaction.
use fabric_x_samples.Prelude.{String, List, ◌∷◌, ◌≡◌, ◌⊎◌, inl, inr, ap, ◌∙◌, arith}
use fabric_x_samples.Go.{Outcome, ok, err, panic, ◌>>=◌}
use fabric_x_samples.Tokens.Types.{Transaction, pending, confirmed, ServiceOption, Call}
use fabric_x_samples.Tokens.Platform.{Platform}
use fabric_x_samples.Tokens.Settlement.{IsSettled, ledger}
use fabric_x_samples.Tokens.Common.Views.{
  IssueCash, Redeem, issue_cash_call, prepare_issue, prepare_redeem, settle, redeem_call,
  assert_pending, assert_confirmed,
}

module _ (P : Platform) where
  -- A preparation keeps a settled history settled, commits nothing and never returns an error.
  abbrev Prepares : List Call → Outcome Transaction × List Call → Type 0
  Prepares h (ok tx, h') = (IsSettled P h → IsSettled P h') × (ledger P h' ≡ ledger P h)
  Prepares h (err e, h') = ⊥
  Prepares h (panic why, h') = (IsSettled P h → IsSettled P h') × (ledger P h' ≡ ledger P h)

  prepare_issue-Prepares : (p : IssueCash) (h : List Call) → Prepares h (prepare_issue P p h)
  unfolding prepare_issue
  prepare_issue-Prepares p h = ground arith

  prepare_redeem-Prepares : (t : Redeem) (h : List Call) → Prepares h (prepare_redeem P t h)
  unfolding prepare_redeem
  prepare_redeem-Prepares t h = ground arith

  -- The endorsements were collected, the status was pending, ordering succeeded, and the status is
  -- confirmed; nothing else was called since.
  abbrev pub Confirms : String → List Call → Type 0
  Confirms id (Call.order b ∷ Call.collect_endorsements d opts ∷ h) =
      (id ≡ b.id)
      × (d ≡ b)
      × (P.status (Call.order b ∷ Call.collect_endorsements d opts ∷ h) b ≡ ok confirmed)
      × (P.order (Call.collect_endorsements d opts ∷ h) b ≡ ok tt)
      × (P.status (Call.collect_endorsements d opts ∷ h) b ≡ ok pending)
      × (P.collect_endorsements h d opts ≡ ok tt)
  Confirms id _ = ⊥

  -- The end of both views, for the transaction that is prepared.
  abbrev Settles : Transaction → List Call → Outcome String × List Call → Type 0
  Settles tx h (ok id, h') = Confirms id h' × (ledger P h' ≡ id ∷ ledger P h)
  Settles tx h (err e, h') = ⊥
  Settles tx h (panic why, h') = (ledger P h' ≡ ledger P h) ⊎ (ledger P h' ≡ tx.id ∷ ledger P h)

  abbrev pub IsConfirmed : List Call → Outcome String × List Call → Type 0
  IsConfirmed h (ok id, h') = Confirms id h' × (ledger P h' ≡ id ∷ ledger P h)
  IsConfirmed h (err e, h') = ⊥
  IsConfirmed h (panic why, h') =
      (ledger P h' ≡ ledger P h) ⊎ ((id : String) × (ledger P h' ≡ id ∷ ledger P h))

  settle-Settles :
      (tx : Transaction) (opts : List ServiceOption) (s o : String) (h : List Call)
      → Settles tx h (settle P tx opts s o h)
  unfolding settle assert_pending assert_confirmed
  settle-Settles tx opts s o h = ground arith

  settled-IsConfirmed :
      (tx : Transaction) (h g : List Call) (r : Outcome String × List Call)
      → ledger P g ≡ ledger P h
      → Settles tx g r
      → IsConfirmed h r
  settled-IsConfirmed tx h g (ok id, h') same (confirms, grows) =
      (confirms, grows ∙ ap (λ l. id ∷ l) same)
  settled-IsConfirmed tx h g (err e, h') same none = none
  settled-IsConfirmed tx h g (panic why, h') same (inl nothing) = inl (nothing ∙ same)
  settled-IsConfirmed tx h g (panic why, h') same (inr grows) =
      inr (tx.id, grows ∙ ap (λ l. tx.id ∷ l) same)

  settle-IsSettled :
      (tx : Transaction) (opts : List ServiceOption) (s o : String) (h : List Call)
      → IsSettled P h
      → IsSettled P (settle P tx opts s o h).1
  unfolding settle assert_pending assert_confirmed
  settle-IsSettled tx opts s o h settled = ground arith

  -- What both views are: a preparation, and the end.
  module _ (opts : List ServiceOption) (s o : String) (h : List Call) where
    view-IsConfirmed :
        (r : Outcome Transaction × List Call)
        → Prepares h r
        → IsConfirmed h (((λ (_ : List Call). r) >>= λ tx. settle P tx opts s o) h)
    view-IsConfirmed (ok tx, h') p =
        settled-IsConfirmed tx h h' _ p.1 (settle-Settles tx opts s o h')
    view-IsConfirmed (err e, h') p = p
    view-IsConfirmed (panic why, h') p = inl p.1

    view-IsSettled :
        (r : Outcome Transaction × List Call)
        → Prepares h r
        → IsSettled P h
        → IsSettled P (((λ (_ : List Call). r) >>= λ tx. settle P tx opts s o) h).1
    view-IsSettled (ok tx, h') p settled = settle-IsSettled tx opts s o h' (p.0 settled)
    view-IsSettled (err e, h') p settled = absurd p
    view-IsSettled (panic why, h') p settled = p.0 settled

  pub issue_cash_call-IsSettled :
      (p : IssueCash) (h : List Call) → IsSettled P h → IsSettled P (issue_cash_call P p h).1
  unfolding issue_cash_call
  issue_cash_call-IsSettled p h =
      view-IsSettled _ _ _ h (prepare_issue P p h) (prepare_issue-Prepares p h)

  pub redeem_call-IsSettled :
      (t : Redeem) (h : List Call) → IsSettled P h → IsSettled P (redeem_call P t h).1
  unfolding redeem_call
  redeem_call-IsSettled t h =
      view-IsSettled _ _ _ h (prepare_redeem P t h) (prepare_redeem-Prepares t h)

  -- `IssueCashView` returns a transaction's ID only if its endorsements were collected, it was
  -- pending then, its ordering succeeded and it is confirmed, these being the last calls, and it
  -- has committed no other transaction. It never returns an error; if it panics, it has committed
  -- at most one.
  pub issue_cash_call-IsConfirmed :
      (p : IssueCash) (h : List Call) → IsConfirmed h (issue_cash_call P p h)
  unfolding issue_cash_call
  issue_cash_call-IsConfirmed p h =
      view-IsConfirmed _ _ _ h (prepare_issue P p h) (prepare_issue-Prepares p h)

  -- `RedeemView` returns a transaction's ID only if its endorsements were collected, it was
  -- pending then, its ordering succeeded and it is confirmed, these being the last calls, and it
  -- has committed no other transaction. It never returns an error; if it panics, it has committed
  -- at most one.
  pub redeem_call-IsConfirmed : (t : Redeem) (h : List Call) → IsConfirmed h (redeem_call P t h)
  unfolding redeem_call
  redeem_call-IsConfirmed t h =
      view-IsConfirmed _ _ _ h (prepare_redeem P t h) (prepare_redeem-Prepares t h)
