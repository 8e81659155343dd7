-- ===== src/Tokens/Settlement.antt =====
-- The safety property of every flow: a transaction is handed to the ordering service only after
-- its endorsements were collected without an error; and what a flow tells of the transaction.
use fabric_x_samples.Prelude.{String, List, [], ◌∷◌, ◌≡◌, ◌⊎◌}
use fabric_x_samples.Go.{Outcome, ok, err, panic}
use fabric_x_samples.Tokens.Types.{Transaction, Call}
use fabric_x_samples.Tokens.Platform.{Platform}

module _ (P : Platform) where
  -- The call is a collection of the transaction's endorsements that succeeded.
  abbrev Collects : Transaction → Call → List Call → Type 0
  Collects tx (Call.collect_endorsements t opts) h =
      (t ≡ tx) × (P.collect_endorsements h t opts ≡ ok tt)
  Collects tx _ h = ⊥

  abbrev pub Collected : Transaction → List Call → Type 0
  Collected tx [] = ⊥
  Collected tx (c ∷ h) = Collects tx c h ⊎ Collected tx h

  abbrev Allows : Call → List Call → Type 0
  Allows (Call.order tx) h = Collected tx h
  Allows _ h = Unit

  abbrev pub IsSettled : List Call → Type 0
  IsSettled [] = Unit
  IsSettled (c ∷ h) = Allows c h × IsSettled h

  -- The call hands the transaction to the ordering service, which reports that it is final.
  abbrev Commits : Transaction → Call → List Call → Type 0
  Commits tx (Call.order t) h = (t ≡ tx) × (P.order h t ≡ ok tt)
  Commits tx _ h = ⊥

  abbrev pub Committed : Transaction → List Call → Type 0
  Committed tx [] = ⊥
  Committed tx (c ∷ h) = Commits tx c h ⊎ Committed tx h

  -- The IDs of the transactions that the ordering service has committed, newest first.
  abbrev entry : Outcome (Unit {0}) → String → List String → List String
  entry (ok done) id ids = id ∷ ids
  entry (err e) id ids = ids
  entry (panic why) id ids = ids

  abbrev pub ledger : List Call → List String
  ledger [] = []
  ledger (Call.order t ∷ h) = entry (P.order h t) t.id (ledger h)
  ledger (_ ∷ h) = ledger h

  abbrev IsLast : String → List Call → Type 0
  IsLast id (Call.order t ∷ h) = (id ≡ t.id) × (P.order h t ≡ ok tt)
  IsLast id _ = ⊥

  -- Between the two histories the transaction of this ID was committed, by the newest call, and no
  -- other one.
  abbrev pub CommitsLast : List Call → String → List Call → Type 0
  CommitsLast h id h' = IsLast id h' × (ledger h' ≡ id ∷ ledger h)

  -- Between the two histories no transaction was committed.
  abbrev pub CommitsNothing : List Call → List Call → Type 0
  CommitsNothing h h' = ledger h' ≡ ledger h

  -- A flow that returns an ID has just committed that transaction, and no other; one that fails has
  -- committed nothing.
  abbrev pub IsAtomic : List Call → Outcome String × List Call → Type 0
  IsAtomic h (ok id, h') = CommitsLast h id h'
  IsAtomic h (err e, h') = CommitsNothing h h'
  IsAtomic h (panic why, h') = CommitsNothing h h'
