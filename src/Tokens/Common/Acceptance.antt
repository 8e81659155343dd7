-- ===== src/Tokens/Common/Acceptance.antt =====
-- tokens/common/views/accept.go: what an owner knows when `AcceptCashView` returns.
use fabric_x_samples.Prelude.{List, ◌∷◌, ◌≡◌, ◌<◌, length, arith}
use fabric_x_samples.Go.{Outcome, ok, err, panic, ◌>>=◌}
use fabric_x_samples.Tokens.Types.{Identity, Transaction, Output, pending, confirmed, Call}
use fabric_x_samples.Tokens.Platform.{Platform}
use fabric_x_samples.Tokens.Common.Assert.{AreKept, Decides, assert_tokens, assert_tokens-Decides}
use fabric_x_samples.Tokens.Common.Views.{
  accept_cash_call, accept_tokens, assert_pending, assert_confirmed,
}

module _ (P : Platform) where
  -- The transaction was received after the identity was given out, has these outputs, of which one at
  -- least is for the identity, was accepted while it was pending, and was then confirmed.
  abbrev Receives : List Call → Transaction × List Output × Identity → List Call → Type 0
  Receives h (tx, outputs, id) h' =
      let asked = Call.respond_recipient_identity "" ∷ h in
      let received = Call.receive_transaction ∷ asked in
      let accepted = Call.accept tx ∷ received in
      (h' ≡ Call.await_finality tx ∷ accepted)
      × (P.respond_recipient_identity h "" ≡ ok id)
      × (P.receive_transaction asked ≡ ok tx)
      × (P.outputs received tx ≡ ok outputs)
      × (0 < length (P.by_recipient id outputs))
      × (P.accept received tx ≡ ok tt)
      × (P.status accepted tx ≡ ok pending)
      × (P.await_finality accepted tx ≡ ok tt)
      × (P.status h' tx ≡ ok confirmed)

  abbrev ReceivesAll :
      List Call → Outcome (Transaction × List Output × Identity) × List Call → Type 0
  ReceivesAll h (ok (tx, outputs, id), h') = Receives h (tx, outputs, id) h'
  ReceivesAll h (err e, h') = ⊥
  ReceivesAll h (panic why, h') = Unit

  -- The view has received some tokens, which its database holds.
  abbrev pub Accepts : List Call → Outcome (Unit {0}) × List Call → Type 0
  Accepts h (ok u, h') =
      (tx : Transaction) × (outputs : List Output) × (id : Identity) × (Receives h (tx, outputs, id)
          h'
        × (P.token_db h' tx ≡ ok tt)
        × AreKept P tx id h' outputs)
  Accepts h (err e, h') = ⊥
  Accepts h (panic why, h') = Unit

  accept_tokens-ReceivesAll : (h : List Call) → ReceivesAll h (accept_tokens P h)
  unfolding accept_tokens assert_pending assert_confirmed
  accept_tokens-ReceivesAll h = ground arith

  kept-Accepts :
      (h g : List Call) (tx : Transaction) (outputs : List Output) (id : Identity)
      → Receives h (tx, outputs, id) g
      → (r : Outcome (Unit {0}) × List Call)
      → Decides P tx ((P.token_db g tx ≡ ok tt) × AreKept P tx id g outputs) g r
      → Accepts h r
  kept-Accepts h g tx outputs id received (ok u, h') (kept, same) =
      rw same (tx, outputs, id, (received, kept.0, kept.1))
  kept-Accepts h g tx outputs id received (err e, h') none = none
  kept-Accepts h g tx outputs id received (panic why, h') fails = tt

  received-Accepts :
      (h : List Call) (r : Outcome (Transaction × List Output × Identity) × List Call)
      → ReceivesAll h r
      → Accepts h
          (((λ (_ : List Call). r) >>= λ (tx, outputs, id). assert_tokens P tx outputs id) h)
  received-Accepts h (ok (tx, outputs, id), g) received =
      kept-Accepts h g tx outputs id received (assert_tokens P tx outputs id g)
        (assert_tokens-Decides P tx outputs id g)
  received-Accepts h (err e, g) none = none
  received-Accepts h (panic why, g) any = tt

  -- `AcceptCashView` never returns an error. If it returns, it has given out an identity, received a
  -- transaction with an output for that identity, accepted it while it was pending and seen it
  -- confirmed, by these four calls; and the outputs that belong to the identity or to this node are in
  -- the token database of the transaction's TMS, and no other output is.
  pub accept_cash_call-Accepts : (h : List Call) → Accepts h (accept_cash_call P h)
  unfolding accept_cash_call
  accept_cash_call-Accepts h = received-Accepts h (accept_tokens P h) (accept_tokens-ReceivesAll h)
