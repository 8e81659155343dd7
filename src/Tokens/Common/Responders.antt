-- ===== src/Tokens/Common/Responders.antt =====
-- tokens/common/views: the views that answer another node (`AcceptCashView`, `IssuerRedeemAcceptView`) hand
-- nothing to the ordering service.
use fabric_x_samples.Prelude.{List, [], ◌∷◌, ◌≡◌, refl, sym, subst, arith}
use fabric_x_samples.Go.{Outcome, ok, err, panic, Go, must, peek, ◌>>=◌, ◌>>◌}
use fabric_x_samples.Tokens.Types.{Identity, Transaction, Output, Call}
use fabric_x_samples.Tokens.Platform.{Platform}
use fabric_x_samples.Tokens.Settlement.{IsSettled, ledger}
use fabric_x_samples.Tokens.Common.Assert.{assert_output, assert_outputs, assert_tokens}
use fabric_x_samples.Tokens.Common.Views.{
  accept_cash_call, accept_tokens, assert_pending, assert_confirmed, issuer_redeem_accept_call,
}

module _ (P : Platform) where
  -- The checks on the token database call nothing that is recorded.
  assert_output-quiet :
      (tx : Transaction) (id : Identity) (output : Output) (h : List Call)
      → (assert_output P tx id output h).1 ≡ h
  unfolding assert_output
  assert_output-quiet tx id output h = ground arith

  then-quiet :
      (h : List Call) (r : Outcome (Unit {0}) × List Call) (k : Go Call (Unit {0}))
      → r.1 ≡ h
      → (k h).1 ≡ h
      → (((λ (_ : List Call). r) >> k) h).1 ≡ h
  then-quiet h (ok u, g) k same rest = subst (λ g. (k g).1 ≡ h) (sym same) rest
  then-quiet h (err e, g) k same rest = same
  then-quiet h (panic why, g) k same rest = same

  assert_outputs-quiet :
      (tx : Transaction) (id : Identity) (outputs : List Output) (h : List Call)
      → (assert_outputs P tx id outputs h).1 ≡ h
  unfolding assert_outputs
  assert_outputs-quiet tx id [] h = refl
  assert_outputs-quiet tx id (output ∷ outputs) h =
      then-quiet h (assert_output P tx id output h) (assert_outputs P tx id outputs)
        (assert_output-quiet tx id output h) (assert_outputs-quiet tx id outputs h)

  assert_tokens-quiet :
      (tx : Transaction) (outputs : List Output) (id : Identity) (h : List Call)
      → (assert_tokens P tx outputs id h).1 ≡ h
  unfolding assert_tokens
  assert_tokens-quiet tx outputs id h =
      then-quiet h (must "failed to get token db" (peek (λ g. P.token_db g tx)) h)
        (assert_outputs P tx id outputs) (ground arith) (assert_outputs-quiet tx id outputs h)

  -- A history that stays settled, and to which no transaction is committed.
  abbrev Responds : {A : Type 0} → List Call → Outcome A × List Call → Type 0
  Responds h (r, h') = (IsSettled P h → IsSettled P h') × (ledger P h' ≡ ledger P h)

  accept_tokens-Responds : (h : List Call) → Responds h (accept_tokens P h)
  unfolding accept_tokens assert_pending assert_confirmed
  accept_tokens-Responds h = ground arith

  asserted-Responds :
      (h : List Call) (r : Outcome (Transaction × List Output × Identity) × List Call)
      → Responds h r
      → Responds h
          (((λ (_ : List Call). r) >>= λ (tx, outputs, id). assert_tokens P tx outputs id) h)
  asserted-Responds h (ok (tx, outputs, id), g) responds =
      subst (λ g'. (IsSettled P h → IsSettled P g') × (ledger P g' ≡ ledger P h))
        (sym (assert_tokens-quiet tx outputs id g)) responds
  asserted-Responds h (err e, g) responds = responds
  asserted-Responds h (panic why, g) responds = responds

  pub accept_cash_call-Responds : (h : List Call) → Responds h (accept_cash_call P h)
  unfolding accept_cash_call
  accept_cash_call-Responds h = asserted-Responds h (accept_tokens P h) (accept_tokens-Responds h)

  pub issuer_redeem_accept_call-Responds :
      (h : List Call) → Responds h (issuer_redeem_accept_call P h)
  unfolding issuer_redeem_accept_call
  issuer_redeem_accept_call-Responds h = ground arith
