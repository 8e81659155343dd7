-- ===== src/Tokens/Owner/Acceptance.antt =====
-- tokens/owner/service/htlc_lock.go: which locks the recipient's node accepts (`LockAcceptView`).
use fabric_x_samples.Prelude.{
  String, some, List, [], ◌∷◌, ◌≡◌, ◌⊎◌, refl, inl, inr, length, arith, eq_iff,
}
use fabric_x_samples.Go.{Outcome, ok, err, panic, ◌>>=◌}
use fabric_x_samples.Tokens.Types.{Identity, Transaction, Script, Output, Call}
use fabric_x_samples.Tokens.Platform.{Platform}
use fabric_x_samples.Tokens.Owner.Types.{Value}
use fabric_x_samples.Tokens.Owner.Lock.{receive_lock, accept_script, lock_accept_call}

-- The transactions that the node has accepted, newest first.
abbrev pub accepted : List Call → List Transaction
accepted [] = []
accepted (Call.accept tx ∷ h) = tx ∷ accepted h
accepted (_ ∷ h) = accepted h

module _ (P : Platform) (h : List Call) where
  abbrev pub asked : List Call
  asked = Call.respond_exchange_recipient_identities ∷ h

  abbrev pub received : List Call
  received = Call.receive_transaction ∷ asked

  abbrev pub IsOnly : Script → Outcome (List Output) → Type 0
  IsOnly script (ok outputs) =
      (length (P.by_script outputs) ≡ 1) × (P.script_at (P.by_script outputs) 0 ≡ some script)
  IsOnly script (err e) = ⊥
  IsOnly script (panic why) = ⊥

  -- After the exchange of these identities this transaction was received, whose only output with a
  -- script has this one.
  abbrev Offers : Identity × Identity × Transaction × Script → Type 0
  Offers (me, other, tx, script) =
      (P.respond_exchange_recipient_identities h ≡ ok (me, other))
      × (P.receive_transaction asked ≡ ok tx)
      × IsOnly script (P.outputs received tx)

  -- The script is valid, and it is between the two identities.
  abbrev IsBetween : Identity × Identity × Transaction × Script → Type 0
  IsBetween (me, other, tx, script) =
      (P.script_valid received script ≡ ok tt) × (script.recipient ≡ me) × (script.sender ≡ other)

  -- The transaction is accepted after its receipt, and then at most its finality is awaited.
  abbrev AcceptsOnly : Transaction → List Call → Type 0
  AcceptsOnly tx h' =
      (h' ≡ Call.accept tx ∷ received)
      ⊎ ((h' ≡ Call.await_finality tx ∷ Call.accept tx ∷ received) × (P.accept received tx ≡ ok tt))

  abbrev Completes : Transaction → String → List Call → Type 0
  Completes tx id h' =
      (tx.id ≡ id)
      × (h' ≡ Call.await_finality tx ∷ Call.accept tx ∷ received)
      × (P.accept received tx ≡ ok tt)
      × (P.await_finality (Call.accept tx ∷ received) tx ≡ ok tt)

  abbrev Offer : Type 0
  Offer = Identity × Identity × Transaction × Script

  abbrev AcceptsAny : List Call → Type 0
  AcceptsAny h' = (o : Offer) × (Offers o × IsBetween o × AcceptsOnly o.2 h')

  -- A view that returns has accepted the transaction that it returns the ID of, and seen it final. One
  -- that fails has accepted nothing, or a transaction that it was right to accept.
  abbrev pub AcceptsLock : Outcome Value × List Call → Type 0
  AcceptsLock (ok (Value.string id), h') =
      (o : Offer) × (Offers o × IsBetween o × Completes o.2 id h')
  AcceptsLock (ok Value.nothing, h') = ⊥
  AcceptsLock (ok (Value.locked r), h') = ⊥
  AcceptsLock (err e, h') = (accepted h' ≡ accepted h) ⊎ AcceptsAny h'
  AcceptsLock (panic why, h') = (accepted h' ≡ accepted h) ⊎ AcceptsAny h'

  abbrev ReceivesOffer : Outcome Offer × List Call → Type 0
  ReceivesOffer (ok o, g) = Offers o × (g ≡ received)
  ReceivesOffer (err e, g) = accepted g ≡ accepted h
  ReceivesOffer (panic why, g) = accepted g ≡ accepted h

  receive_lock-ReceivesOffer : ReceivesOffer (receive_lock P h)
  unfolding receive_lock
  receive_lock-ReceivesOffer = ground arith

  -- The checks of a script, from the receipt of its transaction.
  abbrev Decides : Offer → Outcome Value × List Call → Type 0
  Decides o (ok (Value.string id), h') = IsBetween o × Completes o.2 id h'
  Decides o (ok Value.nothing, h') = ⊥
  Decides o (ok (Value.locked r), h') = ⊥
  Decides o (err e, h') = (h' ≡ received) ⊎ (IsBetween o × AcceptsOnly o.2 h')
  Decides o (panic why, h') = (h' ≡ received) ⊎ (IsBetween o × AcceptsOnly o.2 h')

  accept_script-Decides : (o : Offer) → Decides o (accept_script P o received)
  unfolding accept_script
  accept_script-Decides (me, other, tx, script) =
      ground (arith, eq_iff me script.recipient, eq_iff other script.sender)

  Decides-AcceptsLock :
      (o : Offer) (r : Outcome Value × List Call) → Offers o → Decides o r → AcceptsLock r
  Decides-AcceptsLock o (ok (Value.string id), h') offers (between, completes) =
      (o, (offers, between, completes))
  Decides-AcceptsLock o (ok Value.nothing, h') offers d = d
  Decides-AcceptsLock o (ok (Value.locked r), h') offers d = d
  Decides-AcceptsLock o (err e, h') offers (inl same) = inl (rw same refl)
  Decides-AcceptsLock o (err e, h') offers (inr (between, only)) = inr (o, (offers, between, only))
  Decides-AcceptsLock o (panic why, h') offers (inl same) = inl (rw same refl)
  Decides-AcceptsLock o (panic why, h') offers (inr (between, only)) =
      inr (o, (offers, between, only))

  offered-AcceptsLock :
      (r : Outcome Offer × List Call)
      → ReceivesOffer r
      → AcceptsLock (((λ (_ : List Call). r) >>= λ o. accept_script P o) h)
  offered-AcceptsLock (ok o, g) (offers, same) =
      rw same (Decides-AcceptsLock o (accept_script P o received) offers (accept_script-Decides o))
  offered-AcceptsLock (err e, g) same = inl same
  offered-AcceptsLock (panic why, g) same = inl same

  -- If `LockAcceptView` returns an ID, it has exchanged identities, received the transaction of that ID,
  -- accepted it and seen it final, by these four calls. One output of the transaction has a script,
  -- which is valid and names its own identity as the recipient and the other one as the sender. If the
  -- view fails, it has accepted nothing, or only a transaction for which all of this holds.
  pub lock_accept_call-AcceptsLock : AcceptsLock (lock_accept_call P h)
  unfolding lock_accept_call
  lock_accept_call-AcceptsLock = offered-AcceptsLock (receive_lock P h) receive_lock-ReceivesOffer
