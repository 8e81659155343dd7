-- ===== src/Tokens/Contents.antt =====
-- What a transaction moves: the actions that a view puts into it before it is endorsed and ordered.
-- The text that a view returns is the ID of the transaction that holds them.
use fabric_x_samples.Prelude.{
  String, Option, none, some, List, [], ◌∷◌, ◌≡◌, refl, ◌==◌, if◌then◌else◌, Option-cases, inl, inr,
}
use fabric_x_samples.Go.{Outcome, ok, err, panic, Go, peek, pure, wrapping, ◌>>=◌, ◌>>◌}
use fabric_x_samples.Tokens.Types.{Transaction, Call}
use fabric_x_samples.Tokens.Platform.{Platform, initiate_view, rescue}
use fabric_x_samples.Tokens.Calls.{order}
use fabric_x_samples.Tokens.Http.{Answer, Body, json, problem, plain, success, strict}
use fabric_x_samples.Tokens.Owner.Types.{Value, as_string}

-- The calls that put something into a transaction, newest first.
abbrev pub actions : List Call → List Call
actions [] = []
actions (Call.set_metadata tx key value ∷ h) = Call.set_metadata tx key value ∷ actions h
actions (Call.transfer tx w type qs owners ∷ h) = Call.transfer tx w type qs owners ∷ actions h
actions (Call.issue tx w owner type q ∷ h) = Call.issue tx w owner type q ∷ actions h
actions (Call.redeem tx w type q opts ∷ h) = Call.redeem tx w type q opts ∷ actions h
actions (Call.lock tx w me type q owner deadline hash ∷ h) =
    Call.lock tx w me type q owner deadline hash ∷ actions h
actions (Call.claim tx w token pre_image ∷ h) = Call.claim tx w token pre_image ∷ actions h
actions (Call.reclaim tx w token ∷ h) = Call.reclaim tx w token ∷ actions h
actions (_ ∷ h) = actions h

abbrev pub newest : List Call → Option Call
newest [] = none
newest (c ∷ h) = some c

-- The metadata of a transaction with this message: none for the empty one.
abbrev pub attached : Transaction → String → List Call → List Call
attached tx message h = if message == "" then h else Call.set_metadata tx "message" message ∷ h

-- Between the two histories the transaction of this ID got the action, beside its message, and
-- nothing else; no other transaction got anything. The newest call hands it to the ordering service.
abbrev pub Moves :
    (Transaction → Call) → String → Transaction → List Call → String → List Call → Type 0
Moves action message tx h id h' =
    (tx.id ≡ id)
    × (newest h' ≡ some (Call.order tx))
    × (actions h' ≡ action tx ∷ attached tx message (actions h))

-- The actions of a history that prepares a transaction.
abbrev pub Holds : (Transaction → Call) → String → Transaction → List Call → List Call → Type 0
Holds action message tx h g = actions g ≡ action tx ∷ attached tx message (actions h)

abbrev pub answered {ℓ} : {A : Type ℓ} → Outcome A → Option A
answered (ok a) = some a
answered (err e) = none
answered (panic why) = none

-- What a computation says of the value that it returns.
abbrev pub OnResult : {A : Type 0} → (A → List Call → Type 0) → Outcome A × List Call → Type 0
OnResult Q (ok a, h') = Q a h'
OnResult Q (err e, h') = Unit
OnResult Q (panic why, h') = Unit

abbrev pub OnValue : (String → List Call → Type 0) → Outcome Value × List Call → Type 0
OnValue Q (ok (Value.string id), h') = Q id h'
OnValue Q (ok Value.nothing, h') = ⊥
OnValue Q (ok (Value.locked r), h') = ⊥
OnValue Q (err e, h') = Unit
OnValue Q (panic why, h') = Unit

abbrev OnBody : {A : Type 0} → (A → List Call → Type 0) → Body A → List Call → Type 0
OnBody Q (json message a) h' = Q a h'
OnBody Q (problem p) h' = Unit
OnBody Q (plain e) h' = Unit

-- What an answer says of its payload.
abbrev pub OnAnswer :
    {A : Type 0} → (A → List Call → Type 0) → Outcome (Answer A) × List Call → Type 0
OnAnswer Q (ok a, h') = OnBody Q a.body h'
OnAnswer Q (err e, h') = Unit
OnAnswer Q (panic why, h') = Unit

module _ (P : Platform) (Q : String → List Call → Type 0) where
  pub rescued-OnResult :
      (r : Outcome String × List Call) → OnResult Q r → OnResult Q (rescue P r.0, r.1)
  rescued-OnResult (ok id, h') q = q
  rescued-OnResult (err e, h') q = tt
  rescued-OnResult (panic why, h') q = elim (Option-cases (P.recovered why)) [
    | inl e ↦ rw (e, rescue) tt
    | inr (x, e) ↦ rw (e, rescue) tt
  ]

  rescued-OnValue :
      (failure : String) (h : List Call) (r : Outcome Value × List Call)
      → OnValue Q r
      → OnResult Q (((λ (_ : List Call). (rescue P r.0, r.1)) >>= as_string failure) h)
  rescued-OnValue failure h (ok (Value.string id), h') q = q
  rescued-OnValue failure h (ok Value.nothing, h') q = absurd q
  rescued-OnValue failure h (ok (Value.locked r), h') q = absurd q
  rescued-OnValue failure h (err e, h') q = tt
  rescued-OnValue failure h (panic why, h') q = elim (Option-cases (P.recovered why)) [
    | inl e ↦ rw (e, rescue) tt
    | inr (x, e) ↦ rw (e, rescue) tt
  ]

  -- What holds of a view's result holds of what the service returns.
  pub service-OnResult :
      (failure : String) (m : Go Call Value) (h : List Call)
      → OnValue Q (m h)
      → OnResult Q ((peek P.get_manager >> (initiate_view P m >>= as_string failure)) h)
  service-OnResult failure m h q = start (P.get_manager h) (P.new_context h)
    where
      start :
          (managed context : Outcome (Unit {0}))
          → OnResult Q (
              ((λ (g : List Call). (managed, g))
                  >> (((λ (g : List Call). (context, g))
                        >> (λ g. let (r, h') = m g in (rescue P r, h')))
                      >>= as_string failure))
                h)
      start (err e) context = tt
      start (panic why) context = tt
      start (ok _) (err e) = tt
      start (ok _) (panic why) = tt
      start (ok _) (ok _) = rescued-OnValue failure h (m h) q

  -- What holds of the ID that the service returns holds of the one in the answer.
  pub success-OnAnswer :
      (h : List Call) (r : Outcome String × List Call)
      → OnResult Q r
      → OnAnswer Q (strict ((λ (_ : List Call). r) >>= λ id. pure (success "ok" id)) h)
  unfolding strict
  success-OnAnswer h (ok id, h') q = q
  success-OnAnswer h (err e, h') q = tt
  success-OnAnswer h (panic why, h') q = tt

  -- A view orders the transaction that it has prepared and returns its ID.
  ordered-OnValue :
      (tx : Transaction) (text : String) (g : List Call)
      → Q tx.id (Call.order tx ∷ g)
      → (r : Outcome (Unit {0}))
      → OnValue Q (
          (wrapping text (λ (_ : List Call). (r, Call.order tx ∷ g)) >> pure (Value.string tx.id))
            g)
  ordered-OnValue tx text g q (ok _) = q
  ordered-OnValue tx text g q (err e) = tt
  ordered-OnValue tx text g q (panic why) = tt

  pub prepared-OnValue :
      (h : List Call) (text : String) (r : Outcome Transaction × List Call)
      → ((tx : Transaction) (g : List Call) → r ≡ (ok tx, g) → Q tx.id (Call.order tx ∷ g))
      → OnValue Q (
          ((λ (_ : List Call). r) >>= λ tx. wrapping text (order P tx) >> pure (Value.string tx.id))
            h)
  prepared-OnValue h text (ok tx, g) q = ordered-OnValue tx text g (q tx g refl) (P.order g tx)
  prepared-OnValue h text (err e, g) q = tt
  prepared-OnValue h text (panic why, g) q = tt
