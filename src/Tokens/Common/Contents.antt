-- ===== src/Tokens/Common/Contents.antt =====
-- tokens/common/views: what `IssueCashView` and `RedeemView` move.
use fabric_x_samples.Prelude.{
  String, true, Option, none, some, List, [], ◌∷◌, ◌<>◌, ◌≡◌, refl, subst, ◌∙◌, ◌==◌, if◌then◌else◌,
  has_prefix, arith,
}
use fabric_x_samples.Go.{Outcome, ok, err, panic, ◌>>=◌}
use fabric_x_samples.Tokens.Types.{
  Identity, Wallet, Transaction, ServiceOption, TxOption, TransferOption, Call,
}
use fabric_x_samples.Tokens.Platform.{Platform}
use fabric_x_samples.Tokens.Contents.{actions, OnResult}
use fabric_x_samples.Tokens.Common.Options.{service_opts, tx_opts}
use fabric_x_samples.Tokens.Common.Lifecycle.{
  IsConfirmed, issue_cash_call-IsConfirmed, redeem_call-IsConfirmed,
}
use fabric_x_samples.Tokens.Common.Views.{
  IssueCash, Redeem, issue_cash_call, prepare_issue, prepare_redeem, settle, redeem_call,
  assert_pending, assert_confirmed, issue_source,
}

module _ (P : Platform) (h : List Call) where
  -- The end of both views adds nothing to the transaction whose ID it returns.
  abbrev Keeps : Transaction → List Call → Outcome String × List Call → Type 0
  Keeps tx g (ok id, h') = (tx.id ≡ id) × (actions h' ≡ actions g)
  Keeps tx g (err e, h') = Unit
  Keeps tx g (panic why, h') = Unit

  settle-Keeps :
      (tx : Transaction) (opts : List ServiceOption) (s o : String) (g : List Call)
      → Keeps tx g (settle P tx opts s o g)
  unfolding settle assert_pending assert_confirmed
  settle-Keeps tx opts s o g = ground arith

  Keeps-OnResult :
      (Q : String → List Call → Type 0) (tx : Transaction) (g : List Call)
      → ((h' : List Call) → actions h' ≡ actions g → Q tx.id h')
      → (r : Outcome String × List Call) → Keeps tx g r
      → OnResult Q r
  Keeps-OnResult Q tx g each (ok id, h') (same, kept) = subst (λ i. Q i h') same (each h' kept)
  Keeps-OnResult Q tx g each (err e, h') keeps = tt
  Keeps-OnResult Q tx g each (panic why, h') keeps = tt

  module _ (Q : String → List Call → Type 0) (opts : List ServiceOption) (s o : String) where
    prepared-OnResult :
        (r : Outcome Transaction × List Call)
        → ((tx : Transaction) (g : List Call)
            → r ≡ (ok tx, g)
            → (h' : List Call) → actions h' ≡ actions g
            → Q tx.id h')
        → OnResult Q (((λ (_ : List Call). r) >>= λ tx. settle P tx opts s o) h)
    prepared-OnResult (ok tx, g) each =
        Keeps-OnResult Q tx g (each tx g refl) _ (settle-Keeps tx opts s o g)
    prepared-OnResult (err e, g) each = tt
    prepared-OnResult (panic why, g) each = tt

  module _ (p : IssueCash) where
    abbrev recipient_opts : List ServiceOption
    recipient_opts =
        service_opts p.tms_id (ServiceOption.with_recipient_wallet_id p.recipient_wallet_id ∷ [])

    abbrev asked : List Call
    asked = Call.request_recipient_identity p.recipient recipient_opts ∷ h

    abbrev issued : Transaction → Wallet → Identity → List Call
    issued tx w owner =
        Call.issue tx w owner p.token_type p.quantity
        ∷ Call.set_metadata tx (issue_source P <> "meta") "meta"
        ∷ Call.set_metadata tx (issue_source P <> "issue") "issue"
        ∷ actions h

    abbrev HasEid : Outcome String → Type 0
    HasEid (ok eid) = has_prefix eid p.recipient_eid ≡ true
    HasEid (err e) = ⊥
    HasEid (panic why) = ⊥

    -- The issuance of this quantity by the issuer's wallet, beside the metadata of the view, to the
    -- identity that the recipient answers, whose enrollment ID starts as is expected.
    abbrev pub Issues : String → List Call → Type 0
    Issues id h' =
        (tx : Transaction) × (w : Wallet) × (owner : Identity) × ((tx.id ≡ id)
          × (P.request_recipient_identity h p.recipient recipient_opts ≡ ok owner)
          × HasEid (P.enrollment_id asked owner)
          × (P.get_issuer_wallet asked p.issuer_wallet (service_opts p.tms_id []) ≡ some w)
          × (actions h' ≡ issued tx w owner))

    abbrev HoldsIssue : Transaction → Outcome Identity → Option Wallet → List Call → Type 0
    HoldsIssue tx (ok owner) (some w) g =
        HasEid (P.enrollment_id asked owner) × (actions g ≡ issued tx w owner)
    HoldsIssue tx (ok owner) none g = ⊥
    HoldsIssue tx (err e) w g = ⊥
    HoldsIssue tx (panic why) w g = ⊥

    abbrev PreparedIssue : Outcome Transaction × List Call → Type 0
    PreparedIssue (ok tx, g) =
        HoldsIssue tx (P.request_recipient_identity h p.recipient recipient_opts)
          (P.get_issuer_wallet asked p.issuer_wallet (service_opts p.tms_id [])) g
    PreparedIssue (err e, g) = Unit
    PreparedIssue (panic why, g) = Unit

    prepare_issue-PreparedIssue : PreparedIssue (prepare_issue P p h)
    unfolding prepare_issue
    prepare_issue-PreparedIssue = ground arith

    HoldsIssue-Issues :
        (tx : Transaction) (g : List Call) (theirs : Outcome Identity)
        → P.request_recipient_identity h p.recipient recipient_opts ≡ theirs
        → (mine : Option Wallet)
        → P.get_issuer_wallet asked p.issuer_wallet (service_opts p.tms_id []) ≡ mine
        → HoldsIssue tx theirs mine g
        → (h' : List Call) → actions h' ≡ actions g
        → Issues tx.id h'
    HoldsIssue-Issues tx g (ok owner) e (some w) f (eid, moved) h' kept =
        (tx, w, owner, (refl, e, eid, f, kept ∙ moved))
    HoldsIssue-Issues tx g (ok owner) e none f held h' kept = absurd held
    HoldsIssue-Issues tx g (err x) e mine f held h' kept = absurd held
    HoldsIssue-Issues tx g (panic why) e mine f held h' kept = absurd held

    issue_cash_call-OnResult : OnResult Issues (issue_cash_call P p h)
    unfolding issue_cash_call
    issue_cash_call-OnResult = prepared-OnResult Issues _ _ _ (prepare_issue P p h) (λ tx g e.
        HoldsIssue-Issues tx g _ refl _ refl (subst PreparedIssue e prepare_issue-PreparedIssue))

    -- `IssueCashView` returns a transaction's ID only if its endorsements were collected, it was
    -- pending then, its ordering succeeded and it is confirmed, these being the last calls, and it
    -- has committed no other transaction. The transaction holds one issuance, of the quantity and the type
    -- of the input by the issuer's wallet to the identity that the recipient answered, whose enrollment ID
    -- has the expected prefix, beside the two metadata of the view. The view never returns an error; if it
    -- panics, it has committed at most one transaction.
    pub issue_cash_call-Issues :
        IsConfirmed P h (issue_cash_call P p h) × OnResult Issues (issue_cash_call P p h)
    issue_cash_call-Issues = (issue_cash_call-IsConfirmed P p h, issue_cash_call-OnResult)

  module _ (t : Redeem) where
    abbrev begun : List Call
    begun =
        Call.new_transaction true
          (tx_opts t.tms_id (TxOption.with_auditor (P.identity_of t.auditor) ∷ []))
        ∷ h

    -- The IDs of the tokens; and, if the request names an issuer, its identity and public key.
    abbrev pub asks : List TransferOption
    asks =
        if t.issuer == ""
        then TransferOption.with_token_ids t.token_ids ∷ []
        else TransferOption.with_token_ids t.token_ids
          ∷ TransferOption.with_fsc_issuer_identity (P.identity_of t.issuer)
          ∷ TransferOption.with_issuer_public_params_public_key t.issuer_public_params_public_key
          ∷ []

    -- The redemption of this amount from the wallet, of the tokens and with the issuer of the request.
    abbrev pub Redeems : String → List Call → Type 0
    Redeems id h' =
        (tx : Transaction) × (w : Wallet) × ((tx.id ≡ id)
          × (P.get_wallet begun t.wallet (service_opts t.tms_id []) ≡ some w)
          × (actions h' ≡ Call.redeem tx w t.token_type t.amount asks ∷ actions h))

    abbrev HoldsRedeem : Transaction → Option Wallet → List Call → Type 0
    HoldsRedeem tx none g = ⊥
    HoldsRedeem tx (some w) g = actions g ≡ Call.redeem tx w t.token_type t.amount asks ∷ actions h

    abbrev PreparedRedeem : Outcome Transaction × List Call → Type 0
    PreparedRedeem (ok tx, g) =
        HoldsRedeem tx (P.get_wallet begun t.wallet (service_opts t.tms_id [])) g
    PreparedRedeem (err e, g) = Unit
    PreparedRedeem (panic why, g) = Unit

    prepare_redeem-PreparedRedeem : PreparedRedeem (prepare_redeem P t h)
    unfolding prepare_redeem
    prepare_redeem-PreparedRedeem = ground arith

    HoldsRedeem-Redeems :
        (tx : Transaction) (g : List Call) (mine : Option Wallet)
        → P.get_wallet begun t.wallet (service_opts t.tms_id []) ≡ mine
        → HoldsRedeem tx mine g
        → (h' : List Call) → actions h' ≡ actions g
        → Redeems tx.id h'
    HoldsRedeem-Redeems tx g none e held h' kept = absurd held
    HoldsRedeem-Redeems tx g (some w) e held h' kept = (tx, w, (refl, e, kept ∙ held))

    redeem_call-OnResult : OnResult Redeems (redeem_call P t h)
    unfolding redeem_call
    redeem_call-OnResult = prepared-OnResult Redeems _ _ _ (prepare_redeem P t h) (λ tx g e.
        HoldsRedeem-Redeems tx g _ refl (subst PreparedRedeem e prepare_redeem-PreparedRedeem))

    -- `RedeemView` returns a transaction's ID only if its endorsements were collected, it was
    -- pending then, its ordering succeeded and it is confirmed, these being the last calls, and it
    -- has committed no other transaction. The transaction holds one redemption, of the amount and the type
    -- of the input from its wallet, of the tokens with its IDs and, if it names an issuer, with that issuer's identity and public key, and
    -- nothing else. The view never returns
    -- an error; if it panics, it has committed at most one transaction.
    pub redeem_call-Redeems :
        IsConfirmed P h (redeem_call P t h) × OnResult Redeems (redeem_call P t h)
    redeem_call-Redeems = (redeem_call-IsConfirmed P t h, redeem_call-OnResult)
