-- ===== src/Tokens/Owner/Contents/Payments.antt =====
-- What a transfer and a redemption move: whose tokens, of which type, how many and to whom.
use fabric_x_samples.Prelude.{
  String, false, Option, none, some, List, [], ◌∷◌, ◌≡◌, refl, ◌==◌, if◌then◌else◌, ◌∙◌, ap, subst,
  arith, eq_iff,
}
use fabric_x_samples.Go.{Outcome, ok, err, panic, pure, wrapping, ◌>>=◌, ◌>>◌}
use fabric_x_samples.Tokens.Types.{
  Identity, Wallet, Transaction, Call, with_fsc_issuer_identity,
  with_issuer_public_params_public_key,
}
use fabric_x_samples.Tokens.Platform.{Platform}
use fabric_x_samples.Tokens.Calls.{order}
use fabric_x_samples.Tokens.Contents.{
  actions, attached, Moves, Holds, answered, OnValue, OnAnswer, service-OnResult, success-OnAnswer,
  prepared-OnValue,
}
use fabric_x_samples.Tokens.Http.{strict}
use fabric_x_samples.Tokens.Owner.Types.{Value}
use fabric_x_samples.Tokens.Owner.Transfer.{
  TransferOptions, parties, build_transfer, transfer_call, transfer,
}
use fabric_x_samples.Tokens.Owner.Redeem.{RedeemOptions, prepare_redeem, redeem_call, redeem}
use fabric_x_samples.Tokens.Http.Tells.{Tells}
use fabric_x_samples.Tokens.Owner.Routes.Effects.{transfer_tokens-Tells, redeem_tokens-Tells}
use fabric_x_samples.Tokens.Owner.Routes.{transfer_tokens, redeem_tokens}
use fabric_x_samples.Tokens.Owner.Routes.Requests.{TransferRequest, RedeemRequest, or_empty}

module _ (P : Platform) (h : List Call) where
  -- The identity of a wallet of this node, and the one, not the empty one, that another node answers
  -- for an account.
  abbrev not_empty : Option Identity → Option Identity
  not_empty none = none
  not_empty (some owner) = if P.is_none owner then none else some owner

  abbrev wallet_identity : Option Wallet → Option Identity
  wallet_identity none = none
  wallet_identity (some w) = answered (P.wallet_identity h w)

  abbrev pub identity_for : String → String → Option Identity
  identity_for account node =
      if node == ""
      then wallet_identity (P.get_wallet h account [])
      else not_empty
          (answered (P.request_recipient_identity (Call.bind node account ∷ h) account []))

  -- The transfer of this quantity, from the wallet of the sender to the identity of the recipient.
  abbrev pub Pays : TransferOptions → String → List Call → Type 0
  Pays v id h' =
      (tx : Transaction) × (w : Wallet) × (owner : Identity) × ((P.get_wallet h v.wallet []
          ≡ some w)
        × (identity_for v.recipient v.recipient_node ≡ some owner)
        × Moves (λ t. Call.transfer t w v.token_type (v.quantity ∷ []) (owner ∷ [])) v.message tx h
            id h')

  abbrev Found : TransferOptions → Outcome (Wallet × Identity) × List Call → Type 0
  Found v (ok (w, owner), g) =
      (P.get_wallet h v.wallet [] ≡ some w)
      × (identity_for v.recipient v.recipient_node ≡ some owner)
      × (actions g ≡ actions h)
  Found v (err e, g) = Unit
  Found v (panic why, g) = Unit

  parties-Found : (v : TransferOptions) → Found v (parties P v h)
  unfolding parties
  parties-Found v = ground (arith, eq_iff v.recipient_node "")

  -- A transaction that is built holds the transfer between the parties.
  abbrev Built :
      TransferOptions → Wallet × Identity → List Call → Outcome Transaction × List Call → Type 0
  Built v (w, owner) g (ok tx, g') =
      Holds (λ t. Call.transfer t w v.token_type (v.quantity ∷ []) (owner ∷ [])) v.message tx g g'
  Built v both g (err e, g') = Unit
  Built v both g (panic why, g') = Unit

  build_transfer-Built :
      (v : TransferOptions) (both : Wallet × Identity) (g : List Call)
      → Built v both g (build_transfer P v both g)
  unfolding build_transfer
  build_transfer-Built v both g = ground (arith, eq_iff v.message "")

  paid :
      (v : TransferOptions) (r : Outcome (Wallet × Identity) × List Call)
      → Found v r
      → OnValue (Pays v) (
          ((λ (_ : List Call). r) >>= λ both. build_transfer P v both >>= λ tx.
          wrapping "failed asking ordering" (order P tx) >> pure (Value.string tx.id))
            h)
  paid v (ok (w, owner), g) (mine, theirs, same) =
      prepared-OnValue P (Pays v) g _ (build_transfer P v (w, owner) g) (λ tx g' e. (
        tx,
        w,
        owner,
        (
          mine,
          theirs,
          (
            refl,
            refl,
            subst (Built v (w, owner) g) e (build_transfer-Built v (w, owner) g)
                ∙ ap
                    (λ a.
                      Call.transfer tx w v.token_type (v.quantity ∷ []) (owner ∷ [])
                      ∷ attached tx v.message a)
                    same,
          ),
        ),
      ))
  paid v (err e, g) found = tt
  paid v (panic why, g) found = tt

  transfer_call-Pays : (v : TransferOptions) → OnValue (Pays v) (transfer_call P v h)
  unfolding transfer_call
  transfer_call-Pays v = paid v (parties P v h) (parties-Found v)

  abbrev pub transfer_options : String → TransferRequest → TransferOptions
  transfer_options id body = record {
    wallet = id;
    token_type = body.amount.code;
    quantity = body.amount.value;
    recipient_node = body.counterparty.node;
    recipient = body.counterparty.account;
    message = or_empty body.message;
  }

  transfer_tokens-OnAnswer :
      (id : String) (body : TransferRequest)
      → OnAnswer (Pays (transfer_options id body)) (strict (transfer_tokens P id body) h)
  unfolding transfer_tokens transfer strict
  transfer_tokens-OnAnswer id body =
      let v = transfer_options id body in
      success-OnAnswer P (Pays v) h
        (transfer P v.token_type v.quantity v.wallet v.recipient v.recipient_node v.message h)
        (service-OnResult P (Pays v) "cannot parse issue response" (transfer_call P v) h
          (transfer_call-Pays v))

  -- A transfer is answered with status 200 and the ID of the transaction that the last call
  -- committed, the only one that it committed; or with status 500, or by a panic, and then nothing is
  -- committed. The transaction of an ID in the answer holds one transfer and the message, if there is
  -- one, and no other was given anything: the quantity and the type of the request go from the account's
  -- wallet to the identity that the counterparty's node answered, or that its wallet on this node has.
  pub transfer_tokens-Pays :
      (id : String) (body : TransferRequest)
      → Tells P h false (strict (transfer_tokens P id body) h)
        × OnAnswer (Pays (transfer_options id body)) (strict (transfer_tokens P id body) h)
  transfer_tokens-Pays id body =
      (transfer_tokens-Tells P h id body, transfer_tokens-OnAnswer id body)

  -- The redemption of this quantity from the wallet, with the node of the issuer and the first issuer
  -- of the public parameters.
  abbrev redemption : RedeemOptions → Wallet → Identity → Transaction → Call
  redemption v w issuer tx = Call.redeem tx w v.token_type v.quantity (
      with_fsc_issuer_identity (P.identity_of "issuer")
      ∷ with_issuer_public_params_public_key issuer
      ∷ [])

  abbrev listed_issuers : String → Transaction → List Identity
  listed_issuers message tx = P.issuers (attached tx message (Call.new_transaction false [] ∷ h)) []

  abbrev pub Burns : RedeemOptions → String → List Call → Type 0
  Burns v id h' =
      (tx : Transaction) × (w : Wallet) × (issuer : Identity) × (others : List Identity)
      × ((P.get_wallet h v.wallet [] ≡ some w)
          × (listed_issuers v.message tx ≡ issuer ∷ others)
          × Moves (redemption v w issuer) v.message tx h id h')

  abbrev HoldsRedemption :
      RedeemOptions → Transaction → Option Wallet → List Identity → List Call → Type 0
  HoldsRedemption v tx none listed g = ⊥
  HoldsRedemption v tx (some w) [] g = ⊥
  HoldsRedemption v tx (some w) (issuer ∷ others) g = Holds (redemption v w issuer) v.message tx h g

  abbrev Prepared : RedeemOptions → Outcome Transaction × List Call → Type 0
  Prepared v (ok tx, g) =
      HoldsRedemption v tx (P.get_wallet h v.wallet []) (listed_issuers v.message tx) g
  Prepared v (err e, g) = Unit
  Prepared v (panic why, g) = Unit

  prepare_redeem-Prepared : (v : RedeemOptions) → Prepared v (prepare_redeem P v h)
  unfolding prepare_redeem
  prepare_redeem-Prepared v = ground (arith, eq_iff v.message "")

  HoldsRedemption-Burns :
      (v : RedeemOptions) (tx : Transaction) (g : List Call)
      → (mine : Option Wallet) → P.get_wallet h v.wallet [] ≡ mine
      → (listed : List Identity) → listed_issuers v.message tx ≡ listed
      → HoldsRedemption v tx mine listed g
      → Burns v tx.id (Call.order tx ∷ g)
  HoldsRedemption-Burns v tx g none e listed f holds = absurd holds
  HoldsRedemption-Burns v tx g (some w) e [] f holds = absurd holds
  HoldsRedemption-Burns v tx g (some w) e (issuer ∷ others) f holds =
      (tx, w, issuer, others, (e, f, (refl, refl, holds)))

  redeem_call-Burns : (v : RedeemOptions) → OnValue (Burns v) (redeem_call P v h)
  unfolding redeem_call
  redeem_call-Burns v = prepared-OnValue P (Burns v) h _ (prepare_redeem P v h) (λ tx g e.
      HoldsRedemption-Burns v tx g _ refl _ refl (subst (Prepared v) e (prepare_redeem-Prepared v)))

  abbrev pub redeem_options : String → RedeemRequest → RedeemOptions
  redeem_options id body = record {
    wallet = id;
    token_type = body.amount.code;
    quantity = body.amount.value;
    message = or_empty body.message;
  }

  redeem_tokens-OnAnswer :
      (id : String) (body : RedeemRequest)
      → OnAnswer (Burns (redeem_options id body)) (strict (redeem_tokens P id body) h)
  unfolding redeem_tokens redeem strict
  redeem_tokens-OnAnswer id body =
      let v = redeem_options id body in
      success-OnAnswer P (Burns v) h (redeem P v.token_type v.quantity v.wallet v.message h) (
        service-OnResult P (Burns v) "cannot parse redeem response" (redeem_call P v) h
          (redeem_call-Burns v))

  -- A redemption is answered with status 200 and the ID of the transaction that the last call
  -- committed, the only one that it committed; or with status 500, or by a panic, and then nothing is
  -- committed. The transaction of an ID in the answer holds one redemption and the message, if there is
  -- one, and no other was given anything: it burns the quantity and the type of the request from the
  -- account's wallet, with the node called issuer and the first issuer of the public parameters.
  pub redeem_tokens-Burns :
      (id : String) (body : RedeemRequest)
      → Tells P h false (strict (redeem_tokens P id body) h)
        × OnAnswer (Burns (redeem_options id body)) (strict (redeem_tokens P id body) h)
  redeem_tokens-Burns id body = (redeem_tokens-Tells P h id body, redeem_tokens-OnAnswer id body)
