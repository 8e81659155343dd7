-- ===== src/Tokens/Owner/Contents/Unlocks.antt =====
-- What a claim and a reclaim move: the locked token that the secret, or the hash, selects.
use fabric_x_samples.Prelude.{
  String, Option, none, some, List, [], ◌∷◌, ◌≡◌, refl, subst, arith, Bool-cases, inl, inr, nat_eq,
  length,
}
use fabric_x_samples.Go.{Outcome, ok, err, panic}
use fabric_x_samples.Tokens.Types.{Wallet, Transaction, Token, Call}
use fabric_x_samples.Tokens.Platform.{Platform}
use fabric_x_samples.Tokens.Contents.{
  Moves, Holds, OnValue, OnAnswer, service-OnResult, success-OnAnswer, prepared-OnValue,
}
use fabric_x_samples.Tokens.Http.{strict}
use fabric_x_samples.Tokens.Common.Options.{service_opts}
use fabric_x_samples.Tokens.Owner.Unlock.{
  ClaimOptions, ReclaimOptions, claim_call, reclaim_call, claim, reclaim, prepare_claim,
  prepare_reclaim,
}
use fabric_x_samples.Tokens.Http.Tells.{Tells}
use fabric_x_samples.Tokens.Owner.Routes.Effects.{claim_tokens-Tells, reclaim_tokens-Tells}
use fabric_x_samples.Tokens.Owner.Routes.{claim_tokens, reclaim_tokens, to_tmsid}
use fabric_x_samples.Tokens.Owner.Routes.Requests.{ClaimRequest, ReclaimRequest}

module _ (P : Platform) (h : List Call) where
  -- The claim of the one token that the wallet holds under the hash of this pre-image.
  abbrev pub Claims : ClaimOptions → String → List Call → Type 0
  Claims v id h' =
      (tx : Transaction) × (w : Wallet) × (token : Token) × ((P.get_wallet h v.wallet
            (service_opts v.tms_id [])
          ≡ some w)
        × (P.by_pre_image h w v.pre_image ≡ ok (token ∷ []))
        × Moves (λ t. Call.claim t w token v.pre_image) "" tx h id h')

  abbrev ClaimsToken :
      ClaimOptions → Transaction → Wallet → Outcome (List Token) → List Call → Type 0
  ClaimsToken v tx w (ok (token ∷ [])) g = Holds (λ t. Call.claim t w token v.pre_image) "" tx h g
  ClaimsToken v tx w (ok []) g = ⊥
  ClaimsToken v tx w (ok (token ∷ other ∷ rest)) g = ⊥
  ClaimsToken v tx w (err e) g = ⊥
  ClaimsToken v tx w (panic why) g = ⊥

  abbrev HoldsClaim : ClaimOptions → Transaction → Option Wallet → List Call → Type 0
  HoldsClaim v tx none g = ⊥
  HoldsClaim v tx (some w) g = ClaimsToken v tx w (P.by_pre_image h w v.pre_image) g

  abbrev PreparedClaim : ClaimOptions → Outcome Transaction × List Call → Type 0
  PreparedClaim v (ok tx, g) =
      HoldsClaim v tx (P.get_wallet h v.wallet (service_opts v.tms_id [])) g
  PreparedClaim v (err e, g) = Unit
  PreparedClaim v (panic why, g) = Unit

  prepare_claim-PreparedClaim : (v : ClaimOptions) → PreparedClaim v (prepare_claim P v h)
  unfolding prepare_claim
  prepare_claim-PreparedClaim v = ground arith

  ClaimsToken-Claims :
      (v : ClaimOptions) (tx : Transaction) (g : List Call) (w : Wallet)
      → P.get_wallet h v.wallet (service_opts v.tms_id []) ≡ some w
      → (listed : Outcome (List Token)) → P.by_pre_image h w v.pre_image ≡ listed
      → ClaimsToken v tx w listed g
      → Claims v tx.id (Call.order tx ∷ g)
  ClaimsToken-Claims v tx g w e (ok (token ∷ [])) f holds =
      (tx, w, token, (e, f, (refl, refl, holds)))
  ClaimsToken-Claims v tx g w e (ok []) f holds = absurd holds
  ClaimsToken-Claims v tx g w e (ok (token ∷ other ∷ rest)) f holds = absurd holds
  ClaimsToken-Claims v tx g w e (err x) f holds = absurd holds
  ClaimsToken-Claims v tx g w e (panic why) f holds = absurd holds

  HoldsClaim-Claims :
      (v : ClaimOptions) (tx : Transaction) (g : List Call)
      → (mine : Option Wallet) → P.get_wallet h v.wallet (service_opts v.tms_id []) ≡ mine
      → HoldsClaim v tx mine g
      → Claims v tx.id (Call.order tx ∷ g)
  HoldsClaim-Claims v tx g none e holds = absurd holds
  HoldsClaim-Claims v tx g (some w) e holds = ClaimsToken-Claims v tx g w e _ refl holds

  claim_call-Claims : (v : ClaimOptions) → OnValue (Claims v) (claim_call P v h)
  unfolding claim_call
  claim_call-Claims v = prepared-OnValue P (Claims v) h _ (prepare_claim P v h) (λ tx g e.
      HoldsClaim-Claims v tx g _ refl (subst (PreparedClaim v) e (prepare_claim-PreparedClaim v)))

  abbrev pub claim_options : String → ClaimRequest → ClaimOptions
  claim_options id body = record {
    tms_id = to_tmsid body.tms_id;
    wallet = id;
    pre_image = body.preimage;
  }

  claim_tokens-OnAnswer :
      (id : String) (body : ClaimRequest)
      → OnAnswer (Claims (claim_options id body)) (strict (claim_tokens P id body) h)
  unfolding claim_tokens claim strict
  claim_tokens-OnAnswer id body = elim (Bool-cases (nat_eq (length body.preimage) 0)) [
    | inl e ↦ rw (e, claim_tokens) tt
    | inr e ↦
        let v = claim_options id body in
        rw (e, claim_tokens)
          (success-OnAnswer P (Claims v) h (claim P v.wallet v.pre_image v.tms_id h) (
            service-OnResult P (Claims v) "cannot parse claim response" (claim_call P v) h
              (claim_call-Claims v)))
  ]

  -- A claim is refused with status 400 exactly if its pre-image is empty, before any call. Any other
  -- is answered with status 200 and the ID of the transaction that the last call committed, the only
  -- one that it committed; or with status 500 or by a panic, and then nothing is committed. The
  -- transaction of an ID in the answer holds one claim, with the pre-image of the request, of the only
  -- token that the account's wallet finds for it, and no other was given anything.
  pub claim_tokens-Claims :
      (id : String) (body : ClaimRequest)
      → Tells P h (nat_eq (length body.preimage) 0) (strict (claim_tokens P id body) h)
        × OnAnswer (Claims (claim_options id body)) (strict (claim_tokens P id body) h)
  claim_tokens-Claims id body = (claim_tokens-Tells P h id body, claim_tokens-OnAnswer id body)

  -- The reclaim of the expired token that the wallet holds under this hash.
  abbrev pub Reclaims : ReclaimOptions → String → List Call → Type 0
  Reclaims v id h' =
      (tx : Transaction) × (w : Wallet) × (token : Token) × ((P.get_wallet h v.wallet
            (service_opts v.tms_id [])
          ≡ some w)
        × (P.expired_by_hash h w v.hash ≡ ok token)
        × Moves (λ t. Call.reclaim t w token) "" tx h id h')

  abbrev ReclaimsToken : Transaction → Wallet → Outcome Token → List Call → Type 0
  ReclaimsToken tx w (ok token) g = Holds (λ t. Call.reclaim t w token) "" tx h g
  ReclaimsToken tx w (err e) g = ⊥
  ReclaimsToken tx w (panic why) g = ⊥

  abbrev HoldsReclaim : ReclaimOptions → Transaction → Option Wallet → List Call → Type 0
  HoldsReclaim v tx none g = ⊥
  HoldsReclaim v tx (some w) g = ReclaimsToken tx w (P.expired_by_hash h w v.hash) g

  abbrev PreparedReclaim : ReclaimOptions → Outcome Transaction × List Call → Type 0
  PreparedReclaim v (ok tx, g) =
      HoldsReclaim v tx (P.get_wallet h v.wallet (service_opts v.tms_id [])) g
  PreparedReclaim v (err e, g) = Unit
  PreparedReclaim v (panic why, g) = Unit

  prepare_reclaim-PreparedReclaim : (v : ReclaimOptions) → PreparedReclaim v (prepare_reclaim P v h)
  unfolding prepare_reclaim
  prepare_reclaim-PreparedReclaim v = ground arith

  ReclaimsToken-Reclaims :
      (v : ReclaimOptions) (tx : Transaction) (g : List Call) (w : Wallet)
      → P.get_wallet h v.wallet (service_opts v.tms_id []) ≡ some w
      → (expired : Outcome Token) → P.expired_by_hash h w v.hash ≡ expired
      → ReclaimsToken tx w expired g
      → Reclaims v tx.id (Call.order tx ∷ g)
  ReclaimsToken-Reclaims v tx g w e (ok token) f holds = (tx, w, token, (e, f, (refl, refl, holds)))
  ReclaimsToken-Reclaims v tx g w e (err x) f holds = absurd holds
  ReclaimsToken-Reclaims v tx g w e (panic why) f holds = absurd holds

  HoldsReclaim-Reclaims :
      (v : ReclaimOptions) (tx : Transaction) (g : List Call)
      → (mine : Option Wallet) → P.get_wallet h v.wallet (service_opts v.tms_id []) ≡ mine
      → HoldsReclaim v tx mine g
      → Reclaims v tx.id (Call.order tx ∷ g)
  HoldsReclaim-Reclaims v tx g none e holds = absurd holds
  HoldsReclaim-Reclaims v tx g (some w) e holds = ReclaimsToken-Reclaims v tx g w e _ refl holds

  reclaim_call-Reclaims : (v : ReclaimOptions) → OnValue (Reclaims v) (reclaim_call P v h)
  unfolding reclaim_call
  reclaim_call-Reclaims v = prepared-OnValue P (Reclaims v) h _ (prepare_reclaim P v h) (λ tx g e.
      HoldsReclaim-Reclaims v tx g _ refl
        (subst (PreparedReclaim v) e (prepare_reclaim-PreparedReclaim v)))

  abbrev pub reclaim_options : String → ReclaimRequest → ReclaimOptions
  reclaim_options id body = record { tms_id = to_tmsid body.tms_id; wallet = id; hash = body.hash }

  reclaim_tokens-OnAnswer :
      (id : String) (body : ReclaimRequest)
      → OnAnswer (Reclaims (reclaim_options id body)) (strict (reclaim_tokens P id body) h)
  unfolding reclaim_tokens reclaim strict
  reclaim_tokens-OnAnswer id body = elim (Bool-cases (nat_eq (length body.hash) 0)) [
    | inl e ↦ rw (e, reclaim_tokens) tt
    | inr e ↦
        let v = reclaim_options id body in
        rw (e, reclaim_tokens)
          (success-OnAnswer P (Reclaims v) h (reclaim P v.wallet v.hash v.tms_id h) (
            service-OnResult P (Reclaims v) "cannot parse reclaim response" (reclaim_call P v) h
              (reclaim_call-Reclaims v)))
  ]

  -- A reclaim is refused with status 400 exactly if its hash is empty, before any call. Any other is
  -- answered with status 200 and the ID of the transaction that the last call committed, the only one
  -- that it committed; or with status 500 or by a panic, and then nothing is committed. The transaction
  -- of an ID in the answer holds one reclaim, of the expired token that the account's wallet finds for
  -- the hash of the request, and no other was given anything.
  pub reclaim_tokens-Reclaims :
      (id : String) (body : ReclaimRequest)
      → Tells P h (nat_eq (length body.hash) 0) (strict (reclaim_tokens P id body) h)
        × OnAnswer (Reclaims (reclaim_options id body)) (strict (reclaim_tokens P id body) h)
  reclaim_tokens-Reclaims id body =
      (reclaim_tokens-Tells P h id body, reclaim_tokens-OnAnswer id body)
