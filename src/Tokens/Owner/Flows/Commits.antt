-- ===== src/Tokens/Owner/Flows/Commits.antt =====
-- An owner's view returns a transaction's ID exactly if it has committed the transaction: transfers,
-- redemptions, claims and reclaims.
use fabric_x_samples.Prelude.{String, List, ◌∷◌, ◌≡◌, refl, ap, ◌∙◌, arith}
use fabric_x_samples.Go.{Outcome, ok, err, panic, Go, pure, wrapping, ◌>>=◌, ◌>>◌}
use fabric_x_samples.Tokens.Types.{Identity, Wallet, Transaction, Call}
use fabric_x_samples.Tokens.Platform.{Platform}
use fabric_x_samples.Tokens.Calls.{order}
use fabric_x_samples.Tokens.Settlement.{CommitsLast, CommitsNothing}
use fabric_x_samples.Tokens.Owner.Types.{Value}
use fabric_x_samples.Tokens.Owner.Transfer.{TransferOptions, parties, build_transfer, transfer_call}
use fabric_x_samples.Tokens.Owner.Redeem.{RedeemOptions, prepare_redeem, redeem_call}
use fabric_x_samples.Tokens.Owner.Unlock.{
  ClaimOptions, ReclaimOptions, claim_call, reclaim_call, prepare_claim, prepare_reclaim,
}

module _ (P : Platform) where
  -- A view that returns a text has just committed the transaction of that ID; one that fails has
  -- committed nothing.
  abbrev pub IsAtomicView : List Call → Outcome Value × List Call → Type 0
  IsAtomicView h (ok (Value.string id), h') = CommitsLast P h id h'
  IsAtomicView h (ok Value.nothing, h') = ⊥
  IsAtomicView h (ok (Value.locked r), h') = ⊥
  IsAtomicView h (err e, h') = CommitsNothing P h h'
  IsAtomicView h (panic why, h') = CommitsNothing P h h'

  -- The computation commits nothing, however it ends.
  pub record IsQuiet {A : Type 0} (m : Go Call A) : Type 0 where
    pub at : (g : List Call) → CommitsNothing P g (m g).1

  -- A view orders the transaction that it has prepared and returns its ID.
  ordered-IsAtomicView :
      (h g : List Call) (tx : Transaction) (text : String)
      → CommitsNothing P h g
      → (r : Outcome (Unit {0})) → P.order g tx ≡ r
      → IsAtomicView h (
          (wrapping text (λ (_ : List Call). (r, Call.order tx ∷ g)) >> pure (Value.string tx.id))
            g)
  ordered-IsAtomicView h g tx text before (ok u) e = ground arith
  ordered-IsAtomicView h g tx text before (err x) e = ground arith
  ordered-IsAtomicView h g tx text before (panic why) e = ground arith

  prepared-IsAtomicView :
      (h : List Call) (text : String) (r : Outcome Transaction × List Call)
      → CommitsNothing P h r.1
      → IsAtomicView h (
          ((λ (_ : List Call). r) >>= λ tx. wrapping text (order P tx) >> pure (Value.string tx.id))
            h)
  prepared-IsAtomicView h text (ok tx, g) keep =
      ordered-IsAtomicView h g tx text keep (P.order g tx) refl
  prepared-IsAtomicView h text (err e, g) keep = keep
  prepared-IsAtomicView h text (panic why, g) keep = keep

  shifted-IsAtomicView :
      (h g : List Call)
      → CommitsNothing P h g
      → (m : Outcome Value × List Call) → IsAtomicView g m
      → IsAtomicView h m
  shifted-IsAtomicView h g keep (ok (Value.string id), h') (last, grows) =
      (last, grows ∙ ap (λ l. id ∷ l) keep)
  shifted-IsAtomicView h g keep (ok Value.nothing, h') a = a
  shifted-IsAtomicView h g keep (ok (Value.locked r), h') a = a
  shifted-IsAtomicView h g keep (err e, h') a = a ∙ keep
  shifted-IsAtomicView h g keep (panic why, h') a = a ∙ keep

  parties-IsQuiet : (v : TransferOptions) → IsQuiet (parties P v)
  unfolding parties
  parties-IsQuiet v = record { at = λ g. ground arith }

  build_transfer-IsQuiet :
      (v : TransferOptions) (both : Wallet × Identity) → IsQuiet (build_transfer P v both)
  unfolding build_transfer
  build_transfer-IsQuiet v both = record { at = λ g. ground arith }

  prepare_redeem-IsQuiet : (v : RedeemOptions) → IsQuiet (prepare_redeem P v)
  unfolding prepare_redeem
  prepare_redeem-IsQuiet v = record { at = λ g. ground arith }

  prepare_claim-IsQuiet : (v : ClaimOptions) → IsQuiet (prepare_claim P v)
  unfolding prepare_claim
  prepare_claim-IsQuiet v = record { at = λ g. ground arith }

  prepare_reclaim-IsQuiet : (v : ReclaimOptions) → IsQuiet (prepare_reclaim P v)
  unfolding prepare_reclaim
  prepare_reclaim-IsQuiet v = record { at = λ g. ground arith }

  pub transfer_call-IsAtomicView :
      (v : TransferOptions) (h : List Call) → IsAtomicView h (transfer_call P v h)
  unfolding transfer_call
  transfer_call-IsAtomicView v h = by_parties (parties P v h) ((parties-IsQuiet v).at h)
    where
      by_parties :
          (r : Outcome (Wallet × Identity) × List Call)
          → CommitsNothing P h r.1
          → IsAtomicView h (
              ((λ (_ : List Call). r) >>= λ both. build_transfer P v both >>= λ tx.
              wrapping "failed asking ordering" (order P tx) >> pure (Value.string tx.id))
                h)
      by_parties (ok both, g) keep = shifted-IsAtomicView h g keep _ (
          prepared-IsAtomicView g _ (build_transfer P v both g)
            ((build_transfer-IsQuiet v both).at g))
      by_parties (err e, g) keep = keep
      by_parties (panic why, g) keep = keep

  pub redeem_call-IsAtomicView :
      (v : RedeemOptions) (h : List Call) → IsAtomicView h (redeem_call P v h)
  unfolding redeem_call
  redeem_call-IsAtomicView v h =
      prepared-IsAtomicView h _ (prepare_redeem P v h) ((prepare_redeem-IsQuiet v).at h)

  pub claim_call-IsAtomicView :
      (v : ClaimOptions) (h : List Call) → IsAtomicView h (claim_call P v h)
  unfolding claim_call
  claim_call-IsAtomicView v h =
      prepared-IsAtomicView h _ (prepare_claim P v h) ((prepare_claim-IsQuiet v).at h)

  pub reclaim_call-IsAtomicView :
      (v : ReclaimOptions) (h : List Call) → IsAtomicView h (reclaim_call P v h)
  unfolding reclaim_call
  reclaim_call-IsAtomicView v h =
      prepared-IsAtomicView h _ (prepare_reclaim P v h) ((prepare_reclaim-IsQuiet v).at h)
