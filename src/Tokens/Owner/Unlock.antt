-- ===== src/Tokens/Owner/Unlock.antt =====
-- tokens/owner/service/htlc_claim.go and htlc_reclaim.go: the two ways out of a lock.
use fabric_x_samples.Prelude.{String, Option, List, [], ◌∷◌, ◌<>◌}
use fabric_x_samples.Go.{Error, Go, pure, throw, peek, wrapping, ◌>>=◌, ◌>>◌}
use fabric_x_samples.Tokens.Types.{Bytes, TmsId, Transaction, Token, Call}
use fabric_x_samples.Tokens.Platform.{Platform, initiate_view}
use fabric_x_samples.Tokens.Calls.{
  new_htlc_transaction, add_claim, add_reclaim, collect_endorsements, order, get_wallet,
}
use fabric_x_samples.Tokens.Common.Options.{service_opts, tx_opts}
use fabric_x_samples.Tokens.Owner.Types.{Value, as_string}

pub record ClaimOptions : Type 0 where
  pub tms_id : Option TmsId
  pub wallet : String
  pub pre_image : Bytes

pub record ReclaimOptions : Type 0 where
  pub tms_id : Option TmsId
  pub wallet : String
  pub hash : Bytes

-- `if matched.Count() != 1 { … }`, and then `matched.At(0)`
abbrev pub exactly_one : List Token → Go Call Token
exactly_one [] = throw (Error.message "expected exactly one htlc script to match")
exactly_one (token ∷ []) = pure token
exactly_one (token ∷ other ∷ rest) =
    throw (Error.message "expected exactly one htlc script to match")

module _ (P : Platform) where
  -- `ClaimView.Call` up to the collection of the endorsements.
  unfoldable pub prepare_claim : ClaimOptions → Go Call Transaction
  prepare_claim v = do
    wallet ←
        get_wallet P ("wallet [" <> v.wallet <> "] not found") v.wallet (service_opts v.tms_id [])
    matched ←
        wrapping "htlc script has expired or does not exist"
          (peek (λ h. P.by_pre_image h wallet v.pre_image))
    token ← exactly_one matched
    tx ← wrapping "failed creating htlc transaction" (new_htlc_transaction P (tx_opts v.tms_id []))
    wrapping ("failed adding claim for [" <> token.id <> "]")
        (add_claim P tx wallet token v.pre_image)
    wrapping "failed to collect endorsements on htlc transaction" (collect_endorsements P tx [])
    pure tx

  -- `ClaimView.Call`
  unfoldable pub claim_call : ClaimOptions → Go Call Value
  unfolding prepare_claim
  claim_call v = do
    tx ← prepare_claim v
    wrapping "failed to commit htlc transaction" (order P tx)
    pure (Value.string tx.id)

  -- `ReclaimView.Call` up to the collection of the endorsements.
  unfoldable pub prepare_reclaim : ReclaimOptions → Go Call Transaction
  prepare_reclaim v = do
    wallet ←
        get_wallet P ("sender wallet [" <> v.wallet <> "] not found") v.wallet
          (service_opts v.tms_id [])
    expired ←
        wrapping "cannot retrieve expired htlc token"
          (peek (λ h. P.expired_by_hash h wallet v.hash))
    tx ← wrapping "failed creating htlc transaction" (new_htlc_transaction P (tx_opts v.tms_id []))
    wrapping ("failed adding reclaim for [" <> expired.id <> "]") (add_reclaim P tx wallet expired)
    wrapping "failed to collect endorsements on htlc transaction" (collect_endorsements P tx [])
    pure tx

  -- `ReclaimView.Call`
  unfoldable pub reclaim_call : ReclaimOptions → Go Call Value
  unfolding prepare_reclaim
  reclaim_call v = do
    tx ← prepare_reclaim v
    wrapping "failed to commit htlc transaction" (order P tx)
    pure (Value.string tx.id)

  -- `FabricSmartClient.Claim`
  unfoldable pub claim : String → Bytes → Option TmsId → Go Call String
  unfolding claim_call
  claim wallet pre_image tms_id = do
    peek P.get_manager
    res ←
        initiate_view P
          (claim_call (record { tms_id = tms_id; wallet = wallet; pre_image = pre_image }))
    as_string "cannot parse claim response" res

  -- `FabricSmartClient.Reclaim`
  unfoldable pub reclaim : String → Bytes → Option TmsId → Go Call String
  unfolding reclaim_call
  reclaim wallet hash tms_id = do
    peek P.get_manager
    res ← initiate_view P (reclaim_call (record { tms_id = tms_id; wallet = wallet; hash = hash }))
    as_string "cannot parse reclaim response" res
