-- ===== src/Tokens/Owner/Flows/Settled.antt =====
-- Ordering in the flows that an owner starts.
use fabric_x_samples.Prelude.{List, arith}
use fabric_x_samples.Tokens.Types.{Call}
use fabric_x_samples.Tokens.Platform.{Platform}
use fabric_x_samples.Tokens.Settlement.{IsSettled}
use fabric_x_samples.Tokens.Owner.Transfer.{TransferOptions, transfer_call, build_transfer, parties}
use fabric_x_samples.Tokens.Owner.Redeem.{RedeemOptions, redeem_call, prepare_redeem}
use fabric_x_samples.Tokens.Owner.Lock.{
  LockOptions, lock_call, lock_receipt, prepare_lock, lock_accept_call, receive_lock, accept_script,
}
use fabric_x_samples.Tokens.Owner.Unlock.{
  ClaimOptions, ReclaimOptions, claim_call, reclaim_call, prepare_claim, prepare_reclaim,
}

module _ (P : Platform) where
  pub transfer_call-IsSettled :
      (v : TransferOptions) (h : List Call) → IsSettled P h → IsSettled P (transfer_call P v h).1
  unfolding transfer_call build_transfer parties
  transfer_call-IsSettled v h s = ground arith

  pub redeem_call-IsSettled :
      (v : RedeemOptions) (h : List Call) → IsSettled P h → IsSettled P (redeem_call P v h).1
  unfolding redeem_call prepare_redeem
  redeem_call-IsSettled v h s = ground arith

  pub lock_call-IsSettled :
      (v : LockOptions) (h : List Call) → IsSettled P h → IsSettled P (lock_call P v h).1
  unfolding lock_call lock_receipt prepare_lock
  lock_call-IsSettled v h s = ground arith

  pub lock_accept_call-IsSettled :
      (h : List Call) → IsSettled P h → IsSettled P (lock_accept_call P h).1
  unfolding lock_accept_call receive_lock accept_script
  lock_accept_call-IsSettled h s = ground arith

  pub claim_call-IsSettled :
      (v : ClaimOptions) (h : List Call) → IsSettled P h → IsSettled P (claim_call P v h).1
  unfolding claim_call prepare_claim
  claim_call-IsSettled v h s = ground arith

  pub reclaim_call-IsSettled :
      (v : ReclaimOptions) (h : List Call) → IsSettled P h → IsSettled P (reclaim_call P v h).1
  unfolding reclaim_call prepare_reclaim
  reclaim_call-IsSettled v h s = ground arith
