-- ===== src/Tokens/Owner/Flows/Services.antt =====
-- The methods of `FabricSmartClient` of an owner: a returned ID is that of a transaction which has
-- just been committed, and a failed call has committed nothing.
use fabric_x_samples.Prelude.{refl, ℕ, String, List, Option, Option-cases, inl, inr, ◌⊎◌}
use fabric_x_samples.Go.{Outcome, ok, err, panic, Go, peek, ◌>>=◌, ◌>>◌}
use fabric_x_samples.Tokens.Int.{ℤ}
use fabric_x_samples.Tokens.Types.{Bytes, TmsId, Call}
use fabric_x_samples.Tokens.Platform.{Platform, initiate_view, rescue}
use fabric_x_samples.Tokens.Settlement.{IsAtomic, CommitsLast, CommitsNothing}
use fabric_x_samples.Tokens.Owner.Types.{Value, LockResult, as_string, as_lock_result}
use fabric_x_samples.Tokens.Owner.Transfer.{TransferOptions, transfer_call, transfer}
use fabric_x_samples.Tokens.Owner.Redeem.{RedeemOptions, redeem_call, redeem}
use fabric_x_samples.Tokens.Owner.Lock.{LockOptions, lock_call, lock}
use fabric_x_samples.Tokens.Owner.Unlock.{
  ClaimOptions, ReclaimOptions, claim_call, reclaim_call, claim, reclaim,
}
use fabric_x_samples.Tokens.Owner.Flows.Commits.{
  IsAtomicView, transfer_call-IsAtomicView, redeem_call-IsAtomicView, claim_call-IsAtomicView,
  reclaim_call-IsAtomicView,
}
use fabric_x_samples.Tokens.Owner.Flows.Locks.{IsAtomicLock, LostReceipt, lock_call-IsAtomicLock}

module _ (P : Platform) (h : List Call) where
  rescued-IsAtomic :
      (failure : String) (r : Outcome Value × List Call)
      → IsAtomicView P h r
      → IsAtomic P h (((λ (_ : List Call). (rescue P r.0, r.1)) >>= as_string failure) h)
  rescued-IsAtomic failure (ok (Value.string id), h') a = a
  rescued-IsAtomic failure (ok Value.nothing, h') a = absurd a
  rescued-IsAtomic failure (ok (Value.locked r), h') a = absurd a
  rescued-IsAtomic failure (err e, h') a = a
  rescued-IsAtomic failure (panic why, h') a = elim (Option-cases (P.recovered why)) [
    | inl e ↦ rw (e, rescue) a
    | inr (x, e) ↦ rw (e, rescue) a
  ]

  -- What every method does around its view.
  service-IsAtomic :
      (failure : String) (m : Go Call Value)
      → IsAtomicView P h (m h)
      → IsAtomic P h ((peek P.get_manager >> (initiate_view P m >>= as_string failure)) h)
  service-IsAtomic failure m a = start (P.get_manager h) (P.new_context h)
    where
      start :
          (managed context : Outcome (Unit {0}))
          → IsAtomic P h (
              ((λ (g : List Call). (managed, g))
                  >> (((λ (g : List Call). (context, g))
                        >> (λ g. let (r, h') = m g in (rescue P r, h')))
                      >>= as_string failure))
                h)
      start (err e) context = refl
      start (panic why) context = refl
      start (ok _) (err e) = refl
      start (ok _) (panic why) = refl
      start (ok _) (ok _) = rescued-IsAtomic failure (m h) a

  -- `Transfer` returns the ID of the transaction that its last call committed, or fails and has
  -- committed nothing.
  pub transfer-IsAtomic :
      (type : String) (q : ℕ) (sender recipient node message : String)
      → IsAtomic P h (transfer P type q sender recipient node message h)
  unfolding transfer
  transfer-IsAtomic type q sender recipient node message =
      let v : TransferOptions = record {
        wallet = sender;
        token_type = type;
        quantity = q;
        recipient_node = node;
        recipient = recipient;
        message = message;
      } in
      service-IsAtomic "cannot parse issue response" (transfer_call P v)
        (transfer_call-IsAtomicView P v h)

  -- `Redeem` returns the ID of the transaction that its last call committed, or fails and has
  -- committed nothing.
  pub redeem-IsAtomic :
      (type : String) (q : ℕ) (sender message : String)
      → IsAtomic P h (redeem P type q sender message h)
  unfolding redeem
  redeem-IsAtomic type q sender message =
      let v : RedeemOptions = record {
        wallet = sender;
        token_type = type;
        quantity = q;
        message = message;
      } in
      service-IsAtomic "cannot parse redeem response" (redeem_call P v)
        (redeem_call-IsAtomicView P v h)

  -- `Claim` returns the ID of the transaction that its last call committed, or fails and has
  -- committed nothing.
  pub claim-IsAtomic :
      (wallet : String) (pre_image : Bytes) (tms : Option TmsId)
      → IsAtomic P h (claim P wallet pre_image tms h)
  unfolding claim
  claim-IsAtomic wallet pre_image tms =
      let v : ClaimOptions = record { tms_id = tms; wallet = wallet; pre_image = pre_image } in
      service-IsAtomic "cannot parse claim response" (claim_call P v)
        (claim_call-IsAtomicView P v h)

  -- `Reclaim` returns the ID of the transaction that its last call committed, or fails and has
  -- committed nothing.
  pub reclaim-IsAtomic :
      (wallet : String) (hash : Bytes) (tms : Option TmsId)
      → IsAtomic P h (reclaim P wallet hash tms h)
  unfolding reclaim
  reclaim-IsAtomic wallet hash tms =
      let v : ReclaimOptions = record { tms_id = tms; wallet = wallet; hash = hash } in
      service-IsAtomic "cannot parse reclaim response" (reclaim_call P v)
        (reclaim_call-IsAtomicView P v h)

  -- A lock that returns a result has just committed its transaction; one that fails has committed
  -- nothing, or has just committed a transaction whose outputs it cannot read.
  abbrev pub IsAtomicResult : Outcome LockResult × List Call → Type 0
  IsAtomicResult (ok r, h') = CommitsLast P h r.tx_id h'
  IsAtomicResult (err e, h') = CommitsNothing P h h' ⊎ LostReceipt P h h'
  IsAtomicResult (panic why, h') = CommitsNothing P h h' ⊎ LostReceipt P h h'

  rescued-IsAtomicResult :
      (failure : String) (r : Outcome Value × List Call)
      → IsAtomicLock P h r
      → IsAtomicResult (((λ (_ : List Call). (rescue P r.0, r.1)) >>= as_lock_result failure) h)
  rescued-IsAtomicResult failure (ok (Value.locked r), h') a = a
  rescued-IsAtomicResult failure (ok Value.nothing, h') a = absurd a
  rescued-IsAtomicResult failure (ok (Value.string id), h') a = absurd a
  rescued-IsAtomicResult failure (err e, h') a = a
  rescued-IsAtomicResult failure (panic why, h') a = elim (Option-cases (P.recovered why)) [
    | inl e ↦ rw (e, rescue) a
    | inr (x, e) ↦ rw (e, rescue) a
  ]

  lock-service-IsAtomic :
      (failure : String) (m : Go Call Value)
      → IsAtomicLock P h (m h)
      → IsAtomicResult ((peek P.get_manager >> (initiate_view P m >>= as_lock_result failure)) h)
  lock-service-IsAtomic failure m a = start (P.get_manager h) (P.new_context h)
    where
      start :
          (managed context : Outcome (Unit {0}))
          → IsAtomicResult (
              ((λ (g : List Call). (managed, g))
                  >> (((λ (g : List Call). (context, g))
                        >> (λ g. let (r, h') = m g in (rescue P r, h')))
                      >>= as_lock_result failure))
                h)
      start (err e) context = inl (refl)
      start (panic why) context = inl (refl)
      start (ok _) (err e) = inl (refl)
      start (ok _) (panic why) = inl (refl)
      start (ok _) (ok _) = rescued-IsAtomicResult failure (m h) a

  -- `Lock` returns the ID of the transaction that its last call committed. It fails and has
  -- committed nothing, with one exception: the outputs of the transaction that its last call
  -- committed cannot be read.
  pub lock-IsAtomicResult :
      (type : String) (q : ℕ) (sender recipient node : String) (deadline : ℤ) (hash : Bytes)
      → (tms : Option TmsId)
      → IsAtomicResult (lock P type q sender recipient node deadline hash tms h)
  unfolding lock
  lock-IsAtomicResult type q sender recipient node deadline hash tms =
      let v : LockOptions = record {
        tms_id = tms;
        wallet = sender;
        token_type = type;
        quantity = q;
        recipient = recipient;
        recipient_node = node;
        hash = hash;
        reclamation_deadline = deadline;
      } in
      lock-service-IsAtomic "cannot parse lock response" (lock_call P v)
        (lock_call-IsAtomicLock P v h)
