-- ===== src/Tokens/Owner/Routes/Effects.antt =====
-- What the answers of the REST server tell a client of the ledger.
use fabric_x_samples.Prelude.{
  ℕ, String, ◌≡◌, ◌⊎◌, refl, inl, inr, Bool, true, false, Option, none, some, List, length, nat_eq,
  Bool-cases,
}
use fabric_x_samples.Go.{Outcome, ok, err, panic, pure, ◌>>=◌}
use fabric_x_samples.Tokens.Int.{ℤ}
use fabric_x_samples.Tokens.Types.{Bytes, Call}
use fabric_x_samples.Tokens.Platform.{Platform}
use fabric_x_samples.Tokens.Settlement.{CommitsLast, CommitsNothing}
use fabric_x_samples.Tokens.Http.{Answer, Body, json, problem, plain, success, strict}
use fabric_x_samples.Tokens.Http.Tells.{Tells, success-Tells}
use fabric_x_samples.Tokens.Owner.Types.{LockResult}
use fabric_x_samples.Tokens.Owner.Flows.Locks.{LostReceipt}
use fabric_x_samples.Tokens.Owner.Flows.Services.{
  IsAtomicResult, transfer-IsAtomic, redeem-IsAtomic, lock-IsAtomicResult, claim-IsAtomic,
  reclaim-IsAtomic,
}
use fabric_x_samples.Tokens.Owner.Routes.{
  to_deadline, to_tmsid, bad_hash, hash_of, present, redeem_tokens, transfer_tokens, lock_tokens,
  claim_tokens, reclaim_tokens,
}
use fabric_x_samples.Tokens.Owner.Routes.Requests.{
  RedeemRequest, TransferRequest, LockRequest, LockPayload, ClaimRequest, ReclaimRequest, or_empty,
}

module _ (P : Platform) (h : List Call) where
  -- A transfer is answered with status 200 and the ID of the transaction that the last call
  -- committed, the only one that it committed; or with status 500, or by a panic, and then nothing is
  -- committed.
  pub transfer_tokens-Tells :
      (id : String) (body : TransferRequest)
      → Tells P h false (strict (transfer_tokens P id body) h)
  unfolding transfer_tokens strict
  transfer_tokens-Tells id body = success-Tells P h _ (
      transfer-IsAtomic P h body.amount.code body.amount.value id body.counterparty.account
        body.counterparty.node (or_empty body.message))

  -- A redemption is answered with status 200 and the ID of the transaction that the last call
  -- committed, the only one that it committed; or with status 500, or by a panic, and then nothing is
  -- committed.
  pub redeem_tokens-Tells :
      (id : String) (body : RedeemRequest) → Tells P h false (strict (redeem_tokens P id body) h)
  unfolding redeem_tokens strict
  redeem_tokens-Tells id body =
      success-Tells P h _
        (redeem-IsAtomic P h body.amount.code body.amount.value id (or_empty body.message))

  -- A claim is refused with status 400 exactly if its pre-image is empty, before any call. Any other
  -- is answered with status 200 and the ID of the transaction that the last call committed, the only
  -- one that it committed; or with status 500 or by a panic, and then nothing is committed.
  pub claim_tokens-Tells :
      (id : String) (body : ClaimRequest)
      → Tells P h (nat_eq (length body.preimage) 0) (strict (claim_tokens P id body) h)
  unfolding claim_tokens strict
  claim_tokens-Tells id body = elim (Bool-cases (nat_eq (length body.preimage) 0)) [
    | inl e ↦ rw (e, claim_tokens) (refl, refl, refl)
    | inr e ↦
        rw (e, claim_tokens)
          (success-Tells P h _ (claim-IsAtomic P h id body.preimage (to_tmsid body.tms_id)))
  ]

  -- A reclaim is refused with status 400 exactly if its hash is empty, before any call. Any other is
  -- answered with status 200 and the ID of the transaction that the last call committed, the only one
  -- that it committed; or with status 500 or by a panic, and then nothing is committed.
  pub reclaim_tokens-Tells :
      (id : String) (body : ReclaimRequest)
      → Tells P h (nat_eq (length body.hash) 0) (strict (reclaim_tokens P id body) h)
  unfolding reclaim_tokens strict
  reclaim_tokens-Tells id body = elim (Bool-cases (nat_eq (length body.hash) 0)) [
    | inl e ↦ rw (e, reclaim_tokens) (refl, refl, refl)
    | inr e ↦
        rw (e, reclaim_tokens)
          (success-Tells P h _ (reclaim-IsAtomic P h id body.hash (to_tmsid body.tms_id)))
  ]

  -- Whether a request to lock is refused for its deadline or for the length of its hash.
  abbrev refuses_hash : Option Bytes → Option ℤ → Bool
  refuses_hash hash none = true
  refuses_hash hash (some deadline) = bad_hash hash

  abbrev pub refuses_lock : LockRequest → Bool
  refuses_lock body = refuses_hash body.hash (to_deadline body.deadline)

  abbrev TellsLockBody : Bool → ℕ → Body LockPayload → List Call → Type 0
  TellsLockBody refused status (json message payload) h' =
      (refused ≡ false) × (status ≡ 200) × CommitsLast P h payload.tx_id h'
  TellsLockBody refused status (problem p) h' = (refused ≡ true) × (status ≡ 400) × (h' ≡ h)
  TellsLockBody refused status (plain e) h' =
      (refused ≡ false) × (status ≡ 500) × (CommitsNothing P h h' ⊎ LostReceipt P h h')

  abbrev pub TellsLock : Bool → Outcome (Answer LockPayload) × List Call → Type 0
  TellsLock refused (ok a, h') = TellsLockBody refused a.status a.body h'
  TellsLock refused (err e, h') = ⊥
  TellsLock refused (panic why, h') =
      (refused ≡ false) × (CommitsNothing P h h' ⊎ LostReceipt P h h')

  abbrev to_payload : LockResult → LockPayload
  to_payload r = record { hash = r.hash; preimage = present r.pre_image; tx_id = r.tx_id }

  lock-TellsLock :
      (r : Outcome LockResult × List Call)
      → IsAtomicResult P h r
      → TellsLock false
          (strict ((λ (_ : List Call). r) >>= λ result. pure (success "ok" (to_payload result))) h)
  unfolding strict
  lock-TellsLock (ok result, h') a = (refl, refl, a)
  lock-TellsLock (err e, h') a = (refl, refl, a)
  lock-TellsLock (panic why, h') a = (refl, a)

  -- A lock is refused with status 400 exactly if its deadline or the length of its hash is, before
  -- any call. Any other is answered with status 200 and the ID of the transaction that the last call
  -- committed, the only one that it committed; or with status 500 or by a panic, and then nothing is
  -- committed, unless the outputs of the transaction that the last call committed, the only one,
  -- cannot be read.
  pub lock_tokens-TellsLock :
      (id : String) (body : LockRequest)
      → TellsLock (refuses_lock body) (strict (lock_tokens P id body) h)
  unfolding lock_tokens strict
  lock_tokens-TellsLock id body = by_deadline (to_deadline body.deadline) refl
    where
      by_deadline :
          (o : Option ℤ)
          → to_deadline body.deadline ≡ o
          → TellsLock (refuses_hash body.hash o) (strict (lock_tokens P id body) h)
      by_deadline none e = rw (e, lock_tokens) (refl, refl, refl)
      by_deadline (some deadline) e = elim (Bool-cases (bad_hash body.hash)) [
        | inl bad ↦ rw (e, bad, lock_tokens) (refl, refl, refl)
        | inr good ↦
            rw (e, good, lock_tokens)
              (lock-TellsLock _ (
                lock-IsAtomicResult P h body.amount.code body.amount.value id
                  body.counterparty.account body.counterparty.node deadline (hash_of body.hash)
                  (to_tmsid body.tms_id)))
      ]
