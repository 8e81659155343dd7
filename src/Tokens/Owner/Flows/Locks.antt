-- ===== src/Tokens/Owner/Flows/Locks.antt =====
-- A lock that returns a result has committed its transaction; one that fails has committed
-- nothing, unless the outputs of its transaction cannot be read afterwards.
use fabric_x_samples.Prelude.{String, List, ◌∷◌, ◌≡◌, refl, ap, inl, inr, ◌⊎◌, none, arith}
use fabric_x_samples.Go.{Error, Outcome, ok, err, panic, wrapping, ◌>>=◌, ◌>>◌}
use fabric_x_samples.Tokens.Types.{Bytes, Transaction, Output, Call}
use fabric_x_samples.Tokens.Platform.{Platform}
use fabric_x_samples.Tokens.Calls.{order}
use fabric_x_samples.Tokens.Settlement.{CommitsLast, CommitsNothing, ledger}
use fabric_x_samples.Tokens.Owner.Types.{Value}
use fabric_x_samples.Tokens.Owner.Lock.{LockOptions, lock_call, lock_receipt, prepare_lock}

-- The transaction was given a lock, and then its endorsements were collected, by the newest calls.
abbrev pub HasLock : Transaction → List Call → Type 0
HasLock t
      (Call.collect_endorsements tx opts ∷ Call.lock locking w me type q owner deadline hash ∷ g) =
    (tx ≡ t) × (locking ≡ t)
HasLock t _ = ⊥

module _ (P : Platform) where
  -- The outputs of the transaction, or the script of the first one, cannot be read.
  abbrev pub Unread : Outcome (List Output) → Type 0
  Unread (ok outputs) = P.script_at outputs 0 ≡ none
  Unread (err e) = Unit
  Unread (panic why) = Unit

  -- The newest call committed a locking transaction whose outputs cannot be read afterwards.
  -- It is the only one that was committed between the two histories.
  abbrev pub LostReceipt : List Call → List Call → Type 0
  LostReceipt h (Call.order t ∷ g) =
      HasLock t g
      × (P.order g t ≡ ok tt)
      × Unread (P.outputs (Call.order t ∷ g) t)
      × (ledger P (Call.order t ∷ g) ≡ t.id ∷ ledger P h)
  LostReceipt h _ = ⊥

  abbrev pub IsAtomicLock : List Call → Outcome Value × List Call → Type 0
  IsAtomicLock h (ok (Value.locked r), h') = CommitsLast P h r.tx_id h'
  IsAtomicLock h (ok (Value.string id), h') = ⊥
  IsAtomicLock h (ok Value.nothing, h') = ⊥
  IsAtomicLock h (err e, h') = CommitsNothing P h h' ⊎ LostReceipt h h'
  IsAtomicLock h (panic why, h') = CommitsNothing P h h' ⊎ LostReceipt h h'

  -- What `lock_receipt` returns; it changes nothing.
  abbrev Receipt : Transaction → List Call → Outcome Value × List Call → Type 0
  Receipt tx h (ok (Value.locked r), h') = (r.tx_id ≡ tx.id) × (h' ≡ h)
  Receipt tx h (ok (Value.string id), h') = ⊥
  Receipt tx h (ok Value.nothing, h') = ⊥
  Receipt tx h (err e, h') = Unread (P.outputs h tx) × (h' ≡ h)
  Receipt tx h (panic why, h') = Unread (P.outputs h tx) × (h' ≡ h)

  lock_receipt-Receipt :
      (tx : Transaction) (pre_image : Bytes) (h : List Call)
      → Receipt tx h (lock_receipt P tx pre_image h)
  unfolding lock_receipt
  lock_receipt-Receipt tx pre_image h = ground arith

  Receipt-IsAtomicLock :
      (tx : Transaction) (h g : List Call) (m : Outcome Value × List Call)
      → HasLock tx g
      → P.order g tx ≡ ok tt
      → CommitsNothing P h g
      → Receipt tx (Call.order tx ∷ g) m
      → IsAtomicLock h m
  Receipt-IsAtomicLock tx h g (ok (Value.locked r), h') holds done before (e, same) =
      rw (same, e) (ground arith)
  Receipt-IsAtomicLock tx h g (ok (Value.string id), h') holds done before r = r
  Receipt-IsAtomicLock tx h g (ok Value.nothing, h') holds done before r = r
  Receipt-IsAtomicLock tx h g (err e, h') holds done before (u, same) =
      rw same (inr (holds, done, u, rw done (ap (λ l. tx.id ∷ l) before)))
  Receipt-IsAtomicLock tx h g (panic why, h') holds done before (u, same) =
      rw same (inr (holds, done, u, rw done (ap (λ l. tx.id ∷ l) before)))

  locked-IsAtomicLock :
      (tx : Transaction) (pre_image : Bytes) (h g : List Call)
      → HasLock tx g
      → P.order g tx ≡ ok tt
      → CommitsNothing P h g
      → IsAtomicLock h (lock_receipt P tx pre_image (Call.order tx ∷ g))
  locked-IsAtomicLock tx pre_image h g holds done before =
      Receipt-IsAtomicLock tx h g _ holds done before
        (lock_receipt-Receipt tx pre_image (Call.order tx ∷ g))

  ordered-IsAtomicLock :
      (h g : List Call) (tx : Transaction) (pre_image : Bytes) (text : String)
      → HasLock tx g
      → CommitsNothing P h g
      → (r : Outcome (Unit {0})) → P.order g tx ≡ r
      → IsAtomicLock h (
          (wrapping text (λ (_ : List Call). (r, Call.order tx ∷ g)) >> lock_receipt P tx pre_image)
            g)
  ordered-IsAtomicLock h g tx pre_image text holds before (ok u) e =
      locked-IsAtomicLock tx pre_image h g holds e before
  ordered-IsAtomicLock h g tx pre_image text holds before (err x) e = inl (ground arith)
  ordered-IsAtomicLock h g tx pre_image text holds before (panic why) e = inl (ground arith)

  -- What the preparation of a lock leaves: a transaction with a lock, and nothing is committed.
  abbrev Prepared : List Call → Outcome (Transaction × Bytes) × List Call → Type 0
  Prepared h (ok (tx, pre_image), g) = HasLock tx g × CommitsNothing P h g
  Prepared h (err e, g) = CommitsNothing P h g
  Prepared h (panic why, g) = CommitsNothing P h g

  prepare_lock-Prepared : (v : LockOptions) (h : List Call) → Prepared h (prepare_lock P v h)
  unfolding prepare_lock
  prepare_lock-Prepared v h = ground arith

  Prepared-IsAtomicLock :
      (h : List Call) (text : String) (r : Outcome (Transaction × Bytes) × List Call)
      → Prepared h r
      → IsAtomicLock h (
          ((λ (_ : List Call). r) >>= λ prepared.
          wrapping text (order P prepared.0) >> lock_receipt P prepared.0 prepared.1)
            h)
  Prepared-IsAtomicLock h text (ok (tx, pre_image), g) (holds, keep) =
      ordered-IsAtomicLock h g tx pre_image text holds keep (P.order g tx) refl
  Prepared-IsAtomicLock h text (err e, g) keep = inl keep
  Prepared-IsAtomicLock h text (panic why, g) keep = inl keep

  pub lock_call-IsAtomicLock : (v : LockOptions) (h : List Call) → IsAtomicLock h (lock_call P v h)
  unfolding lock_call
  lock_call-IsAtomicLock v h =
      Prepared-IsAtomicLock h "failed to commit htlc transaction" (prepare_lock P v h)
        (prepare_lock-Prepared v h)

  -- A lock whose newest call committed a transaction, and whose outputs then cannot be read, ends
  -- in an error: the caller gets neither the ID, nor the pre-image, nor the hash.
  pub lock_call_lost :
      (v : LockOptions) (h r : List Call) (t : Transaction) (e : Error)
      → (lock_call P v h).1 ≡ Call.order t ∷ r
      → P.order r t ≡ ok tt
      → P.outputs (Call.order t ∷ r) t ≡ err e
      → (lock_call P v h).0 ≡ err (Error.wrap "failed getting outputs" e)
  unfolding lock_call lock_receipt prepare_lock
  lock_call_lost v h r t e newest committed unread = ground arith
