-- ===== src/Tokens/Owner/TwoNodes.antt =====
-- A lock between two owners: `LockView` on the node of the sender (A), and `LockAcceptView`, which
-- responds to it on the node of the recipient (B).
use fabric_x_samples.Prelude.{String, List, [], ◌∷◌, ◌≡◌, subst, arith}
use fabric_x_samples.Go.{ok}
use fabric_x_samples.Tokens.Types.{Identity, Wallet, Transaction, Script, Call}
use fabric_x_samples.Tokens.Platform.{Platform}
use fabric_x_samples.Tokens.Contents.{actions}
use fabric_x_samples.Tokens.Common.Options.{service_opts}
use fabric_x_samples.Tokens.Owner.Types.{Value, LockResult}
use fabric_x_samples.Tokens.Owner.Lock.{LockOptions, lock_call, lock_accept_call}
use fabric_x_samples.Tokens.Owner.Contents.HashLocks.{met, Locks, OnLocked, lock_call-Locks}
use fabric_x_samples.Tokens.Owner.Acceptance.{
  received, IsOnly, AcceptsLock, lock_accept_call-AcceptsLock,
}

module _ (A B : Platform) (h g : List Call) (v : LockOptions) where
  -- Both nodes speak of the same two identities: the lock of A is from the first to the second, and so
  -- is the script of the transaction that B has accepted.
  abbrev pub Agree : LockResult → String → List Call → Type 0
  Agree r id h' =
      (me : Identity) × (owner : Identity) × (w : Wallet) × (tx : Transaction) × (tx' : Transaction)
      × (script : Script) × ((tx.id ≡ r.tx_id)
          × (actions h'
              ≡ Call.lock tx w me v.token_type v.quantity owner v.reclamation_deadline v.hash
                ∷ actions h)
          × (tx'.id ≡ id)
          × IsOnly B g script (B.outputs (received B g) tx')
          × (script.sender ≡ me)
          × (script.recipient ≡ owner))

  Locks-Agree :
      ((me owner : Identity)
        → A.exchange_recipient_identities
            (met A h v)
            v.wallet
            v.recipient
            (service_opts v.tms_id [])
          ≡ ok (me, owner)
        → B.respond_exchange_recipient_identities g ≡ ok (owner, me))
      → (r : LockResult) (h' : List Call) → Locks A h v r h'
      → (id : String) (g' : List Call) → AcceptsLock B g (ok (Value.string id), g')
      → Agree r id h'
  Locks-Agree mirrored r h'
        (tx, w, me, owner, (found, exchanged, made, hashed, (same, last, moved))) id g'
        (
          (mine, other, tx', script),
          ((answered, got, only), (valid, to, from), (same', calls, accepts, final)),
        ) =
      let theirs = mirrored me owner exchanged in
      (me, owner, w, tx, tx', script, (same, moved, same', only, ground arith, ground arith))

  -- When the identities that A and B exchange are the same two, a lock that A has made and a transaction
  -- that B has accepted as its recipient agree on both: A has locked the tokens from the first to the
  -- second, and the only script of the transaction of B's ID names the first as its sender and the second
  -- as its recipient.
  pub lock_call-lock_accept_call :
      ((me owner : Identity)
        → A.exchange_recipient_identities
            (met A h v)
            v.wallet
            v.recipient
            (service_opts v.tms_id [])
          ≡ ok (me, owner)
        → B.respond_exchange_recipient_identities g ≡ ok (owner, me))
      → (r : LockResult) (h' : List Call) → lock_call A v h ≡ (ok (Value.locked r), h')
      → (id : String) (g' : List Call) → lock_accept_call B g ≡ (ok (Value.string id), g')
      → Agree r id h'
  lock_call-lock_accept_call mirrored r h' made id g' accepted =
      Locks-Agree mirrored r h' (subst (OnLocked (Locks A h v)) made (lock_call-Locks A h v)) id g'
        (subst (AcceptsLock B g) accepted (lock_accept_call-AcceptsLock B g))
