-- ===== src/Tokens/Owner/Contents/HashLocks.antt =====
-- What a lock moves: whose tokens, to whom, until when and under which hash.
use fabric_x_samples.Prelude.{
  Option, none, some, List, [], ◌∷◌, ◌≡◌, refl, sym, ap, ◌∙◌, arith, eq_iff, ◌==◌, if◌then◌else◌,
}
use fabric_x_samples.Go.{Outcome, ok, err, panic, wrapping, ◌>>=◌, ◌>>◌}
use fabric_x_samples.Tokens.Types.{Bytes, Identity, Wallet, Transaction, Script, Output, Call}
use fabric_x_samples.Tokens.Platform.{Platform}
use fabric_x_samples.Tokens.Calls.{order}
use fabric_x_samples.Tokens.Contents.{actions, Moves}
use fabric_x_samples.Tokens.Common.Options.{service_opts, tx_opts}
use fabric_x_samples.Tokens.Owner.Types.{Value, LockResult}
use fabric_x_samples.Tokens.Owner.Lock.{LockOptions, prepare_lock, lock_receipt, lock_call}

abbrev pub OnLocked : (LockResult → List Call → Type 0) → Outcome Value × List Call → Type 0
OnLocked Q (ok (Value.locked r), h') = Q r h'
OnLocked Q (ok Value.nothing, h') = ⊥
OnLocked Q (ok (Value.string id), h') = ⊥
OnLocked Q (err e, h') = Unit
OnLocked Q (panic why, h') = Unit

module _ (P : Platform) where
  -- The hash in the script of a transaction's first output.
  abbrev hash_at : Option Script → Option Bytes
  hash_at none = none
  hash_at (some script) = some script.hash

  abbrev first_hash : Outcome (List Output) → Option Bytes
  first_hash (ok outputs) = hash_at (P.script_at outputs 0)
  first_hash (err e) = none
  first_hash (panic why) = none

  module _ (h : List Call) (v : LockOptions) where
    -- The calls before the identities are exchanged, before the sender's wallet is looked up, and
    -- before the lock is added.
    abbrev pub met : List Call
    met = if v.recipient_node == "" then h else Call.bind v.recipient_node v.recipient ∷ h

    abbrev pub opened : List Call
    opened =
        Call.new_htlc_transaction (tx_opts v.tms_id [])
        ∷ Call.exchange_recipient_identities v.wallet v.recipient (service_opts v.tms_id [])
        ∷ met

    -- The lock of this quantity, by the two identities that were exchanged, until the deadline. The
    -- pre-image is the one that the lock was made with, and the hash the one in its script.
    abbrev pub Locks : LockResult → List Call → Type 0
    Locks r h' =
        (tx : Transaction) × (w : Wallet) × (me : Identity) × (owner : Identity) × ((P.get_wallet
              opened v.wallet (service_opts v.tms_id [])
            ≡ some w)
          × (P.exchange_recipient_identities met v.wallet v.recipient (service_opts v.tms_id [])
              ≡ ok (me, owner))
          × (P.lock opened tx w me v.token_type v.quantity owner v.reclamation_deadline v.hash
              ≡ ok r.pre_image)
          × (first_hash (P.outputs h' tx) ≡ some r.hash)
          × Moves
              (λ t. Call.lock t w me v.token_type v.quantity owner v.reclamation_deadline v.hash) ""
              tx h r.tx_id h')

    abbrev HoldsLock :
        Transaction → Bytes → Outcome (Identity × Identity) → Option Wallet → List Call → Type 0
    HoldsLock tx key (ok (me, owner)) (some w) g =
        (P.lock opened tx w me v.token_type v.quantity owner v.reclamation_deadline v.hash ≡ ok key)
        × (actions g
            ≡ Call.lock tx w me v.token_type v.quantity owner v.reclamation_deadline v.hash
              ∷ actions h)
    HoldsLock tx key (ok both) none g = ⊥
    HoldsLock tx key (err e) w g = ⊥
    HoldsLock tx key (panic why) w g = ⊥

    abbrev Prepared : Outcome (Transaction × Bytes) × List Call → Type 0
    Prepared (ok (tx, key), g) =
        HoldsLock tx key
          (P.exchange_recipient_identities met v.wallet v.recipient (service_opts v.tms_id []))
          (P.get_wallet opened v.wallet (service_opts v.tms_id [])) g
    Prepared (err e, g) = Unit
    Prepared (panic why, g) = Unit

    prepare_lock-Prepared : Prepared (prepare_lock P v h)
    unfolding prepare_lock
    prepare_lock-Prepared = ground (arith, eq_iff v.recipient_node "")

    -- What `lock_receipt` returns; it changes nothing.
    abbrev Receipt : Transaction → Bytes → List Call → Outcome Value × List Call → Type 0
    Receipt tx key g (ok (Value.locked r), g') =
        (r.tx_id ≡ tx.id)
        × (r.pre_image ≡ key)
        × (first_hash (P.outputs g tx) ≡ some r.hash)
        × (g' ≡ g)
    Receipt tx key g (ok (Value.string id), g') = ⊥
    Receipt tx key g (ok Value.nothing, g') = ⊥
    Receipt tx key g (err e, g') = Unit
    Receipt tx key g (panic why, g') = Unit

    lock_receipt-Receipt :
        (tx : Transaction) (key : Bytes) (g : List Call)
        → Receipt tx key g (lock_receipt P tx key g)
    unfolding lock_receipt
    lock_receipt-Receipt tx key g = ground arith

    Receipt-Locks :
        (tx : Transaction) (w : Wallet) (me owner : Identity) (key : Bytes) (g : List Call)
        → P.exchange_recipient_identities met v.wallet v.recipient (service_opts v.tms_id [])
          ≡ ok (me, owner)
        → P.get_wallet opened v.wallet (service_opts v.tms_id []) ≡ some w
        → HoldsLock tx key (ok (me, owner)) (some w) g
        → (r : Outcome Value × List Call) → Receipt tx key (Call.order tx ∷ g) r
        → OnLocked Locks r
    Receipt-Locks tx w me owner key g e f (with_key, moved) (ok (Value.locked r), g')
          (same_id, same_key, hashed, same) =
        let with_r_key = with_key ∙ ap (λ b. ok b) (sym same_key) in
        rw same (tx, w, me, owner, (f, e, with_r_key, hashed, (sym same_id, refl, moved)))
    Receipt-Locks tx w me owner key g e f held (ok (Value.string id), g') r = absurd r
    Receipt-Locks tx w me owner key g e f held (ok Value.nothing, g') r = absurd r
    Receipt-Locks tx w me owner key g e f held (err x, g') r = tt
    Receipt-Locks tx w me owner key g e f held (panic why, g') r = tt

    HoldsLock-Locks :
        (tx : Transaction) (key : Bytes) (g : List Call)
        → (both : Outcome (Identity × Identity))
        → P.exchange_recipient_identities met v.wallet v.recipient (service_opts v.tms_id []) ≡ both
        → (mine : Option Wallet) → P.get_wallet opened v.wallet (service_opts v.tms_id []) ≡ mine
        → HoldsLock tx key both mine g
        → (r : Outcome Value × List Call) → Receipt tx key (Call.order tx ∷ g) r
        → OnLocked Locks r
    HoldsLock-Locks tx key g (ok (me, owner)) e (some w) f held r =
        Receipt-Locks tx w me owner key g e f held r
    HoldsLock-Locks tx key g (ok both) e none f held r = absurd held
    HoldsLock-Locks tx key g (err x) e mine f held r = absurd held
    HoldsLock-Locks tx key g (panic why) e mine f held r = absurd held

    ordered-Locks :
        (tx : Transaction) (key : Bytes) (g : List Call)
        → Prepared (ok (tx, key), g)
        → (r : Outcome (Unit {0}))
        → OnLocked Locks (
            (wrapping "failed to commit htlc transaction"
                  (λ (_ : List Call). (r, Call.order tx ∷ g))
                >> lock_receipt P tx key)
              g)
    ordered-Locks tx key g held (ok u) =
        HoldsLock-Locks tx key g _ refl _ refl held _
          (lock_receipt-Receipt tx key (Call.order tx ∷ g))
    ordered-Locks tx key g held (err e) = tt
    ordered-Locks tx key g held (panic why) = tt

    begun-Locks :
        (r : Outcome (Transaction × Bytes) × List Call)
        → Prepared r
        → OnLocked Locks (
            ((λ (_ : List Call). r) >>= λ both.
            wrapping "failed to commit htlc transaction" (order P both.0)
            >> lock_receipt P both.0 both.1)
              h)
    begun-Locks (ok (tx, key), g) held = ordered-Locks tx key g held (P.order g tx)
    begun-Locks (err e, g) held = tt
    begun-Locks (panic why, g) held = tt

    pub lock_call-Locks : OnLocked Locks (lock_call P v h)
    unfolding lock_call
    lock_call-Locks = begun-Locks (prepare_lock P v h) prepare_lock-Prepared
