-- ===== src/Tokens/Owner/Progress.antt =====
-- A lock that goes through: tokens/owner/routes/routes.go and tokens/owner/service/htlc_lock.go, from the
-- request to the answer.
use fabric_x_samples.Prelude.{
  String, false, Option, some, List, [], ◌∷◌, ◌≡◌, ◌⊎◌, ap, subst, ◌∙◌, eq_iff, arith,
}
use fabric_x_samples.Go.{Outcome, ok, Go, peek, pure, wrapping, ◌>>=◌, ◌>>◌}
use fabric_x_samples.Tokens.Int.{ℤ}
use fabric_x_samples.Tokens.Types.{Bytes, Identity, Wallet, Transaction, Script, Output, Call}
use fabric_x_samples.Tokens.Platform.{Platform, initiate_view, rescue}
use fabric_x_samples.Tokens.Calls.{order}
use fabric_x_samples.Tokens.Http.{Answer, json, strict, success}
use fabric_x_samples.Tokens.Common.Options.{service_opts, tx_opts}
use fabric_x_samples.Tokens.Owner.Types.{Value, LockResult, as_lock_result}
use fabric_x_samples.Tokens.Owner.Lock.{LockOptions, prepare_lock, lock_receipt, lock_call, lock}
use fabric_x_samples.Tokens.Owner.Contents.HashLocks.{met, opened}
use fabric_x_samples.Tokens.Owner.Contents.LockRequests.{
  lock_options, is_refused, nanoseconds, asked_hash, revealed, to_deadline-nanoseconds,
  hash_of-asked_hash, present-revealed, is_refused_until, bad_hash-is_misshapen,
}
use fabric_x_samples.Tokens.Owner.Routes.{lock_tokens, to_tmsid, to_deadline, bad_hash, present}
use fabric_x_samples.Tokens.Owner.Routes.Requests.{LockRequest, LockPayload}

module _ (P : Platform) (h : List Call) (v : LockOptions) (me owner : Identity) (w : Wallet)
    (tx : Transaction) where
  -- The calls up to the lock, up to its endorsement, and up to its ordering.
  abbrev pub locking : List Call
  locking =
      Call.lock tx w me v.token_type v.quantity owner v.reclamation_deadline v.hash ∷ opened P h v

  abbrev pub endorsed : List Call
  endorsed = Call.collect_endorsements tx [] ∷ locking

  abbrev pub committed : List Call
  committed = Call.order tx ∷ endorsed

  module _ (key : Bytes)
      (bound : v.recipient_node ≡ "" ⊎ (P.bind h v.recipient_node v.recipient ≡ ok tt))
      (exchanged : P.exchange_recipient_identities
          (met P h v)
          v.wallet
          v.recipient
          (service_opts v.tms_id [])
        ≡ ok (me, owner))
      (created : P.new_htlc_transaction
          (Call.exchange_recipient_identities v.wallet v.recipient (service_opts v.tms_id [])
            ∷ met P h v)
          (tx_opts v.tms_id [])
        ≡ ok tx)
      (found : P.get_wallet (opened P h v) v.wallet (service_opts v.tms_id []) ≡ some w)
      (added : P.lock
          (opened P h v)
          tx
          w
          me
          v.token_type
          v.quantity
          owner
          v.reclamation_deadline
          v.hash
        ≡ ok key)
      (collected : P.collect_endorsements locking tx [] ≡ ok tt) where
    prepare_lock_ok : prepare_lock P v h ≡ (ok (tx, key), endorsed)
    unfolding prepare_lock
    prepare_lock_ok = ground (arith, eq_iff v.recipient_node "")

    module _ (outputs : List Output) (script : Script) (ordered : P.order endorsed tx ≡ ok tt)
        (readable : P.outputs committed tx ≡ ok outputs)
        (scripted : P.script_at outputs 0 ≡ some script) where
      lock_receipt_ok : lock_receipt P tx key committed ≡ (
        ok (Value.locked (record { tx_id = tx.id; pre_image = key; hash = script.hash })),
        committed,
      )
      unfolding lock_receipt
      lock_receipt_ok = ground arith

      pub lock_call_ok : lock_call P v h ≡ (
        ok (Value.locked (record { tx_id = tx.id; pre_image = key; hash = script.hash })),
        committed,
      )
      unfolding lock_call
      lock_call_ok =
          ap
            (λ (r : Outcome (Transaction × Bytes) × List Call).
              ((λ (_ : List Call). r) >>= λ prepared.
              wrapping "failed to commit htlc transaction" (order P prepared.0)
              >> lock_receipt P prepared.0 prepared.1)
                h)
            prepare_lock_ok
          ∙ ap
              (λ (r : Outcome (Unit {0})).
                (wrapping "failed to commit htlc transaction" (λ (_ : List Call). (r, committed))
                    >> lock_receipt P tx key)
                  endorsed)
              ordered
          ∙ lock_receipt_ok

module _ (P : Platform) (h : List Call) where
  service_ok :
      (m : Go Call Value) (r : LockResult) (g : List Call) (failure : String)
      → P.get_manager h ≡ ok tt
      → P.new_context h ≡ ok tt
      → m h ≡ (ok (Value.locked r), g)
      → (peek P.get_manager >> (initiate_view P m >>= as_lock_result failure)) h ≡ (ok r, g)
  service_ok m r g failure managed running moved =
      ap
        (λ (o : Outcome (Unit {0})).
          ((λ (g : List Call). (o, g)) >> (initiate_view P m >>= as_lock_result failure)) h)
        managed
      ∙ ap
          (λ (o : Outcome (Unit {0})).
            (((λ (g : List Call). (o, g)) >> (λ g. let (r, h') = m g in (rescue P r, h')))
                >>= as_lock_result failure)
              h)
          running
      ∙ ap
          (λ (e : Outcome Value × List Call).
            ((λ (_ : List Call). (rescue P e.0, e.1)) >>= as_lock_result failure) h)
          moved

abbrev payload_of : LockResult → LockPayload
payload_of r = record { hash = r.hash; preimage = present r.pre_image; tx_id = r.tx_id }

-- The answer with this pre-image.
abbrev answer_of : LockResult → Option Bytes → Outcome (Answer LockPayload)
answer_of r preimage = ok (record {
  status = 200;
  body = json "ok" (record { hash = r.hash; preimage = preimage; tx_id = r.tx_id });
})

module _ (P : Platform) (h : List Call) (id : String) (body : LockRequest) (deadline : ℤ) where
  -- What the view is started with.
  abbrev pub wanted : LockOptions
  wanted = lock_options P h id body deadline

  answered_ok :
      (r : LockResult) (g : List Call)
      → is_refused body ≡ false
      → nanoseconds body.deadline ≡ some deadline
      → lock P body.amount.code body.amount.value id body.counterparty.account
          body.counterparty.node deadline
          (asked_hash body.hash)
          (to_tmsid body.tms_id)
          h
        ≡ (ok r, g)
      → strict (lock_tokens P id body) h ≡ (
        ok (record {
          status = 200;
          body =
              json "ok"
                (record { hash = r.hash; preimage = revealed r.pre_image; tx_id = r.tx_id });
        }),
        g,
      )
  unfolding strict lock_tokens
  answered_ok r g accepted until locked =
      let e : to_deadline body.deadline ≡ some deadline =
        to_deadline-nanoseconds body.deadline ∙ until in
      let good : bad_hash body.hash ≡ false =
        bad_hash-is_misshapen body.hash
        ∙ subst (λ o. is_refused_until o body.hash ≡ false) until accepted in
      rw (e, good, lock_tokens)
        (ap
            (λ (k : Bytes).
              strict
                (lock P body.amount.code body.amount.value id body.counterparty.account
                    body.counterparty.node deadline k (to_tmsid body.tms_id)
                  >>= λ result. pure (success "ok" (payload_of result)))
                h)
            (hash_of-asked_hash body.hash)
          ∙ ap
              (λ (o : Outcome LockResult × List Call).
                strict
                  ((λ (_ : List Call). o) >>= λ result. pure (success "ok" (payload_of result))) h)
              locked
          ∙ ap (λ (p : Option Bytes). (answer_of r p, g)) (present-revealed r.pre_image))

  -- A request to lock that is not refused is answered with status 200, the ID of its transaction, the
  -- pre-image that the lock was made with and the hash of its script, and it has made exactly the calls of
  -- a lock, when the calls that it makes succeed: the recipient is bound to its node, if one is named, the
  -- identities are exchanged, the account has a wallet, the lock is made and endorsed, its transaction
  -- ordered, and the outputs of it are read, the first of which has the script.
  pub lock_tokens_succeeds :
      (me owner : Identity) (w : Wallet) (tx : Transaction) (key : Bytes) (outputs : List Output)
      → (script : Script) → is_refused body ≡ false
      → nanoseconds body.deadline ≡ some deadline
      → P.get_manager h ≡ ok tt
      → P.new_context h ≡ ok tt
      → body.counterparty.node ≡ ""
        ⊎ (P.bind h body.counterparty.node body.counterparty.account ≡ ok tt)
      → P.exchange_recipient_identities
          (met P h wanted)
          id
          body.counterparty.account
          (service_opts wanted.tms_id [])
        ≡ ok (me, owner)
      → P.new_htlc_transaction
          (Call.exchange_recipient_identities id body.counterparty.account
              (service_opts wanted.tms_id [])
            ∷ met P h wanted)
          (tx_opts wanted.tms_id [])
        ≡ ok tx
      → P.get_wallet (opened P h wanted) id (service_opts wanted.tms_id []) ≡ some w
      → P.lock
          (opened P h wanted)
          tx
          w
          me
          body.amount.code
          body.amount.value
          owner
          deadline
          (asked_hash body.hash)
        ≡ ok key
      → P.collect_endorsements (locking P h wanted me owner w tx) tx [] ≡ ok tt
      → P.order (endorsed P h wanted me owner w tx) tx ≡ ok tt
      → P.outputs (committed P h wanted me owner w tx) tx ≡ ok outputs
      → P.script_at outputs 0 ≡ some script
      → strict (lock_tokens P id body) h ≡ (
        ok (record {
          status = 200;
          body = json "ok" (record { hash = script.hash; preimage = revealed key; tx_id = tx.id });
        }),
        committed P h wanted me owner w tx,
      )
  unfolding lock
  lock_tokens_succeeds me owner w tx key outputs script accepted until managed running bound
        exchanged created found added collected ordered readable scripted =
      answered_ok (record { tx_id = tx.id; pre_image = key; hash = script.hash })
        (committed P h wanted me owner w tx) accepted until
        (service_ok P h (lock_call P wanted)
          (record { tx_id = tx.id; pre_image = key; hash = script.hash })
          (committed P h wanted me owner w tx) "cannot parse lock response" managed running
          (lock_call_ok P h wanted me owner w tx key bound exchanged created found added collected
            outputs script ordered readable scripted))
