-- ===== src/Tokens/Owner/Lock.antt =====
-- tokens/owner/service/htlc_lock.go: locking tokens in a hash time-locked contract, and the
-- recipient's side of it.
use fabric_x_samples.Prelude.{ℕ, String, Option, [], ◌<>◌, ◌==◌, nat_eq, length, if◌then◌else◌}
use fabric_x_samples.Go.{Error, Go, pure, throw, crash, peek, guard, wrapping, non_nil, ◌>>=◌, ◌>>◌}
use fabric_x_samples.Tokens.Int.{ℤ}
use fabric_x_samples.Tokens.Types.{Bytes, Identity, TmsId, Transaction, Script, Call}
use fabric_x_samples.Tokens.Platform.{Platform, initiate_view}
use fabric_x_samples.Tokens.Calls.{
  bind, exchange_recipient_identities, respond_exchange_recipient_identities, receive_transaction,
  new_htlc_transaction, add_lock, collect_endorsements, order, accept, await_finality, get_outputs,
  get_wallet,
}
use fabric_x_samples.Tokens.Common.Options.{service_opts, tx_opts}
use fabric_x_samples.Tokens.Owner.Types.{Value, LockResult, as_lock_result}

-- `Hash` is empty if the script's hash is to be made of a fresh pre-image.
pub record LockOptions : Type 0 where
  pub tms_id : Option TmsId
  pub wallet : String
  pub token_type : String
  pub quantity : ℕ
  pub recipient : String
  pub recipient_node : String
  pub hash : Bytes
  pub reclamation_deadline : ℤ

module _ (P : Platform) where
  -- `LockView.Call` up to the collection of the endorsements: the transaction, and the pre-image.
  unfoldable pub prepare_lock : LockOptions → Go Call (Transaction × Bytes)
  prepare_lock v = do
    if v.recipient_node == ""
        then pure tt
        else wrapping "failed binding recipient to node" (bind P v.recipient_node v.recipient)
    both ←
        wrapping "failed exchanging recipient identity"
          (exchange_recipient_identities P v.wallet v.recipient (service_opts v.tms_id []))
    tx ← wrapping "failed creating htlc transaction" (new_htlc_transaction P (tx_opts v.tms_id []))
    sender ←
        get_wallet P ("sender wallet [" <> v.wallet <> "] not found") v.wallet
          (service_opts v.tms_id [])
    pre_image ←
        wrapping "failed adding lock operation"
          (add_lock P tx sender both.0 v.token_type v.quantity both.1 v.reclamation_deadline v.hash)
    wrapping "failed to collect endorsements for htlc transaction" (collect_endorsements P tx [])
    pure (tx, pre_image)

  -- The end of `LockView.Call`: what was locked. Reading the script of an output that has none is a
  -- nil dereference.
  unfoldable pub lock_receipt : Transaction → Bytes → Go Call Value
  lock_receipt tx pre_image = do
    outputs ← wrapping "failed getting outputs" (get_outputs P tx)
    script ← non_nil (P.script_at outputs 0) (crash "nil pointer dereference")
    pure (Value.locked (record { tx_id = tx.id; pre_image = pre_image; hash = script.hash }))

  -- `LockView.Call`
  unfoldable pub lock_call : LockOptions → Go Call Value
  lock_call v = do
    prepared ← prepare_lock v
    wrapping "failed to commit htlc transaction" (order P prepared.0)
    lock_receipt prepared.0 prepared.1

  -- `LockAcceptView.Call` up to the script of the one output that has one: the two identities, the
  -- transaction and the script. Reading the script of an output that has none is a nil dereference.
  unfoldable pub receive_lock : Go Call (Identity × Identity × Transaction × Script)
  receive_lock = do
    both ←
        wrapping "failed to respond to identity exchange" (respond_exchange_recipient_identities P)
    tx ← wrapping "failed to receive htlc transaction" (receive_transaction P)
    outputs ← wrapping "failed getting outputs" (get_outputs P tx)
    let scripted = P.by_script outputs
    guard (nat_eq (length scripted) 1) (throw (Error.message "expected exactly one htlc output"))
    script ← non_nil (P.script_at scripted 0) (crash "nil pointer dereference")
    pure (both.0, both.1, tx, script)

  -- Its checks of the script, and the acceptance.
  unfoldable pub accept_script : Identity × Identity × Transaction × Script → Go Call Value
  accept_script (me, sender, tx, script) = do
    wrapping "script is not valid" (peek (λ h. P.script_valid h script))
    guard (me == script.recipient) (throw (Error.message "expected me as recipient of the script"))
    guard (sender == script.sender)
        (throw (Error.message "expected sender as sender of the script"))
    wrapping "failed to accept locked tokens" (accept P tx)
    wrapping "locked tokens were not committed" (await_finality P tx)
    pure (Value.string tx.id)

  -- `LockAcceptView.Call`
  unfoldable pub lock_accept_call : Go Call Value
  unfolding receive_lock accept_script
  lock_accept_call = do offer ← receive_lock; accept_script offer

  -- `FabricSmartClient.Lock`
  unfoldable pub lock :
      String → ℕ → String → String → String → ℤ → Bytes → Option TmsId → Go Call LockResult
  unfolding lock_call
  lock token_type quantity sender recipient recipient_node deadline hash tms_id = do
    peek P.get_manager
    res ← initiate_view P (
        lock_call (record {
          tms_id = tms_id;
          wallet = sender;
          token_type = token_type;
          quantity = quantity;
          recipient = recipient;
          recipient_node = recipient_node;
          hash = hash;
          reclamation_deadline = deadline;
        }))
    as_lock_result "cannot parse lock response" res
