-- ===== src/Tokens/Owner/Routes.antt =====
-- tokens/owner/routes/routes.go: the REST server of an owner.
pub mod Requests
pub mod Guards
pub mod Effects
use fabric_x_samples.Prelude.{
  ℕ, String, ◌%◌, ◌^◌, ◌/◌, Bool, true, false, ◌||◌, not, Option, none, some, List, [], ◌∷◌, ◌≡◌,
  nat_eq, length, ◌-◌, map, lookup, if◌then◌else◌,
}
use fabric_x_samples.Go.{Error, Go, pure, throw, ◌>>=◌}
use fabric_x_samples.Tokens.Int.{ℤ, pos, ltb_ℤ, scale_int64}
use fabric_x_samples.Tokens.Types.{Bytes, TmsId, TransactionRecord, Call}
use fabric_x_samples.Tokens.Platform.{Platform}
use fabric_x_samples.Tokens.Http.{Problem, Reply, success, default_reply}
use fabric_x_samples.Tokens.Owner.Types.{LockResult}
use fabric_x_samples.Tokens.Owner.Balances.{Amount, AmountMap, balance, balances}
use fabric_x_samples.Tokens.Owner.History.{get_transactions}
use fabric_x_samples.Tokens.Owner.Transfer.{transfer}
use fabric_x_samples.Tokens.Owner.Redeem.{redeem}
use fabric_x_samples.Tokens.Owner.Lock.{lock}
use fabric_x_samples.Tokens.Owner.Unlock.{claim, reclaim}
use Requests.{
  Account, AccountParams, RedeemRequest, TransferRequest, LockRequest, LockPayload, ClaimRequest,
  ReclaimRequest, Record, or_empty,
}

-- `toTMSID`
unfoldable pub to_tmsid : Option TmsId → Option TmsId
to_tmsid none = none
to_tmsid (some id) =
    some (record { network = id.network; channel = id.channel; namespace = id.namespace })

-- `toTMSIDFromParams`
unfoldable pub to_tmsid_from_params : Option String → Option String → Option String → Option TmsId
to_tmsid_from_params none channel namespace = none
to_tmsid_from_params (some network) channel namespace =
    some (record { network = network; channel = or_empty channel; namespace = or_empty namespace })

-- The largest int64, and a second in nanoseconds.
abbrev pub max_int64 : ℕ
max_int64 = 2 ^ 63 - 1

abbrev pub second : ℕ
second = 1_000_000_000

-- `toDeadline`, with int64's wrap-around in the product; `none` is the pair (0, false).
unfoldable pub to_deadline : ℤ → Option ℤ
to_deadline seconds =
    if ltb_ℤ seconds (pos 1) || ltb_ℤ (pos (max_int64 / second)) seconds
    then none
    else some (scale_int64 seconds second)

unfoldable pub bad_request : String → Problem
bad_request text = record { message = "bad request"; payload = text }

-- `http.StatusBadRequest`, `sha256.Size`
abbrev pub status_bad_request : ℕ
status_bad_request = 400

abbrev pub sha256_size : ℕ
sha256_size = 32

abbrev pub refuse : {A : Type 0} → String → Go Call (Reply A)
refuse text = pure (default_reply (bad_request text) status_bad_request)

-- `len(res.PreImage) > 0`
abbrev pub present : Bytes → Option Bytes
present [] = none
present (b ∷ bytes) = some (b ∷ bytes)

-- The test on the length of a given hash.
abbrev pub bad_hash : Option Bytes → Bool
bad_hash none = false
bad_hash (some hash) = not (nat_eq (length hash) sha256_size)

abbrev pub hash_of : Option Bytes → Bytes
hash_of none = []
hash_of (some hash) = hash

module _ (P : Platform) where
  -- `OwnerAccounts`
  unfoldable pub owner_accounts : Go Call (Reply (List Account))
  owner_accounts = throw (Error.message "not implemented: /owner/accounts")

  -- `OwnerAccount`: the balance of one type, or of all.
  unfoldable pub owner_account :
      (AmountMap → AmountMap) → String → AccountParams → Go Call (Reply Account)
  unfolding to_tmsid_from_params
  owner_account iterate id params = do
    let tms_id = to_tmsid_from_params params.network params.channel params.namespace
    balance ← elim params.code [
      | some code ↦ (do bal ← balance P id code tms_id; pure (bal ∷ []))
      | none ↦ balances P iterate id tms_id
    ]
    pure (success "ok" (record { id = id; balance = balance }))

  -- `Redeem`
  unfoldable pub redeem_tokens : String → RedeemRequest → Go Call (Reply String)
  redeem_tokens id body = do
    res ← redeem P body.amount.code body.amount.value id (or_empty body.message)
    pure (success "ok" res)

  abbrev to_record : TransactionRecord → Record
  to_record tx = record {
    amount = record { code = tx.token_type; value = tx.amount % 2 ^ 64 };
    id = tx.tx_id;
    recipient = tx.recipient_eid;
    sender = tx.sender_eid;
    status = P.status_message tx.status;
    timestamp = tx.timestamp;
    message = or_empty (lookup "message" tx.application_metadata);
  }

  abbrev read_all : List TransactionRecord × Option Error → Go Call (Reply (List Record))
  read_all (txs, none) = pure (success "ok" (map to_record txs))
  read_all (txs, some e) = throw e

  -- `OwnerTransactions`
  unfoldable pub owner_transactions : String → Go Call (Reply (List Record))
  owner_transactions id = do read ← get_transactions P id; read_all read

  -- `Transfer`
  unfoldable pub transfer_tokens : String → TransferRequest → Go Call (Reply String)
  transfer_tokens id body = do
    res ←
        transfer P body.amount.code body.amount.value id body.counterparty.account
          body.counterparty.node (or_empty body.message)
    pure (success "ok" res)

  -- `Lock`
  unfoldable pub lock_tokens : String → LockRequest → Go Call (Reply LockPayload)
  unfolding to_deadline to_tmsid bad_request
  lock_tokens id body = elim (to_deadline body.deadline) [
    | none ↦ refuse "deadline must be a positive number of seconds"
    | some deadline ↦
        if bad_hash body.hash then refuse "hash must be a 32 byte SHA-256 digest" else (do
          res ←
              lock P body.amount.code body.amount.value id body.counterparty.account
                body.counterparty.node deadline (hash_of body.hash) (to_tmsid body.tms_id)
          pure (
              success "ok"
                (record { hash = res.hash; preimage = present res.pre_image; tx_id = res.tx_id })))
  ]

  -- `Claim`
  unfoldable pub claim_tokens : String → ClaimRequest → Go Call (Reply String)
  unfolding to_tmsid bad_request
  claim_tokens id body =
      if nat_eq (length body.preimage) 0
      then refuse "preimage is required"
      else (do tx_id ← claim P id body.preimage (to_tmsid body.tms_id); pure (success "ok" tx_id))

  -- `Reclaim`
  unfoldable pub reclaim_tokens : String → ReclaimRequest → Go Call (Reply String)
  unfolding to_tmsid bad_request
  reclaim_tokens id body =
      if nat_eq (length body.hash) 0
      then refuse "hash is required"
      else (do tx_id ← reclaim P id body.hash (to_tmsid body.tms_id); pure (success "ok" tx_id))

  -- `Healthz` and `Readyz`
  unfoldable pub healthz : Go Call (Reply (Unit {0}))
  healthz = pure (success "ok" tt)

  unfoldable pub readyz : Go Call (Reply (Unit {0}))
  readyz = pure (success "ok" tt)
