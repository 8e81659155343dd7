-- ===== src/Tokens/Owner/Contents/LockRequests.antt =====
-- What a lock moves that a client's request makes.
use fabric_x_samples.Prelude.{
  String, Bool, true, false, not, ◌&&◌, leb, nat_eq, ◌*◌, length, Option, none, some, List, [], ◌∷◌,
  ◌≡◌, refl, sym, ap, subst, ◌∙◌, Bool-cases, Option-cases, inl, inr, if◌then◌else◌, arith,
}
use fabric_x_samples.Go.{Outcome, ok, err, panic, Go, peek, pure, ◌>>=◌, ◌>>◌}
use fabric_x_samples.Tokens.Int.{ℤ, pos, negsuc}
use fabric_x_samples.Tokens.Types.{Bytes, Call}
use fabric_x_samples.Tokens.Platform.{Platform, initiate_view, rescue}
use fabric_x_samples.Tokens.Contents.{OnResult, OnAnswer}
use fabric_x_samples.Tokens.Http.{strict, success}
use fabric_x_samples.Tokens.Owner.Types.{Value, LockResult, as_lock_result}
use fabric_x_samples.Tokens.Owner.Lock.{LockOptions, lock_call, lock}
use fabric_x_samples.Tokens.Owner.Routes.Effects.{TellsLock, refuses_lock, lock_tokens-TellsLock}
use fabric_x_samples.Tokens.Owner.Routes.{
  lock_tokens, to_deadline, to_tmsid, bad_hash, hash_of, present,
}
use fabric_x_samples.Tokens.Owner.Routes.Requests.{LockRequest, LockPayload}
use fabric_x_samples.Tokens.Owner.Contents.HashLocks.{OnLocked, Locks, lock_call-Locks}

-- The nanoseconds of a deadline in seconds, if it is from 1 to 9223372036.
abbrev pub nanoseconds : ℤ → Option ℤ
nanoseconds (pos n) =
    if leb 1 n && leb n 9_223_372_036 then some (pos (n * 1_000_000_000)) else none
nanoseconds (negsuc n) = none

-- A given hash has not the 32 bytes of a SHA-256 digest.
abbrev pub is_misshapen : Option Bytes → Bool
is_misshapen none = false
is_misshapen (some hash) = not (nat_eq (length hash) 32)

abbrev pub is_refused_until : Option ℤ → Option Bytes → Bool
is_refused_until none hash = true
is_refused_until (some deadline) hash = is_misshapen hash

-- The deadline is out of range, or the hash misshapen.
abbrev pub is_refused : LockRequest → Bool
is_refused body = is_refused_until (nanoseconds body.deadline) body.hash

-- The hash that is asked for, empty for none; and a pre-image in an answer, none for the empty one.
abbrev pub asked_hash : Option Bytes → Bytes
asked_hash none = []
asked_hash (some hash) = hash

abbrev pub revealed : Bytes → Option Bytes
revealed [] = none
revealed (b ∷ bytes) = some (b ∷ bytes)

pub to_deadline-nanoseconds : (s : ℤ) → to_deadline s ≡ nanoseconds s
unfolding to_deadline
to_deadline-nanoseconds (pos n) = ground arith
to_deadline-nanoseconds (negsuc n) = ground arith

pub bad_hash-is_misshapen : (hash : Option Bytes) → bad_hash hash ≡ is_misshapen hash
bad_hash-is_misshapen none = refl
bad_hash-is_misshapen (some hash) = refl

pub hash_of-asked_hash : (hash : Option Bytes) → hash_of hash ≡ asked_hash hash
hash_of-asked_hash none = refl
hash_of-asked_hash (some hash) = refl

pub present-revealed : (b : Bytes) → present b ≡ revealed b
present-revealed [] = refl
present-revealed (b ∷ bytes) = refl

module _ (P : Platform) (h : List Call) where
  refuses_lock-is_refused : (body : LockRequest) → refuses_lock P h body ≡ is_refused body
  refuses_lock-is_refused body = by_deadline (to_deadline body.deadline) refl
    where
      by_deadline :
          (o : Option ℤ) → to_deadline body.deadline ≡ o → refuses_lock P h body ≡ is_refused body
      by_deadline none e = rw (e, sym (to_deadline-nanoseconds body.deadline) ∙ e) refl
      by_deadline (some d) e =
          rw (e, sym (to_deadline-nanoseconds body.deadline) ∙ e) (bad_hash-is_misshapen body.hash)

  module _ (Q : LockResult → List Call → Type 0) where
    rescued-OnLocked :
        (failure : String) (r : Outcome Value × List Call)
        → OnLocked Q r
        → OnResult Q (((λ (_ : List Call). (rescue P r.0, r.1)) >>= as_lock_result failure) h)
    rescued-OnLocked failure (ok (Value.locked r), h') q = q
    rescued-OnLocked failure (ok Value.nothing, h') q = absurd q
    rescued-OnLocked failure (ok (Value.string id), h') q = absurd q
    rescued-OnLocked failure (err e, h') q = tt
    rescued-OnLocked failure (panic why, h') q = elim (Option-cases (P.recovered why)) [
      | inl e ↦ rw (e, rescue) tt
      | inr (x, e) ↦ rw (e, rescue) tt
    ]

    lock-service-OnLocked :
        (failure : String) (m : Go Call Value)
        → OnLocked Q (m h)
        → OnResult Q ((peek P.get_manager >> (initiate_view P m >>= as_lock_result failure)) h)
    lock-service-OnLocked failure m q = start (P.get_manager h) (P.new_context h)
      where
        start :
            (managed context : Outcome (Unit {0}))
            → OnResult Q (
                ((λ (g : List Call). (managed, g))
                    >> (((λ (g : List Call). (context, g))
                          >> (λ g. let (r, h') = m g in (rescue P r, h')))
                        >>= as_lock_result failure))
                  h)
        start (err e) context = tt
        start (panic why) context = tt
        start (ok _) (err e) = tt
        start (ok _) (panic why) = tt
        start (ok _) (ok _) = rescued-OnLocked failure (m h) q

  abbrev pub lock_options : String → LockRequest → ℤ → LockOptions
  lock_options id body deadline = record {
    tms_id = to_tmsid body.tms_id;
    wallet = id;
    token_type = body.amount.code;
    quantity = body.amount.value;
    recipient = body.counterparty.account;
    recipient_node = body.counterparty.node;
    hash = asked_hash body.hash;
    reclamation_deadline = deadline;
  }

  abbrev pub LocksUntil : String → LockRequest → Option ℤ → LockPayload → List Call → Type 0
  LocksUntil id body none payload h' = ⊥
  LocksUntil id body (some deadline) payload h' =
      (r : LockResult) × ((payload
          ≡ record { hash = r.hash; preimage = revealed r.pre_image; tx_id = r.tx_id })
        × Locks P h (lock_options id body deadline) r h')

  payload_of : LockResult → LockPayload
  payload_of r = record { hash = r.hash; preimage = present r.pre_image; tx_id = r.tx_id }

  success-LocksUntil :
      (id : String) (body : LockRequest) (deadline : ℤ) (r : Outcome LockResult × List Call)
      → OnResult (Locks P h (lock_options id body deadline)) r
      → OnAnswer
          (LocksUntil id body (some deadline))
          (strict ((λ (_ : List Call). r) >>= λ result. pure (success "ok" (payload_of result))) h)
  unfolding strict payload_of
  success-LocksUntil id body deadline (ok result, h') q =
      let payload : Bytes → Option Bytes → String → LockPayload =
        λ hash preimage id. record { hash = hash; preimage = preimage; tx_id = id } in
      (
        result,
        (ap (λ k. payload result.hash k result.tx_id) (present-revealed result.pre_image), q),
      )
  success-LocksUntil id body deadline (err e, h') q = tt
  success-LocksUntil id body deadline (panic why, h') q = tt

  lock_tokens-OnAnswer :
      (id : String) (body : LockRequest)
      → OnAnswer (LocksUntil id body (to_deadline body.deadline)) (strict (lock_tokens P id body) h)
  unfolding lock_tokens lock strict payload_of
  lock_tokens-OnAnswer id body = by_deadline (to_deadline body.deadline) refl
    where
      by_deadline :
          (o : Option ℤ)
          → to_deadline body.deadline ≡ o
          → OnAnswer (LocksUntil id body o) (strict (lock_tokens P id body) h)
      by_deadline none e = rw (e, lock_tokens) tt
      by_deadline (some deadline) e = elim (Bool-cases (bad_hash body.hash)) [
        | inl bad ↦ rw (e, bad, lock_tokens) tt
        | inr good ↦
            let v = lock_options id body deadline in
            rw (e, good, lock_tokens)
              (subst
                (λ k. OnAnswer (LocksUntil id body (some deadline)) (
                  strict
                    (lock P v.token_type v.quantity v.wallet v.recipient v.recipient_node
                        v.reclamation_deadline k v.tms_id
                      >>= λ result. pure (success "ok" (payload_of result)))
                    h))
                (sym (hash_of-asked_hash body.hash))
                (success-LocksUntil id body deadline
                  (lock P v.token_type v.quantity v.wallet v.recipient v.recipient_node
                    v.reclamation_deadline v.hash v.tms_id h)
                  (lock-service-OnLocked (Locks P h v) "cannot parse lock response" (lock_call P v)
                    (lock_call-Locks P h v))))
      ]

  -- A lock is refused with status 400, before any call, exactly if its deadline is not from 1 to
  -- 9223372036 seconds or it has a hash that is not 32 bytes long. Any other is answered with status 200 and the ID of the transaction that the last call
  -- committed, the only one that it committed; or with status 500 or by a panic, and then nothing is
  -- committed, unless the outputs of the transaction that the last call committed, the only one,
  -- cannot be read. The transaction of an ID in the answer holds one lock and no other was given
  -- anything: the quantity and the type of the request, from the account's wallet, between the two
  -- identities that were exchanged, until the deadline in nanoseconds and under the hash of the request,
  -- if it has one. The answer has the pre-image that the lock was made with, if that is not empty, and the
  -- hash of its script.
  pub lock_tokens-LocksUntil :
      (id : String) (body : LockRequest)
      → TellsLock P h (is_refused body) (strict (lock_tokens P id body) h)
        × OnAnswer
            (LocksUntil id body (nanoseconds body.deadline))
            (strict (lock_tokens P id body) h)
  lock_tokens-LocksUntil id body = (
    subst (λ b. TellsLock P h b (strict (lock_tokens P id body) h)) (refuses_lock-is_refused body)
        (lock_tokens-TellsLock P h id body),
    subst (λ d. OnAnswer (LocksUntil id body d) (strict (lock_tokens P id body) h))
        (to_deadline-nanoseconds body.deadline) (lock_tokens-OnAnswer id body),
  )
