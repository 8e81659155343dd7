-- ===== src/Tests/Contents.antt =====
-- What the requests and views of the token application move, on a platform that answers every call.
use fabric_x_samples.Prelude.{false, true, none, some, inr, [], ◌∷◌, ◌≡◌, refl, arith}
use fabric_x_samples.Go.{ok}
use fabric_x_samples.Tokens.Int.{pos}
use fabric_x_samples.Tokens.Contents.{OnResult, OnAnswer}
use fabric_x_samples.Tokens.Http.{json, strict}
use fabric_x_samples.Tokens.Http.Tells.{Tells}
use fabric_x_samples.Tokens.Common.Views
use fabric_x_samples.Tokens.Common.Views.{issue_cash_call, redeem_call}
use fabric_x_samples.Tokens.Common.Lifecycle.{IsConfirmed}
use fabric_x_samples.Tokens.Common.Contents as Common
use fabric_x_samples.Tokens.Common.Contents.{issue_cash_call-Issues, redeem_call-Redeems}
use fabric_x_samples.Tokens.Owner.Types.{Value, LockResult}
use fabric_x_samples.Tokens.Owner.Lock.{lock_call, prepare_lock, lock_receipt, lock_accept_call}
use fabric_x_samples.Tokens.Owner.Acceptance.{AcceptsLock, lock_accept_call-AcceptsLock}
use fabric_x_samples.Tokens.Owner.Contents.Payments.{
  Pays, transfer_options, transfer_tokens-Pays, Burns, redeem_options, redeem_tokens-Burns,
}
use fabric_x_samples.Tokens.Owner.Contents.Unlocks.{
  Claims, claim_options, claim_tokens-Claims, Reclaims, reclaim_options, reclaim_tokens-Reclaims,
}
use fabric_x_samples.Tokens.Owner.Contents.LockRequests.{
  is_refused, LocksUntil, lock_tokens-LocksUntil,
}
use fabric_x_samples.Tokens.Owner.Contents.HashLocks.{met}
use fabric_x_samples.Tokens.Owner.TwoNodes.{Agree, lock_call-lock_accept_call}
use fabric_x_samples.Tokens.Types.{Identity}
use fabric_x_samples.Tokens.Owner.Progress.{lock_tokens_succeeds, committed, wanted}
use fabric_x_samples.Tokens.Owner.Routes.{
  transfer_tokens, redeem_tokens, lock_tokens, claim_tokens, reclaim_tokens,
}
use fabric_x_samples.Tokens.Owner.Routes.Effects.{TellsLock}
use fabric_x_samples.Tokens.Owner.Routes.Requests.{ReclaimRequest}
use fabric_x_samples.Tokens.Issuer.{issue_tokens}
use fabric_x_samples.Tokens.Issuer.Contents.{IssuesFor, issue_tokens-Issues}
use fabric_x_samples.Tests.Demo.{demo, tx_1, output_1, script_1}
use fabric_x_samples.Tests.Tokens.{
  transfer_request, redeem_request, claim_request, lock_request, lock_1,
}
use fabric_x_samples.Tests.Servers.{issue_request}

transfer_tokens-Pays_example :
    Tells demo [] false (strict (transfer_tokens demo "alice" transfer_request) [])
    × OnAnswer
        (Pays demo [] (transfer_options demo [] "alice" transfer_request))
        (strict (transfer_tokens demo "alice" transfer_request) [])
transfer_tokens-Pays_example = transfer_tokens-Pays demo [] "alice" transfer_request

redeem_tokens-Burns_example :
    Tells demo [] false (strict (redeem_tokens demo "alice" redeem_request) [])
    × OnAnswer
        (Burns demo [] (redeem_options demo [] "alice" redeem_request))
        (strict (redeem_tokens demo "alice" redeem_request) [])
redeem_tokens-Burns_example = redeem_tokens-Burns demo [] "alice" redeem_request

claim_tokens-Claims_example :
    Tells demo [] false (strict (claim_tokens demo "bob" claim_request) [])
    × OnAnswer
        (Claims demo [] (claim_options demo [] "bob" claim_request))
        (strict (claim_tokens demo "bob" claim_request) [])
claim_tokens-Claims_example = claim_tokens-Claims demo [] "bob" claim_request

abbrev by_hash : ReclaimRequest
by_hash = record { hash = 9 ∷ []; tms_id = none }

reclaim_tokens-Reclaims_example :
    Tells demo [] false (strict (reclaim_tokens demo "alice" by_hash) [])
    × OnAnswer
        (Reclaims demo [] (reclaim_options demo [] "alice" by_hash))
        (strict (reclaim_tokens demo "alice" by_hash) [])
reclaim_tokens-Reclaims_example = reclaim_tokens-Reclaims demo [] "alice" by_hash

lock_tokens-LocksUntil_example :
    TellsLock demo [] (is_refused lock_request) (strict (lock_tokens demo "alice" lock_request) [])
    × OnAnswer
        (LocksUntil demo [] "alice" lock_request (some (pos 60_000_000_000)))
        (strict (lock_tokens demo "alice" lock_request) [])
lock_tokens-LocksUntil_example = lock_tokens-LocksUntil demo [] "alice" lock_request

issue_tokens-Issues_example :
    Tells demo [] false (strict (issue_tokens demo (some issue_request)) [])
    × OnAnswer
        (IssuesFor demo [] (some issue_request))
        (strict (issue_tokens demo (some issue_request)) [])
issue_tokens-Issues_example = issue_tokens-Issues demo [] (some issue_request)

abbrev issue_1 : Views.IssueCash
issue_1 = record {
  tms_id = none;
  anonymous = true;
  auditor = "";
  issuer_wallet = "issuer";
  token_type = "EUR";
  quantity = 16;
  recipient = "alice";
  recipient_wallet_id = "";
  recipient_eid = "alice";
  skip_auditor_signature_verification = false;
}

issue_cash_call-Issues_example :
    IsConfirmed demo [] (issue_cash_call demo issue_1 [])
    × OnResult (Common.Issues demo [] issue_1) (issue_cash_call demo issue_1 [])
issue_cash_call-Issues_example = issue_cash_call-Issues demo [] issue_1

abbrev redeem_1 : Views.Redeem
redeem_1 = record {
  auditor = "auditor";
  issuer = "";
  issuer_public_params_public_key = "";
  wallet = "alice";
  token_ids = [];
  token_type = "EUR";
  amount = 16;
  tms_id = none;
}

redeem_call-Redeems_example :
    IsConfirmed demo [] (redeem_call demo redeem_1 [])
    × OnResult (Common.Redeems demo [] redeem_1) (redeem_call demo redeem_1 [])
redeem_call-Redeems_example = redeem_call-Redeems demo [] redeem_1

lock_accept_call-AcceptsLock_example : AcceptsLock demo [] (lock_accept_call demo [])
lock_accept_call-AcceptsLock_example = lock_accept_call-AcceptsLock demo []

-- The recipient of the script is the identity that was given out.
accepts_lock : (lock_accept_call demo []).0 ≡ ok (Value.string "tx1")
unfolding lock_accept_call
accepts_lock = refl

lock_tokens_succeeds_example : strict (lock_tokens demo "alice" lock_request) [] ≡ (
  ok (record {
    status = 200;
    body = json "ok" (record { hash = 1 ∷ 2 ∷ []; preimage = some (7 ∷ []); tx_id = "tx1" });
  }),
  committed demo []
      (wanted demo [] "alice" lock_request (pos 60_000_000_000))
      "alice"
      "bob"
      "alice"
      tx_1,
)
lock_tokens_succeeds_example =
    lock_tokens_succeeds demo [] "alice" lock_request (pos 60_000_000_000) "alice" "bob" "alice"
      tx_1 (7 ∷ []) (output_1 ∷ []) script_1 refl refl refl refl (inr refl) refl refl refl refl refl
      refl refl refl

-- The result of the lock, and the identities that both nodes of the demonstration exchange.
abbrev locked_1 : LockResult
locked_1 = record { tx_id = "tx1"; pre_image = 7 ∷ []; hash = 1 ∷ 2 ∷ [] }

mirrored :
    (me owner : Identity)
    → demo.exchange_recipient_identities (met demo [] lock_1) "alice" "bob" [] ≡ ok (me, owner)
    → demo.respond_exchange_recipient_identities [] ≡ ok (owner, me)
mirrored me owner same = ground arith

lock_call-lock_accept_call_example :
    Agree demo demo [] [] lock_1 locked_1 "tx1" (lock_call demo lock_1 []).1
unfolding lock_call prepare_lock lock_receipt lock_accept_call
lock_call-lock_accept_call_example =
    lock_call-lock_accept_call demo demo [] [] lock_1 mirrored locked_1 (lock_call demo lock_1 []).1
      refl "tx1" (lock_accept_call demo []).1 refl
