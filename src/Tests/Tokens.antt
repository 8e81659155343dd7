-- ===== src/Tests/Tokens.antt =====
-- The token application, run with platforms that answer every call.
use fabric_x_samples.Prelude.{
  ℕ, String, Bool, true, false, ◌*◌, none, some, List, [], ◌∷◌, ◌≡◌, ◌↔◌, refl, inl,
}
use fabric_x_samples.Go.{Error, Outcome, ok, err}
use fabric_x_samples.Tokens.Int.{pos, ◌≤ℤ◌}
use fabric_x_samples.Tokens.Types.{
  Transaction, TxStatus, pending, confirmed, TransactionRecord, item, failed, Call,
}
use fabric_x_samples.Tokens.Types
use fabric_x_samples.Tokens.Platform.{Platform}
use fabric_x_samples.Tokens.Settlement.{Collected}
use fabric_x_samples.Tokens.Sessions
use fabric_x_samples.Tokens.Sessions.{Committed-Collected}
use fabric_x_samples.Tokens.Common.Assert.{AreKept, Decides, assert_tokens, assert_tokens-Decides}
use fabric_x_samples.Tokens.Common.Acceptance.{Accepts, accept_cash_call-Accepts}
use fabric_x_samples.Tokens.Common.Views
use fabric_x_samples.Tokens.Common.Views.{accept_cash_call, issue_cash_call, redeem_call}
use fabric_x_samples.Tokens.Owner.Balances.{Amount, AmountMap, balances}
use fabric_x_samples.Tokens.Owner.Balances.Answers.{Iterates, Reports, balances-Reports}
use fabric_x_samples.Tokens.Owner.History.{get_transactions, get_transactions_reads}
use fabric_x_samples.Tokens.Owner.Transfer.{TransferOptions, transfer_call}
use fabric_x_samples.Tokens.Owner.Lock.{LockOptions, lock_call, prepare_lock, lock_receipt}
use fabric_x_samples.Tokens.Owner.Flows.Locks.{lock_call_lost}
use fabric_x_samples.Tokens.Owner.Routes.{second, to_deadline}
use fabric_x_samples.Tokens.Owner.Routes.Requests.{
  Counterparty, RedeemRequest, TransferRequest, LockRequest, ClaimRequest, ReclaimRequest,
}
use fabric_x_samples.Tokens.Owner.Routes.Guards.{to_deadline_iff}
use fabric_x_samples.Tokens.Endorser.{Config, Services}
use fabric_x_samples.Tests.Demo.{tx_1, token_of, output_1, record_1, demo, demo_accepting}

abbrev transfer_1 : TransferOptions
transfer_1 = record {
  wallet = "alice";
  token_type = "EUR";
  quantity = 16;
  recipient_node = "";
  recipient = "bob";
  message = "rent";
}

Committed-Collected_example : Collected demo tx_1 (transfer_call demo transfer_1 []).1
unfolding transfer_call
Committed-Collected_example =
    Committed-Collected demo tx_1 (Sessions.Session.transfers transfer_1 Sessions.Session.start)
      (inl (refl, refl))

abbrev eur : ℕ → Amount
eur n = record { code = "EUR"; value = n }

abbrev to_bob : Counterparty
to_bob = record { account = "bob"; node = "owner2" }

abbrev pub transfer_request : TransferRequest
transfer_request = record { amount = eur 16; counterparty = to_bob; message = none }

abbrev pub redeem_request : RedeemRequest
redeem_request = record { amount = eur 16; message = some "bye" }

abbrev pub claim_request : ClaimRequest
claim_request = record { preimage = 7 ∷ []; tms_id = none }

abbrev pub reclaim_request : ReclaimRequest
reclaim_request = record { hash = []; tms_id = none }

abbrev pub lock_request : LockRequest
lock_request = record {
  amount = eur 16;
  counterparty = to_bob;
  deadline = pos 60;
  hash = none;
  tms_id = none;
}

abbrev pub same_order : AmountMap → AmountMap
same_order m = m

same_order-Iterates : Iterates same_order
same_order-Iterates m u = (u, λ k. refl)

abbrev alice_tokens : List Types.Token
alice_tokens = token_of "EUR" "16" ∷ token_of "USD" "5" ∷ token_of "EUR" "4" ∷ []

balances-Reports_example :
    Reports alice_tokens (balances demo same_order "alice" none []).0
    × ((balances demo same_order "alice" none []).1 ≡ [])
balances-Reports_example =
    balances-Reports same_order same_order-Iterates demo "alice" none [] refl refl refl

get_transactions_reads_example :
    get_transactions demo "alice" []
    ≡ (ok (record_1 ∷ [], some (Error.message "lost")), Call.close_items ∷ [])
get_transactions_reads_example = get_transactions_reads demo "alice" [] refl refl refl refl

assert_tokens-Decides_example :
    Decides demo tx_1
      ((demo.token_db [] tx_1 ≡ ok tt) × AreKept demo tx_1 "alice" [] (output_1 ∷ []))
      []
      (assert_tokens demo tx_1 (output_1 ∷ []) "alice" [])
assert_tokens-Decides_example = assert_tokens-Decides demo tx_1 (output_1 ∷ []) "alice" []

to_deadline_iff_example :
    (to_deadline (pos 60) ≡ some (pos 60_000_000_000))
    ↔ ((pos 1 ≤ℤ pos 60) × (pos 60 ≤ℤ pos 9_223_372_036) × (pos 60_000_000_000 ≡ pos (60 * second)))
to_deadline_iff_example = to_deadline_iff (pos 60) (pos 60_000_000_000)

-- A platform that cannot read the outputs of a transaction that is ordered.
abbrev outputs_after : List Call → Outcome (List Types.Output)
outputs_after (Call.order t ∷ h) = err (Error.message "unavailable")
outputs_after _ = ok (output_1 ∷ [])

abbrev lossy : Platform
lossy = record demo { outputs = λ h tx. outputs_after h }

abbrev pub lock_1 : LockOptions
lock_1 = record {
  tms_id = none;
  wallet = "alice";
  token_type = "EUR";
  quantity = 16;
  recipient = "bob";
  recipient_node = "";
  hash = [];
  reclamation_deadline = pos 60_000_000_000;
}

lock_call_lost_example :
    (lock_call lossy lock_1 []).0
    ≡ err (Error.wrap "failed getting outputs" (Error.message "unavailable"))
unfolding lock_call prepare_lock lock_receipt
lock_call_lost_example =
    lock_call_lost lossy lock_1 [] _ tx_1 (Error.message "unavailable") refl refl refl

accept_cash_call-Accepts_example : Accepts demo_accepting [] (accept_cash_call demo_accepting [])
accept_cash_call-Accepts_example = accept_cash_call-Accepts demo_accepting []

-- The view returns here.
accept_returns : (accept_cash_call demo_accepting []).0 ≡ ok tt
unfolding accept_cash_call assert_tokens
accept_returns = refl

abbrev issue_1 : Views.IssueCash
issue_1 = record {
  tms_id = none;
  anonymous = true;
  auditor = "";
  issuer_wallet = "issuer";
  token_type = "EUR";
  quantity = 16;
  recipient = "alice";
  recipient_wallet_id = "";
  recipient_eid = "alice";
  skip_auditor_signature_verification = false;
}

abbrev redeem_1 : Views.Redeem
redeem_1 = record {
  auditor = "auditor";
  issuer = "";
  issuer_public_params_public_key = "";
  wallet = "alice";
  token_ids = [];
  token_type = "EUR";
  amount = 16;
  tms_id = none;
}

-- Two TMSs, of which one is settled on an EVM chain.
abbrev config_of : String → Bool → Config
config_of network evm = record {
  id = record { network = network; channel = "ch"; namespace = "ns" };
  is_evm = evm;
  public_parameters_path = "pp.bin";
}

abbrev pub configs_1 : List Config
configs_1 = config_of "evm" true ∷ config_of "default" false ∷ []

abbrev pub services : Services
services = record {
  deployer = λ h. ok tt;
  config_service = λ h. ok tt;
  configurations = λ h. ok configs_1;
  translate_path = λ c path. path;
  read_file = λ h path. ok "params";
  deploy = λ h id pp. ok tt;
}
