-- ===== src/Tests/Demo.antt =====
-- A platform of the token SDK on which every call succeeds, and what it works on.
use fabric_x_samples.Prelude.{String, true, false, none, some, List, [], ◌∷◌}
use fabric_x_samples.Go.{Error, ok}
use fabric_x_samples.Tokens.Types.{
  Transaction, TxStatus, pending, confirmed, TransactionRecord, item, failed, Call,
}
use fabric_x_samples.Tokens.Types
use fabric_x_samples.Tokens.Platform.{Platform}

abbrev pub tx_1 : Transaction
tx_1 = record { id = "tx1" }

abbrev pub token_of : String → String → Types.Token
token_of type quantity = record { id = "token"; token_type = type; quantity = quantity }

abbrev pub output_1 : Types.Output
output_1 = record { owner = "alice"; token_type = "EUR"; quantity_hex = "0x10" }

abbrev pub script_1 : Types.Script
script_1 = record { sender = "alice"; recipient = "bob"; hash = 1 ∷ 2 ∷ [] }

abbrev pub record_1 : TransactionRecord
record_1 = record {
  tx_id = "tx1";
  token_type = "EUR";
  amount = 16;
  sender_eid = "alice";
  recipient_eid = "bob";
  status = confirmed;
  timestamp = 0;
  application_metadata = [];
}

-- The status of a transaction changes when it is ordered.
abbrev pub status_after : List Call → TxStatus
status_after (Call.order t ∷ h) = confirmed
status_after _ = pending

-- A platform on which every call succeeds.
abbrev pub demo : Platform
demo = record {
  text = λ e. "token not found";
  get_manager = λ h. ok tt;
  new_context = λ h. ok tt;
  recovered = λ why. some (Error.message why);
  get_id_provider = λ h. ok tt;
  identity_of = λ s. s;
  default_identity = "node";
  is_none = λ i. false;
  get_management_service = λ h opts. ok tt;
  issuers = λ h opts. "issuer" ∷ [];
  enrollment_id = λ h i. ok "alice";
  get_wallet = λ h w opts. some w;
  my_issuer_wallet = λ h opts. some "issuer";
  get_issuer_wallet = λ h w opts. some w;
  wallet_identity = λ h w. ok w;
  owner_wallet = λ h w opts. ok w;
  unspent_tokens = λ h w. ok (token_of "EUR" "16" ∷ token_of "USD" "5" ∷ token_of "EUR" "4" ∷ []);
  balance = λ h w code. ok 20;
  by_pre_image = λ h w bytes. ok (token_of "EUR" "16" ∷ []);
  expired_by_hash = λ h w bytes. ok (token_of "EUR" "16");
  bind = λ h node name. ok tt;
  request_recipient_identity = λ h name opts. ok name;
  respond_recipient_identity = λ h w. ok "alice";
  exchange_recipient_identities = λ h w name opts. ok (w, name);
  respond_exchange_recipient_identities = λ h. ok ("bob", "alice");
  receive_transaction = λ h. ok tx_1;
  new_transaction = λ h anonymous opts. ok tx_1;
  new_htlc_transaction = λ h opts. ok tx_1;
  transfer = λ h tx w type values owners. ok tt;
  issue = λ h tx w i type q. ok tt;
  redeem = λ h tx w type q opts. ok tt;
  lock = λ h tx w i type q j deadline hash. ok (7 ∷ []);
  claim = λ h tx w tok bytes. ok tt;
  reclaim = λ h tx w tok. ok tt;
  collect_endorsements = λ h tx opts. ok tt;
  order = λ h tx. ok tt;
  endorse = λ h tx. ok tt;
  accept = λ h tx. ok tt;
  await_finality = λ h tx. ok tt;
  status = λ h tx. ok (status_after h);
  outputs = λ h tx. ok (output_1 ∷ []);
  by_script = λ outs. outs;
  by_recipient = λ i outs. outs;
  script_at = λ outs n. some script_1;
  script_valid = λ h s. ok tt;
  token_db = λ h tx. ok tt;
  is_me = λ h tx i. ok true;
  db_tokens = λ h tx out. ok (token_of "EUR" "0x10" ∷ []);
  new_owner = λ h. true;
  offset_page = ok tt;
  transactions = λ h params. ok (some (item record_1 ∷ failed (Error.message "lost") ∷ []));
  wrapped_nil = λ text. none;
  status_message = λ s. "Confirmed";
}

-- A platform on which finality, too, confirms a transaction.
abbrev pub finality_after : List Call → TxStatus
finality_after (Call.await_finality t ∷ h) = confirmed
finality_after _ = pending

abbrev pub demo_accepting : Platform
demo_accepting = record demo { status = λ h tx. ok (finality_after h) }
