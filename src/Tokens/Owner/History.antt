-- ===== src/Tokens/Owner/History.antt =====
-- tokens/owner/service/fsc.go: the transactions of a wallet, read from an iterator.
use fabric_x_samples.Prelude.{
  String, true, Option, none, some, List, [], ◌∷◌, ◌++◌, ◌≡◌, ◌∙◌, arith,
}
use mathlib.Core.List.{append_assoc, append-nil}
use fabric_x_samples.Go.{Error, ok, Go, pure, throw, peek, guard, wrapping, ◌>>=◌, ◌>>◌}
use fabric_x_samples.Tokens.Types.{
  QueryTransactionsParams, TransactionRecord, NextItem, item, failed, pending, confirmed, Call,
}
use fabric_x_samples.Tokens.Platform.{Platform}
use fabric_x_samples.Tokens.Calls.{get_management_service, close_items}

-- The records and the error that the function returns together.
abbrev pub History : Type 0
History = List TransactionRecord × Option Error

-- The loop over the iterator: it stops at the end and at an error, and keeps what it has read.
unfoldable pub drain : List NextItem → List TransactionRecord → History
drain [] txs = (txs, none)
drain (failed e ∷ rest) txs = (txs, some e)
drain (item tx ∷ rest) txs = drain rest (txs ++ (tx ∷ []))

abbrev pub history_params : String → QueryTransactionsParams
history_params wallet = record {
  sender_wallet = wallet;
  recipient_wallet = wallet;
  statuses = confirmed ∷ pending ∷ [];
  exclude_to_self = true;
}

module _ (P : Platform) where
  -- A nil iterator ends the function; any other is closed when the function returns.
  read_history : Option (List NextItem) → Go Call History
  read_history none = pure ([], P.wrapped_nil "failed querying transactions from db")
  read_history (some items) = do let read = drain items []; close_items; pure read

  -- `FabricSmartClient.GetTransactions`
  unfoldable pub get_transactions : String → Go Call History
  unfolding read_history
  get_transactions wallet = do
    wrapping "failed to get token management service" (get_management_service P [])
    owner ← peek (λ h. ok (P.new_owner h))
    guard owner (throw (Error.message "failed to initialize transaction owner"))
    wrapping "failed creating pagination" (peek (λ _. P.offset_page))
    it ←
        wrapping "failed querying transactions from db"
          (peek (λ h. P.transactions h (history_params wallet)))
    read_history it

-- The records before the first error of an iterator, and that error.
abbrev pub leading : List NextItem → List TransactionRecord
leading [] = []
leading (failed e ∷ rest) = []
leading (item tx ∷ rest) = tx ∷ leading rest

abbrev pub first_error : List NextItem → Option Error
first_error [] = none
first_error (failed e ∷ rest) = some e
first_error (item tx ∷ rest) = first_error rest

drain-leading :
    (items : List NextItem) (txs : List TransactionRecord)
    → drain items txs ≡ (txs ++ leading items, first_error items)
unfolding drain
drain-leading [] txs = rw append-nil
drain-leading (failed e ∷ rest) txs = rw append-nil
drain-leading (item tx ∷ rest) txs = drain-leading rest (txs ++ (tx ∷ [])) ∙ rw append_assoc

-- When the services answer and the query yields an iterator, the function returns the records in
-- front of the iterator's first error, together with that error, and closes the iterator once.
pub get_transactions_reads :
    (P : Platform) (wallet : String) (h : List Call) {items : List NextItem}
    → P.get_management_service h [] ≡ ok tt
    → P.new_owner h ≡ true
    → P.offset_page ≡ ok tt
    → P.transactions h (history_params wallet) ≡ ok (some items)
    → get_transactions P wallet h ≡ (ok (leading items, first_error items), Call.close_items ∷ h)
unfolding get_transactions
get_transactions_reads P wallet h {items} managed owned paged queried =
    ground (arith, drain-leading items [])
