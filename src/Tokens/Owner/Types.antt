-- ===== src/Tokens/Owner/Types.antt =====
-- tokens/owner/service: the errors that the REST layer may tell apart, and what a view returns.
use fabric_x_samples.Prelude.{String}
use fabric_x_samples.Go.{Error, Go, pure, throw}
use fabric_x_samples.Tokens.Types.{Bytes, Call}

abbrev pub err_counterparty_account_not_found : Error
err_counterparty_account_not_found = Error.message "counterparty account not found"

abbrev pub err_insufficient_funds : Error
err_insufficient_funds = Error.message "insufficient funds"

abbrev pub err_connection_error : Error
err_connection_error = Error.message "could not connect to counterparty"

abbrev pub err_wallet_not_found : Error
err_wallet_not_found = Error.message "wallet not found"

abbrev pub err_balance : Error
err_balance = Error.message "error getting balance"

-- `LockResult`
pub record LockResult : Type 0 where
  pub tx_id : String
  pub pre_image : Bytes
  pub hash : Bytes

-- The dynamic value of the `interface{}` that a view's `Call` returns.
pub data Value : Type 0 where
  nothing : Value
  string : String → Value
  locked : LockResult → Value

-- `res.(string)`, with the error that the code returns when it fails.
abbrev pub as_string : String → Value → Go Call String
as_string failure (Value.string s) = pure s
as_string failure Value.nothing = throw (Error.message failure)
as_string failure (Value.locked r) = throw (Error.message failure)

-- `res.(*LockResult)`
abbrev pub as_lock_result : String → Value → Go Call LockResult
as_lock_result failure (Value.locked r) = pure r
as_lock_result failure (Value.string s) = throw (Error.message failure)
as_lock_result failure Value.nothing = throw (Error.message failure)
