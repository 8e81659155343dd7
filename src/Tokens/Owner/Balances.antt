-- ===== src/Tokens/Owner/Balances.antt =====
-- tokens/owner/service/fsc.go: the balances of a wallet, summed by token type, and the balance of
-- one type. Go gives the entries of a map in any order: `iterate` is that order.
pub mod Sums
pub mod Answers
use fabric_x_samples.Prelude.{
  ℕ, String, ◌+◌, ◌%◌, ◌^◌, Option, none, some, List, [], ◌∷◌, ◌<>◌, ◌==◌, map, lookup, insert,
  if◌then◌else◌,
}
use fabric_x_samples.Go.{
  Error, Outcome, ok, err, Go, pure, throw, peek, on_error, wrapping, ◌>>=◌, ◌>>◌,
}
use fabric_x_samples.Tokens.Types.{Token, TmsId, Call}
use fabric_x_samples.Tokens.Platform.{Platform}
use fabric_x_samples.Tokens.Calls.{get_management_service}
use fabric_x_samples.Tokens.Common.Options.{service_opts}
use fabric_x_samples.Tokens.Owner.ParseUint.{parse_uint}
use fabric_x_samples.Tokens.Owner.Types.{err_wallet_not_found, err_balance}

pub record Amount : Type 0 where
  pub code : String
  pub value : ℕ

abbrev pub AmountMap : Type 0
AmountMap = List (String × ℕ)

abbrev pub or_zero : Option ℕ → ℕ
or_zero none = 0
or_zero (some n) = n

-- `amMap[code] += val`, in uint64
abbrev pub add_amount : String → ℕ → AmountMap → AmountMap
add_amount code val m = insert code ((or_zero (lookup code m) + val) % 2 ^ 64) m

abbrev pub parse_failure : String → Error
parse_failure s = Error.message ("strconv.ParseUint: parsing " <> s)

-- The loop over the unspent tokens.
abbrev pub add_parsed :
    (AmountMap → Outcome AmountMap) → Token → Option ℕ → AmountMap → Outcome AmountMap
add_parsed more t none m = err (Error.cause err_balance (parse_failure t.quantity))
add_parsed more t (some val) m = more (add_amount t.token_type val m)

unfoldable pub sum_tokens : List Token → AmountMap → Outcome AmountMap
sum_tokens [] m = ok m
sum_tokens (t ∷ tokens) m = add_parsed (sum_tokens tokens) t (parse_uint t.quantity) m

abbrev pub to_amount : String × ℕ → Amount
to_amount (code, value) = record { code = code; value = value }

module _ (P : Platform) where
  -- `FabricSmartClient.Balances`
  unfoldable pub balances : (AmountMap → AmountMap) → String → Option TmsId → Go Call (List Amount)
  balances iterate wallet tms_id = do
    wrapping "failed to get token management service"
        (get_management_service P (service_opts tms_id []))
    wal ←
        on_error (λ e. throw (Error.cause err_wallet_not_found e))
          (peek (λ h. P.owner_wallet h wallet (service_opts tms_id [])))
    tokens ← on_error (λ e. throw (Error.cause err_balance e)) (peek (λ h. P.unspent_tokens h wal))
    sums ← peek (λ _. sum_tokens tokens [])
    pure (map to_amount (iterate sums))

  -- `FabricSmartClient.Balance`
  unfoldable pub balance : String → String → Option TmsId → Go Call Amount
  balance wallet code tms_id = do
    wrapping "failed to get token management service"
        (get_management_service P (service_opts tms_id []))
    wal ←
        on_error (λ e. throw (Error.cause err_wallet_not_found e))
          (peek (λ h. P.owner_wallet h wallet (service_opts tms_id [])))
    val ← on_error (λ e. throw (Error.cause err_balance e)) (peek (λ h. P.balance h wal code))
    pure (record { code = code; value = val % 2 ^ 64 })
