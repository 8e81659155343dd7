-- ===== src/Endorser/Executor.antt =====
-- custom-endorser/cmd/endorser/executor.go: a getter and a setter on the simulation store.
pub mod Accesses
use fabric_x_samples.Prelude.{ℕ, String, Bool, true, List, [], ◌∷◌, ◌<>◌, ◌==◌, if◌then◌else◌}
use fabric_x_samples.Go.{Error, ok, Go, pure, ask, peek, wrapping, ◌>>=◌, ◌>>◌}
use fabric_x_samples.Endorser.Types.{
  Invocation, ExecutionResult, success, bad_request, Call, Platform,
}

-- service.StoreFactory: the store of a namespace at a block; its methods are those of the platform.
abbrev pub StoreFactory : Type 0
StoreFactory = ℕ → Go Call (Unit {0})

-- service.Executor
abbrev pub Executor : Type 0
Executor = StoreFactory → Invocation → Go Call ExecutionResult

module _ (P : Platform) where
  -- `get [key]`, on the arguments behind the function's name.
  unfoldable pub execute_get : List String → Go Call ExecutionResult
  execute_get [] = pure (bad_request "usage: get [key]")
  execute_get (key ∷ rest) = do
    res ← wrapping "db" (ask (Call.get_state key) (λ h. P.get_state h key))
    rw_set ← peek (λ h. ok (P.result h))
    pure (success rw_set res)

  -- `set [key] [value]`
  unfoldable pub execute_set : List String → Go Call ExecutionResult
  execute_set [] = pure (bad_request "usage: set [key] [value]")
  execute_set (key ∷ []) = pure (bad_request "usage: set [key] [value]")
  execute_set (key ∷ value ∷ rest) = do
    wrapping "db" (ask (Call.put_state key value) (λ h. P.put_state h key value))
    rw_set ← peek (λ h. ok (P.result h))
    pure (success rw_set (key <> "=" <> value))

  -- The switch on the first argument.
  unfoldable pub execute_function : List String → Go Call ExecutionResult
  unfolding execute_get execute_set
  execute_function [] = pure (bad_request "no function specified")
  execute_function (function ∷ args) =
      if function == "get"
      then execute_get args
      else if function == "set"
      then execute_set args
      else pure (bad_request "usage: get [key] || set [key] [value]")

  -- `SampleExecutor.Execute`
  unfoldable pub execute : Executor
  unfolding execute_function
  execute new_store inv = do wrapping "simulation store" (new_store 0); execute_function inv.args
