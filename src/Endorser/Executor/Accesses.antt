-- ===== src/Endorser/Executor/Accesses.antt =====
-- What the executor does to the store and what it answers, by the arguments of the invocation.
use fabric_x_samples.Prelude.{
  String, Bool, true, false, List, [], ◌∷◌, ◌++◌, ◌<>◌, ◌==◌, ◌≡◌, eq_iff, arith,
}
use fabric_x_samples.Go.{Outcome, ok, err, panic, Error}
use fabric_x_samples.Endorser.Types.{ExecutionResult, success, bad_request, Call, Platform}
use fabric_x_samples.Endorser.Executor.{execute_function, execute_get, execute_set}

-- The accesses that the arguments ask for: one read, one write, or none.
abbrev accesses_of : Bool → Bool → List String → List Call
accesses_of true set (key ∷ rest) = Call.get_state key ∷ []
accesses_of true set [] = []
accesses_of false true (key ∷ value ∷ rest) = Call.put_state key value ∷ []
accesses_of false true (key ∷ []) = []
accesses_of false true [] = []
accesses_of false false args = []

abbrev pub accesses : List String → List Call
accesses [] = []
accesses (function ∷ args) = accesses_of (function == "get") (function == "set") args

module _ (P : Platform) (h : List Call) where
  -- What the store returned on the access, as the payload of the answer.
  abbrev Returns : List Call → String → Type 0
  Returns (Call.get_state key ∷ []) payload = P.get_state h key ≡ ok payload
  Returns (Call.put_state key value ∷ []) payload =
      (P.put_state h key value ≡ ok tt) × (payload ≡ key <> "=" <> value)
  Returns _ payload = ⊥

  abbrev Fails : List Call → Outcome (Unit {0}) → Type 0
  Fails (Call.get_state key ∷ []) (err e) = P.get_state h key ≡ err e
  Fails (Call.put_state key value ∷ []) (err e) = P.put_state h key value ≡ err e
  Fails (Call.get_state key ∷ []) (panic why) = P.get_state h key ≡ panic why
  Fails (Call.put_state key value ∷ []) (panic why) = P.put_state h key value ≡ panic why
  Fails _ _ = ⊥

  -- A success has the payload of the one access and the read-write set behind it; a bad request has
  -- accessed nothing; an error is that of the access, wrapped.
  abbrev pub Executed : List Call → Outcome ExecutionResult × List Call → Type 0
  Executed wanted (ok (success rw_set payload), h') =
      Returns wanted payload × (h' ≡ wanted ++ h) × (rw_set ≡ P.result h')
  Executed wanted (ok (bad_request message), h') = (wanted ≡ []) × (h' ≡ h)
  Executed wanted (err e, h') =
      (cause : Error) × (Fails wanted (err cause)
        × (h' ≡ wanted ++ h)
        × (e ≡ Error.wrap "db" cause))
  Executed wanted (panic why, h') = Fails wanted (panic why) × (h' ≡ wanted ++ h)

  -- The executor accesses the store exactly as the arguments ask: `get` with a key reads it, `set`
  -- with a key and a value writes it, and anything else is a bad request without an access. A success
  -- carries what was read or written and the read-write set; an error is that of the access.
  pub execute_function-Executed :
      (args : List String) → Executed (accesses args) (execute_function P args h)
  unfolding execute_function execute_get execute_set
  execute_function-Executed [] = ground arith
  execute_function-Executed (function ∷ args) =
      ground (arith, eq_iff function "get", eq_iff function "set")
