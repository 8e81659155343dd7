-- ===== src/Endorser/Client/Submissions.antt =====
-- When the client hands a transaction to the ordering service.
use fabric_x_samples.Prelude.{
  ℕ, suc, String, List, [], ◌∷◌, ◌≡◌, ◌⊎◌, ◌≤◌, ◌<◌, ◌==◌, if◌then◌else◌, arith,
}
use fabric_x_samples.Go.{Outcome, ok, err, panic}
use fabric_x_samples.Endorser.Types.{ProposalResponse, Call, Platform}
use fabric_x_samples.Endorser.Client.{
  Command, Config, TxInput, namespace_or_default, invoke, query, submit_responses, answer_query,
  load_identity, build_endorsement_client, new_submitter, prepare, load_config, parse_tx_args,
}

-- The arguments of an input: the function's name in front of them, if there is one.
abbrev pub arguments : TxInput → List String
arguments tx = if tx.function == "" then tx.args else tx.function ∷ tx.args

-- The namespace and the arguments are those of the command: `--namespace` if it is given, else the
-- configured one; and the function's name, if there is one, in front of its arguments.
abbrev pub RequestedBy : Command → Outcome Config → Outcome TxInput → String → List String → Type 0
RequestedBy cmd (ok cfg) (ok tx) namespace args =
    (namespace ≡ (if cmd.flag_namespace == "" then cfg.namespace else cmd.flag_namespace))
    × (args ≡ arguments tx)
RequestedBy cmd (ok cfg) (err e) namespace args = ⊥
RequestedBy cmd (ok cfg) (panic why) namespace args = ⊥
RequestedBy cmd (err e) tx namespace args = ⊥
RequestedBy cmd (panic why) tx namespace args = ⊥

abbrev pub Requested : Command → String → List String → Type 0
Requested cmd = RequestedBy cmd cmd.unmarshal_config cmd.unmarshal_tx

module _ (P : Platform) where
  -- The first response is a success of the endorser.
  abbrev Succeeds : Outcome (List ProposalResponse) → Type 0
  Succeeds (ok (resp ∷ rest)) = (200 ≤ resp.status) × (resp.status < 400)
  Succeeds (ok []) = ⊥
  Succeeds (err e) = ⊥
  Succeeds (panic why) = ⊥

  -- This text is the payload of the first response, which is a success.
  abbrev pub Printed : String → Outcome (List ProposalResponse) → Type 0
  Printed text (ok (resp ∷ rest)) =
      (200 ≤ resp.status) × (resp.status < 400) × (text ≡ resp.payload)
  Printed text (ok []) = ⊥
  Printed text (err e) = ⊥
  Printed text (panic why) = ⊥

  -- The newest call executed a transaction, and its first response is a success.
  abbrev Approved : List Call → Type 0
  Approved (Call.execute_transaction namespace version args ∷ h) =
      Succeeds (P.execute_transaction h namespace version args)
  Approved _ = ⊥

  abbrev Allows : Call → List Call → Type 0
  Allows Call.submit h = Approved h
  Allows _ h = Unit

  -- Every submission follows directly on an endorsement that succeeded.
  abbrev pub IsApproved : List Call → Type 0
  IsApproved [] = Unit
  IsApproved (c ∷ h) = Allows c h × IsApproved h

  -- How many transactions were submitted.
  abbrev pub submissions : List Call → ℕ
  submissions [] = 0
  submissions (Call.submit ∷ h) = suc (submissions h)
  submissions (_ ∷ h) = submissions h

  -- Whatever `invoke` does, it submits only directly behind an endorsement whose first response has a
  -- status from 200 to 399.
  pub invoke-IsApproved :
      (cmd : Command) (h : List Call) → IsApproved h → IsApproved (invoke P cmd h).1
  unfolding invoke load_identity build_endorsement_client new_submitter submit_responses prepare
      load_config parse_tx_args
  invoke-IsApproved cmd h before = ground arith

  -- `query` submits nothing, however it ends.
  pub query-submissions :
      (cmd : Command) (h : List Call) → submissions (query P cmd h).1 ≡ submissions h
  unfolding query load_identity build_endorsement_client answer_query prepare load_config
      parse_tx_args
  query-submissions cmd h = ground arith

  -- The history of an `invoke` without an error, newest first.
  abbrev pub Submitted : Command → List Call → List Call → Type 0
  Submitted cmd h
        (Call.close_client
          ∷ Call.close_submitter
          ∷ Call.print text
          ∷ Call.submit
          ∷ Call.execute_transaction namespace version args
          ∷ h') =
      (h' ≡ h)
      × Requested cmd namespace args
      × (version ≡ "1.0")
      × Printed text (P.execute_transaction h namespace version args)
      × (P.submit (Call.execute_transaction namespace version args ∷ h) ≡ ok tt)
  Submitted cmd h _ = ⊥

  abbrev pub Invoked : Command → List Call → Outcome (Unit {0}) × List Call → Type 0
  Invoked cmd h (ok u, h') = Submitted cmd h h'
  Invoked cmd h (err e, h') = Unit
  Invoked cmd h (panic why, h') = Unit

  -- An `invoke` that ends without an error has executed the transaction of the command, submitted it to the ordering
  -- service without an error, printed the payload of the first response, which is a success, and
  -- closed the submitter and then the client.
  pub invoke-Invoked : (cmd : Command) (h : List Call) → Invoked cmd h (invoke P cmd h)
  unfolding invoke load_identity build_endorsement_client new_submitter submit_responses prepare
      load_config parse_tx_args namespace_or_default
  invoke-Invoked cmd h = ground arith

  -- There is no response.
  abbrev Silent : Outcome (List ProposalResponse) → Type 0
  Silent (ok []) = Unit
  Silent (ok (resp ∷ rest)) = ⊥
  Silent (err e) = ⊥
  Silent (panic why) = ⊥

  -- The history of a `query` without an error, newest first.
  abbrev pub Shows : Command → List Call → List Call → Type 0
  Shows cmd h
        (Call.close_client
          ∷ Call.print text
          ∷ Call.execute_transaction namespace version args
          ∷ h') =
      (h' ≡ h)
      × Requested cmd namespace args
      × (version ≡ "1.0")
      × Printed text (P.execute_transaction h namespace version args)
  Shows cmd h (Call.close_client ∷ Call.execute_transaction namespace version args ∷ h') =
      (h' ≡ h)
      × Requested cmd namespace args
      × (version ≡ "1.0")
      × Silent (P.execute_transaction h namespace version args)
  Shows cmd h _ = ⊥

  -- The history of a `query` that fails with its transaction.
  abbrev Failed : Command → List Call → List Call → Type 0
  Failed cmd h (Call.close_client ∷ Call.execute_transaction namespace version args ∷ h') =
      (h' ≡ h)
      × Requested cmd namespace args
      × ¬ Succeeds (P.execute_transaction h namespace version args)
  Failed cmd h h' = h' ≡ h

  abbrev pub Queried : Command → List Call → Outcome (Unit {0}) × List Call → Type 0
  Queried cmd h (ok u, h') = Shows cmd h h'
  Queried cmd h (err e, h') = (h' ≡ h) ⊎ Failed cmd h h'
  Queried cmd h (panic why, h') = (h' ≡ h) ⊎ Failed cmd h h'

  -- `query` submits nothing. If it ends without an error, it has executed the transaction of the command, in
  -- the namespace of its flag, else the configured one, and with the function's name, if there is one, before its
  -- arguments, printed the payload of the first response, which is a success, or nothing if there is no response, and
  -- closed the client. Else it has made no call, or it has executed the transaction without a
  -- first response that is a success, printed nothing and closed the client.
  pub query-Queried : (cmd : Command) (h : List Call) → Queried cmd h (query P cmd h)
  unfolding query load_identity build_endorsement_client answer_query prepare load_config
      parse_tx_args namespace_or_default
  query-Queried cmd h = ground arith
