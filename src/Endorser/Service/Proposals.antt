-- ===== src/Endorser/Service/Proposals.antt =====
-- What the endorser answers to a proposal, and what it does before.
use fabric_x_samples.Prelude.{
  String, Bool, true, false, Option, none, some, List, [], ◌∷◌, ◌==◌, ◌<>◌, eq_iff, lookup,
  Bool-cases, ◌≡◌, ◌≢◌, refl, ap, ◌∙◌, inl, inr, ◌⊎◌, if◌then◌else◌, arith,
}
use fabric_x_samples.Go.{Error, Outcome, ok, err, panic, on_error, throw, pure, guard, ◌>>=◌, ◌>>◌}
use fabric_x_samples.Endorser.Types.{
  Invocation, ExecutionResult, ProposalResponse, Network, Call, Platform,
}
use fabric_x_samples.Endorser.Executor.{Executor}
use fabric_x_samples.Endorser.Service.{
  Service, process_proposal, run_executor, respond, store_factory, with_version, build, log_first,
  the_executor, invalid_argument,
}

-- The invocation as it is simulated and endorsed: its version is "1.0" if it names none.
abbrev pub versioned : Invocation → Invocation
versioned inv = if inv.cc_version == "" then record inv { cc_version = "1.0" } else inv

module _ (P : Platform) (s : Service) (h : List Call) where
  -- The response is the builder's, for the result of the registered executor.
  abbrev Endorses : Invocation → ProposalResponse → List Call → Type 0
  Endorses inv response h' =
      (inv.channel ≡ s.channel)
      × (executor : Executor) × (lookup inv.cc_name s.executors ≡ some executor)
      × (network : Network) × (s.builder ≡ some network)
      × (result : ExecutionResult) × (g : List Call) × (executor
            (store_factory P s (versioned inv).cc_name) (versioned inv) h
          ≡ (ok result, g))
      × (P.endorse g network (versioned inv) result ≡ ok response)
      × (h' ≡ Call.endorse network (versioned inv) result ∷ g)

  abbrev pub Answers : Outcome Invocation → Outcome ProposalResponse × List Call → Type 0
  Answers parsed (ok response, h') =
      (inv : Invocation) × (parsed ≡ ok inv) × Endorses inv response h'
  Answers parsed (err e, h') = Unit
  Answers parsed (panic why, h') = Unit

  respond-Answers :
      (inv : Invocation) (executor : Executor) (result : ExecutionResult) (g : List Call)
      → inv.channel ≡ s.channel
      → lookup inv.cc_name s.executors ≡ some executor
      → executor (store_factory P s (with_version inv).cc_name) (with_version inv) h
        ≡ (ok result, g)
      → Answers (ok inv) (respond P s (with_version inv) result g)
  unfolding respond
  respond-Answers inv executor result g same_channel registered runs =
      built s.builder refl (with_version inv).args
    where
      logged :
          (network : Network)
          → s.builder ≡ some network
          → (r : Outcome ProposalResponse) → P.endorse g network (with_version inv) result ≡ r
          → (args : List String)
          → Answers (ok inv) (
              (on_error
                    (λ e. throw (Error.wrap "Internal" (Error.wrap "endorsement" e)))
                    (λ (_ : List Call). (r, Call.endorse network (with_version inv) result ∷ g))
                  >>= λ end. log_first P args >> pure end)
                g)
      logged network e (ok response) answered (function ∷ args) = (
        inv,
        refl,
        (same_channel, executor, registered, network, e, result, g, runs, answered, refl),
      )
      logged network e (ok response) answered [] = tt
      logged network e (err x) answered args = tt
      logged network e (panic why) answered args = tt

      built :
          (o : Option Network)
          → s.builder ≡ o
          → (args : List String)
          → Answers (ok inv) (
              (on_error
                    (λ e. throw (Error.wrap "Internal" (Error.wrap "endorsement" e)))
                    (build P o (with_version inv) result)
                  >>= λ end. log_first P args >> pure end)
                g)
      built none e args = tt
      built (some network) e args =
          logged network e (P.endorse g network (with_version inv) result) refl args

  run_executor-Answers :
      (inv : Invocation) (executor : Executor)
      → inv.channel ≡ s.channel
      → lookup inv.cc_name s.executors ≡ some executor
      → Answers (ok inv) (run_executor P s executor (with_version inv) h)
  unfolding run_executor
  run_executor-Answers inv executor same_channel registered =
      ended (executor (store_factory P s (with_version inv).cc_name) (with_version inv) h) refl
    where
      ended :
          (r : Outcome ExecutionResult × List Call)
          → executor (store_factory P s (with_version inv).cc_name) (with_version inv) h ≡ r
          → Answers (ok inv) (
              (on_error (λ e. throw (Error.wrap "Internal" e)) (λ (_ : List Call). r) >>= λ res.
              respond P s (with_version inv) res)
                h)
      ended (ok result, g) e = respond-Answers inv executor result g same_channel registered e
      ended (err x, g) e = tt
      ended (panic why, g) e = tt

  -- A proposal that is answered holds an invocation for the channel of the service. Its namespace has
  -- an executor, which was run on the invocation, with the version "1.0" if it names none, and returned a result;
  -- the answer is what the builder of the network made of that result, by the last call.
  pub process_proposal-Answers :
      (parsed : Outcome Invocation) → Answers parsed (process_proposal P s parsed h)
  unfolding process_proposal
  process_proposal-Answers (ok inv) = on_channel (inv.channel == s.channel) refl
    where
      found :
          inv.channel ≡ s.channel
          → (o : Option Executor) → lookup inv.cc_name s.executors ≡ o
          → Answers (ok inv) (
              (the_executor P inv.cc_name o >>= λ executor.
              run_executor P s executor (with_version inv))
                h)
      found same none e = tt
      found same (some executor) e = run_executor-Answers inv executor same e

      on_channel :
          (b : Bool)
          → (inv.channel == s.channel) ≡ b
          → Answers (ok inv) (
              (guard b (invalid_argument P ("channel must be " <> s.channel))
                  >> (the_executor P inv.cc_name (lookup inv.cc_name s.executors) >>= λ executor.
                      run_executor P s executor (with_version inv)))
                h)
      on_channel true e = found ((eq_iff _ _).0 e) (lookup inv.cc_name s.executors) refl
      on_channel false e = tt
  process_proposal-Answers (err e) = tt
  process_proposal-Answers (panic why) = tt

  -- What a refusal without a call is told: the invocation is for another channel, or nothing is
  -- registered for its namespace.
  abbrev pub Refusal : Invocation → Error → Type 0
  Refusal inv e =
      ((inv.channel ≢ s.channel)
        × (e ≡ Error.status "InvalidArgument" ("channel must be " <> s.channel)))
      ⊎ ((inv.channel ≡ s.channel)
          × (lookup inv.cc_name s.executors ≡ none)
          × (e ≡ Error.status "InvalidArgument" ("unknown namespace: " <> inv.cc_name)))

  -- An invocation for another channel, or for a namespace without an executor, is refused as an
  -- invalid argument that names the channel or the namespace, and no call is made for it.
  pub process_proposal_refuses :
      (inv : Invocation)
      → (inv.channel ≡ s.channel → lookup inv.cc_name s.executors ≡ none)
      → (e : Error) × (Refusal inv e × (process_proposal P s (ok inv) h ≡ (err e, h)))
  unfolding process_proposal
  process_proposal_refuses inv unknown = elim (Bool-cases (inv.channel == s.channel)) [
    | inl same ↦
        let here = (eq_iff inv.channel s.channel).0 same in
        (
          _,
          (
            inr (here, unknown here, refl),
            rw (same, unknown here, process_proposal, the_executor) refl,
          ),
        )
    | inr other ↦ (
      _,
      (
        inl (ground (arith, other, eq_iff inv.channel s.channel), refl),
        rw (other, process_proposal) refl,
      ),
    )
  ]

  run_executor-responds :
      (inv : Invocation) (executor : Executor) (result : ExecutionResult) (g : List Call)
      → executor (store_factory P s inv.cc_name) inv h ≡ (ok result, g)
      → run_executor P s executor inv h ≡ respond P s inv result g
  unfolding run_executor
  run_executor-responds inv executor result g runs =
      ap
        (λ (r : Outcome ExecutionResult × List Call).
          (on_error (λ e. throw (Error.wrap "Internal" e)) (λ (_ : List Call). r) >>= λ res.
          respond P s inv res)
            h)
        runs

  respond_panics :
      (inv : Invocation) (network : Network) (result : ExecutionResult)
      → (response : ProposalResponse) (g : List Call) → s.builder ≡ some network
      → inv.args ≡ []
      → P.endorse g network inv result ≡ ok response
      → (respond P s inv result g).0 ≡ panic "index out of range [0] with length 0"
  unfolding respond
  respond_panics inv network result response g built empty done =
      rw (built, build, done, empty, log_first) refl

  -- A registered executor that returns a result for an invocation without arguments, which the
  -- network's builder endorses, makes the handler panic.
  pub process_proposal_panics :
      (inv : Invocation) (executor : Executor) (network : Network) (result : ExecutionResult)
      → (response : ProposalResponse) (g : List Call) → inv.channel ≡ s.channel
      → lookup inv.cc_name s.executors ≡ some executor
      → s.builder ≡ some network
      → inv.args ≡ []
      → executor (store_factory P s (with_version inv).cc_name) (with_version inv) h
        ≡ (ok result, g)
      → P.endorse g network (with_version inv) result ≡ ok response
      → (process_proposal P s (ok inv) h).0 ≡ panic "index out of range [0] with length 0"
  unfolding process_proposal
  process_proposal_panics inv executor network result response g same registered built empty runs
        done =
      let kept : (with_version inv).args ≡ inv.args = ground arith in
      rw ((eq_iff inv.channel s.channel).1 same, registered, process_proposal, the_executor)
        (ap (λ r. r.0) (run_executor-responds (with_version inv) executor result g runs)
          ∙ respond_panics (with_version inv) network result response g built (kept ∙ empty) done)
