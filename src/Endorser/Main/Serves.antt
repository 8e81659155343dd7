-- ===== src/Endorser/Main/Serves.antt =====
-- The program end to end: what a service that it has started does for a proposal, from the
-- configuration to the accesses of the simulation store and the endorsement of the result.
use fabric_x_samples.Prelude.{
  String, Bool, true, false, none, some, List, [], ◌∷◌, ◌==◌, ◌≡◌, refl, sym, subst, ◌∙◌,
  Bool-cases, inl, inr, lookup, eq_iff, if◌then◌else◌,
}
use mathlib.Core.Option.{some-injective, none-ne-some}
use fabric_x_samples.Go.{Outcome, ok, err, panic, wrapping, ◌>>◌}
use fabric_x_samples.Endorser.Config.{Config}
use fabric_x_samples.Endorser.Executor.{Executor, execute, execute_function}
use fabric_x_samples.Endorser.Executor.Accesses.{accesses, Executed, execute_function-Executed}
use fabric_x_samples.Endorser.Service.{Service, process_proposal, store_factory}
use fabric_x_samples.Endorser.Service.Proposals.{versioned, Answers, process_proposal-Answers}
use fabric_x_samples.Endorser.Types.{
  Invocation, ExecutionResult, ProposalResponse, Network, Call, Platform,
}
use fabric_x_samples.Endorser.Main.{Command, start}
use fabric_x_samples.Endorser.Main.Starts.{NamesNetwork, Starts, start-Starts}

module _ (P : Platform) (h : List Call) where
  -- The calls up to the opening of the simulation store on the current state of the namespace.
  abbrev pub opened : String → Bool → List Call
  opened namespace monotonic = Call.new_store namespace 0 monotonic ∷ h

  -- The store of this namespace was opened, and then accessed as the arguments ask.
  abbrev Simulates : Bool → String → List String → Outcome ExecutionResult × List Call → Type 0
  Simulates monotonic namespace args (ok result, g) =
      (P.new_store h namespace 0 monotonic ≡ ok tt)
      × Executed P (opened namespace monotonic) (accesses args) (ok result, g)
  Simulates monotonic namespace args (err e, g) = Unit
  Simulates monotonic namespace args (panic why, g) = Unit

  opened-Simulates :
      (monotonic : Bool) (namespace : String) (args : List String)
      → P.new_store h namespace 0 monotonic ≡ ok tt
      → (r : Outcome ExecutionResult × List Call)
      → Executed P (opened namespace monotonic) (accesses args) r
      → Simulates monotonic namespace args r
  opened-Simulates monotonic namespace args done (ok result, g) executed = (done, executed)
  opened-Simulates monotonic namespace args done (err e, g) executed = tt
  opened-Simulates monotonic namespace args done (panic why, g) executed = tt

  execute-Simulates :
      (s : Service) (namespace : String) (inv : Invocation)
      → Simulates s.monotonic_versions namespace inv.args
          (execute P (store_factory P s namespace) inv h)
  unfolding execute
  execute-Simulates s namespace inv = by_store (P.new_store h namespace 0 s.monotonic_versions) refl
    where
      by_store :
          (r : Outcome (Unit {0}))
          → P.new_store h namespace 0 s.monotonic_versions ≡ r
          → Simulates s.monotonic_versions namespace inv.args (
              (wrapping "simulation store"
                    (λ (g : List Call). (r, Call.new_store namespace 0 s.monotonic_versions ∷ g))
                  >> execute_function P inv.args)
                h)
      by_store (ok u) e =
          opened-Simulates s.monotonic_versions namespace inv.args e _
            (execute_function-Executed P (opened namespace s.monotonic_versions) inv.args)
      by_store (err x) e = tt
      by_store (panic why) e = tt

  -- Filling in the version changes neither the namespace nor the arguments.
  versioned-keeps :
      (inv : Invocation)
      → ((versioned inv).cc_name ≡ inv.cc_name) × ((versioned inv).args ≡ inv.args)
  versioned-keeps inv = elim (Bool-cases (inv.cc_version == "")) [
    | inl e ↦ rw e (refl, refl)
    | inr e ↦ rw e (refl, refl)
  ]

  only_sample :
      (name : String) (executor : Executor)
      → lookup name (("mynamespace", execute P) ∷ []) ≡ some executor
      → (name ≡ "mynamespace") × (execute P ≡ executor)
  only_sample name executor found = by_test ("mynamespace" == name) refl found
    where
      by_test :
          (b : Bool)
          → ("mynamespace" == name) ≡ b
          → (if b then some (execute P) else none) ≡ some executor
          → (name ≡ "mynamespace") × (execute P ≡ executor)
      by_test true same found = (sym ((eq_iff "mynamespace" name).0 same), some-injective _ _ found)
      by_test false other found = absurd (none-ne-some _ found)

  -- The invocation is for the channel and the one namespace of the program. It was simulated, and the
  -- builder of the network of the service endorsed the result, by the last call.
  abbrev pub Serves :
      Config → Service → Outcome Invocation → Outcome ProposalResponse × List Call → Type 0
  Serves cfg s parsed (ok response, h') =
      (inv : Invocation) × (network : Network) × (result : ExecutionResult) × (g : List Call)
      × ((parsed ≡ ok inv)
          × (inv.channel ≡ cfg.channel_id)
          × (inv.cc_name ≡ "mynamespace")
          × NamesNetwork P cfg s
          × (s.builder ≡ some network)
          × Simulates s.monotonic_versions "mynamespace" inv.args (ok result, g)
          × (P.endorse g network (versioned inv) result ≡ ok response)
          × (h' ≡ Call.endorse network (versioned inv) result ∷ g))
  Serves cfg s parsed (err e, h') = Unit
  Serves cfg s parsed (panic why, h') = Unit

  Answers-Serves :
      (cfg : Config) (s : Service) (parsed : Outcome Invocation)
      → s.channel ≡ cfg.channel_id
      → s.executors ≡ ("mynamespace", execute P) ∷ []
      → NamesNetwork P cfg s
      → (r : Outcome ProposalResponse × List Call) → Answers P s h parsed r
      → Serves cfg s parsed r
  Answers-Serves cfg s parsed same sample names (ok response, h')
        (
          inv,
          is_inv,
          (for_channel, executor, registered, network, built, result, g, runs, endorsed, last),
        ) =
      let (named, ours) =
        only_sample inv.cc_name executor
          (subst (λ es. lookup inv.cc_name es ≡ some executor) sample registered) in
      let ran =
        subst
          (λ (e : Executor).
            e (store_factory P s (versioned inv).cc_name) (versioned inv) h ≡ (ok result, g))
          (sym ours) runs in
      let (same_name, same_args) = versioned-keeps inv in
      let simulated =
        subst (λ args. Simulates s.monotonic_versions "mynamespace" args (ok result, g)) same_args
          (subst (λ name. Simulates s.monotonic_versions name (versioned inv).args (ok result, g))
            (same_name ∙ named)
            (subst (Simulates s.monotonic_versions (versioned inv).cc_name (versioned inv).args) ran
              (execute-Simulates s (versioned inv).cc_name (versioned inv)))) in
      (
        inv,
        network,
        result,
        g,
        (is_inv, for_channel ∙ same, named, names, built, simulated, endorsed, last),
      )
  Answers-Serves cfg s parsed same sample names (err e, h') a = tt
  Answers-Serves cfg s parsed same sample names (panic why, h') a = tt

  -- A proposal that is answered by a service which the program has started from a configuration is an
  -- invocation for the configured channel and for "mynamespace". The simulation store was opened on the
  -- current state, accessed exactly as the arguments ask, and the builder of the network that the
  -- configured protocol names, Fabric-X if it names none, endorsed the result, by the last call.
  pub start-process_proposal :
      (cmd : Command) (cfg : Config) (before after : List Call) (s : Service)
      → cmd.unmarshal_config ≡ ok cfg
      → start P cmd before ≡ (ok s, after)
      → (parsed : Outcome Invocation) → Serves cfg s parsed (process_proposal P s parsed h)
  start-process_proposal cmd cfg before after s unmarshalled started parsed =
      let starts : Starts P cfg (ok s, after) =
        subst (Starts P cfg) started (start-Starts P cmd cfg before unmarshalled) in
      Answers-Serves cfg s parsed starts.0 starts.1 starts.3 _
        (process_proposal-Answers P s h parsed)
