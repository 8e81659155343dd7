-- ===== src/Endorser/EndToEnd.antt =====
-- The client and the endorser together: what a service does for the transaction of a command that the
-- client has invoked.
use fabric_x_samples.Prelude.{String, List, [], ◌∷◌, ◌≡◌, ◌≤◌, ◌<◌, ap, subst, ◌∙◌}
use fabric_x_samples.Go.{Outcome, ok, err, panic}
use fabric_x_samples.Endorser.Config.{Config}
use fabric_x_samples.Endorser.Client as Client
use fabric_x_samples.Endorser.Client.{TxInput, invoke}
use fabric_x_samples.Endorser.Client.Submissions.{
  arguments, RequestedBy, Printed, Submitted, Invoked, invoke-Invoked,
}
use fabric_x_samples.Endorser.Service.{Service, process_proposal}
use fabric_x_samples.Endorser.Types.{Invocation, ProposalResponse, Call, Platform}
use fabric_x_samples.Endorser.Main as Main
use fabric_x_samples.Endorser.Main.{start}
use fabric_x_samples.Endorser.Main.Serves.{Serves, start-process_proposal}

-- The texts that were printed, newest first.
abbrev pub printed : List Call → List String
printed [] = []
printed (Call.print text ∷ h) = text ∷ printed h
printed (_ ∷ h) = printed h

module _ (C E : Platform) (s : Service) where
  -- A proposal with these arguments for this namespace was answered with the response by the service.
  abbrev Responds : String → List String → ProposalResponse → Type 0
  Responds namespace args response =
      (inv : Invocation) × (g : List Call) × (g' : List Call) × ((inv.cc_name ≡ namespace)
        × (inv.args ≡ args)
        × (process_proposal E s (ok inv) g ≡ (ok response, g')))

  -- The first response of an executed transaction is that of the service.
  abbrev pub Delivered : String → List String → Outcome (List ProposalResponse) → Type 0
  Delivered namespace args (ok (response ∷ rest)) = Responds namespace args response
  Delivered namespace args (ok []) = Unit
  Delivered namespace args (err e) = Unit
  Delivered namespace args (panic why) = Unit

  -- The service has simulated and endorsed an invocation with the arguments of the command's
  -- transaction, and the payload of its response is printed.
  abbrev pub Executes : Config → Outcome TxInput → List Call → List Call → Type 0
  Executes cfg (ok tx) h h' =
      (inv : Invocation) × (g : List Call) × (g' : List Call) × (response : ProposalResponse)
      × ((inv.args ≡ arguments tx)
          × Serves E g cfg s (ok inv) (ok response, g')
          × (200 ≤ response.status)
          × (response.status < 400)
          × (printed h' ≡ response.payload ∷ printed h))
  Executes cfg (err e) h h' = ⊥
  Executes cfg (panic why) h h' = ⊥

  module _ (cfg : Config)
      (serves : (parsed : Outcome Invocation) (g : List Call)
        → Serves E g cfg s parsed (process_proposal E s parsed g))
      (cmd : Client.Command) (h h' : List Call) where
    requested-Executes :
        (config : Outcome Client.Config) (tx : Outcome TxInput) (namespace : String)
        → (args : List String) → RequestedBy cmd config tx namespace args
        → (text : String) → printed h' ≡ text ∷ printed h
        → (r : Outcome (List ProposalResponse)) → Printed C text r
        → Delivered namespace args r
        → Executes cfg tx h h'
    requested-Executes (ok config) (ok tx) namespace args (named, as_args) text shown
          (ok (response ∷ rest)) (low, high, payload)
          (inv, g, g', (same_name, same_args, answers)) =
        (
          inv,
          g,
          g',
          response,
          (
            same_args ∙ as_args,
            subst (Serves E g cfg s (ok inv)) answers (serves (ok inv) g),
            low,
            high,
            shown ∙ ap (λ t. t ∷ printed h) payload,
          ),
        )
    requested-Executes (ok config) (ok tx) namespace args asked text shown (ok []) p d = absurd p
    requested-Executes (ok config) (ok tx) namespace args asked text shown (err e) p d = absurd p
    requested-Executes (ok config) (ok tx) namespace args asked text shown (panic why) p d =
        absurd p
    requested-Executes (ok config) (err e) namespace args asked text shown r p d = absurd asked
    requested-Executes (ok config) (panic why) namespace args asked text shown r p d = absurd asked
    requested-Executes (err e) tx namespace args asked text shown r p d = absurd asked
    requested-Executes (panic why) tx namespace args asked text shown r p d = absurd asked

  module _ (cfg : Config)
      (serves : (parsed : Outcome Invocation) (g : List Call)
        → Serves E g cfg s parsed (process_proposal E s parsed g))
      (delivers : (h : List Call) (namespace version : String) (args : List String)
        → Delivered namespace args (C.execute_transaction h namespace version args))
      (cmd : Client.Command) (h : List Call) where
    Submitted-Executes :
        (h' : List Call) → Submitted C cmd h h' → Executes cfg cmd.unmarshal_tx h h'
    Submitted-Executes
          (Call.close_client
            ∷ Call.close_submitter
            ∷ Call.print text
            ∷ Call.submit
            ∷ Call.execute_transaction namespace version args
            ∷ g)
          (same, asked, one, shown, submitted) =
        requested-Executes cfg serves cmd h _ cmd.unmarshal_config cmd.unmarshal_tx namespace args
          asked text (ap (λ l. text ∷ printed l) same)
          (C.execute_transaction h namespace version args) shown (delivers h namespace version args)
    Submitted-Executes h' lost = absurd lost

  -- When the SDK delivers the transactions that the client executes to a service that the endorser's
  -- program has started, an `invoke` without an error has made the service open the store of "mynamespace",
  -- access it exactly as the function and the arguments of the command's transaction ask, and endorse the
  -- result for the network that the protocol of its configuration names; and it has printed the payload of
  -- that response.
  pub start-invoke :
      (program : Main.Command) (cfg : Config) (before after : List Call)
      → program.unmarshal_config ≡ ok cfg
      → start E program before ≡ (ok s, after)
      → ((h : List Call) (namespace version : String) (args : List String)
          → Delivered namespace args (C.execute_transaction h namespace version args))
      → (cmd : Client.Command) (h h' : List Call) → invoke C cmd h ≡ (ok tt, h')
      → Executes cfg cmd.unmarshal_tx h h'
  start-invoke program cfg before after is_config started delivers cmd h h' invoked =
      Submitted-Executes cfg
        (λ parsed g. start-process_proposal E g program cfg before after s is_config started parsed)
        delivers cmd h h' (subst (Invoked C cmd h) invoked (invoke-Invoked C cmd h))
