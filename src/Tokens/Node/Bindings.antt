-- ===== src/Tokens/Node/Bindings.antt =====
-- What `BindEndorsingIdentities` binds.
use fabric_x_samples.Prelude.{
  String, Option, none, some, List, [], ◌∷◌, ◌≡◌, refl, ap, sym, subst, ◌∙◌, arith, inl, inr,
  if◌then◌else◌, Bool-cases,
}
use mathlib.Core.Logic.{∥∥₁_map}
use mathlib.Core.List.{Perm, Permᴰ}
use mathlib.Core.List.Perm
use mathlib.Core.List.Permᴰ
use fabric_x_samples.Go.{Outcome, ok, err, panic, peek, ◌>>=◌, ◌>>◌}
use fabric_x_samples.Tokens.Types.{Identity}
use fabric_x_samples.Tokens.Node.{
  Step, Node, logged, bind_found, bind_pair, bind_pairs, bind_endorsing_identities,
}

-- An answer of the membership service is the identity of the label, or an error if it has none.
abbrev pub Finds : Outcome Identity → Option Identity → Type 0
Finds (ok e) (some e') = e ≡ e'
Finds (ok e) none = ⊥
Finds (err x) (some e') = ⊥
Finds (err x) none = Unit
Finds (panic why) o = ⊥

abbrev pub Returns : Outcome (Unit {0}) → Type 0
Returns (ok u) = Unit
Returns (err e) = Unit
Returns (panic why) = ⊥

module _ (N : Node) (find : String → Option Identity) where
  -- The bindings that a pair of names asks for: one if both of its identities are known.
  abbrev binding_of : Option Identity → Identity → List Step → List Step
  binding_of none p2p h = h
  binding_of (some endorsing) p2p h = if N.is_none p2p then h else Step.bind endorsing p2p ∷ h

  abbrev pub bindings : List (String × String) → List Step → List Step
  bindings [] h = h
  bindings ((label, name) ∷ pairs) h = bindings pairs (binding_of (find label) (N.identity name) h)

  -- The order in which pairs are bound does not matter, up to the order of the calls.
  binding_of-Permᴰ :
      (o : Option Identity) (p2p : Identity) {h g : List Step}
      → Permᴰ h g
      → Permᴰ (binding_of o p2p h) (binding_of o p2p g)
  binding_of-Permᴰ none p2p d = d
  binding_of-Permᴰ (some e) p2p d = elim (Bool-cases (N.is_none p2p)) [
    | inl absent ↦ rw absent d
    | inr present ↦ rw present (Permᴰ.cons refl d)
  ]

  binding_of-swap :
      (o u : Option Identity) (p q : Identity) (h : List Step)
      → Permᴰ (binding_of o p (binding_of u q h)) (binding_of u q (binding_of o p h))
  binding_of-swap none u p q h = Permᴰ.refl _
  binding_of-swap (some e) none p q h = Permᴰ.refl _
  binding_of-swap (some e) (some f) p q h = elim (Bool-cases (N.is_none p)) [
    | inl a ↦ rw a (Permᴰ.refl _)
    | inr a ↦ elim (Bool-cases (N.is_none q)) [
      | inl b ↦ rw (a, b) (Permᴰ.refl _)
      | inr b ↦ rw (a, b) (Permᴰ.swap refl refl)
    ]
  ]

  bindings-Permᴰ :
      (pairs : List (String × String)) {h g : List Step}
      → Permᴰ h g
      → Permᴰ (bindings pairs h) (bindings pairs g)
  bindings-Permᴰ [] d = d
  bindings-Permᴰ ((label, name) ∷ pairs) d =
      bindings-Permᴰ pairs (binding_of-Permᴰ (find label) (N.identity name) d)

  bindings-order :
      {ps qs : List (String × String)} (h : List Step)
      → Permᴰ ps qs
      → Permᴰ (bindings ps h) (bindings qs h)
  bindings-order h Permᴰ.nil = Permᴰ.refl h
  bindings-order h (Permᴰ.cons {a = p} {l₁ = ps} {l₂ = qs} e d) =
      subst (λ q. Permᴰ (bindings (p ∷ ps) h) (bindings (q ∷ qs) h)) e
        (bindings-order (binding_of (find p.0) (N.identity p.1) h) d)
  bindings-order h (Permᴰ.swap {a = p} {b = q} {a' = q'} {l = ps} e f) =
      subst (λ p'. Permᴰ (bindings (p ∷ q ∷ ps) h) (bindings (q' ∷ p' ∷ ps) h)) e
        (subst (λ q'. Permᴰ (bindings (p ∷ q ∷ ps) h) (bindings (q' ∷ p ∷ ps) h)) f
          (bindings-Permᴰ ps
            (binding_of-swap (find q.0) (find p.0) (N.identity q.1) (N.identity p.1) h)))
  bindings-order h (Permᴰ.trans d e) = Permᴰ.trans (bindings-order h d) (bindings-order h e)

  module _
      (finds : (h : List Step) (label : String) → Finds (N.identity_by_id h label) (find label))
      (returns : (h : List Step) (e p : Identity) → Returns (N.bind h e p)) where
    round_lem :
        (r : Outcome Identity) (o : Option Identity) (p2p : Identity) (h : List Step)
        → Finds r o
        → logged (peek (λ _. r) >>= λ e. bind_found N e p2p) h ≡ (ok tt, binding_of o p2p h)
    round_lem (ok e) (some e') p2p h found = ground (arith, returns h e p2p)
    round_lem (ok e) none p2p h found = absurd found
    round_lem (err x) (some e') p2p h found = absurd found
    round_lem (err x) none p2p h found = refl
    round_lem (panic why) o p2p h found = absurd found

    bind_pairs_lem :
        (pairs : List (String × String)) (h : List Step)
        → bind_pairs N pairs h ≡ (ok tt, bindings pairs h)
    unfolding bind_pairs bind_pair
    bind_pairs_lem [] h = refl
    bind_pairs_lem ((label, name) ∷ pairs) h =
        let p2p = N.identity name in
        ap
          (λ (r : Outcome (Unit {0}) × List Step). ((λ (_ : List Step). r) >> bind_pairs N pairs) h)
          (round_lem (N.identity_by_id h label) (find label) p2p h (finds h label))
        ∙ bind_pairs_lem pairs (binding_of (find label) p2p h)

    bind_endorsing_identities_lem :
        (network : String) (pair : String × String) (pairs : List (String × String)) (h : List Step)
        → N.network_service h network ≡ ok tt
        → N.id_provider h ≡ ok tt
        → bind_endorsing_identities N network (pair ∷ pairs) h
          ≡ (ok tt, bindings (N.range (pair ∷ pairs)) h)
    unfolding bind_endorsing_identities
    bind_endorsing_identities_lem network pair pairs h there provided =
        ground (arith, bind_pairs_lem (N.range (pair ∷ pairs)) h)

    -- When the network and the identity provider are there, the membership service answers the same
    -- for a label at any time, no call panics, and a loop over a map takes each entry once, in any order:
    -- `BindEndorsingIdentities` returns, and up to their order the calls that it has made bind the
    -- endorsing identity of each pair whose two identities are known to the P2P identity, once and in
    -- this direction, whatever becomes of the other pairs.
    pub bind_endorsing_identities-bindings :
        (network : String) (pairs : List (String × String)) (h : List Step)
        → N.network_service h network ≡ ok tt
        → N.id_provider h ≡ ok tt
        → Perm (N.range pairs) pairs
        → ((bind_endorsing_identities N network pairs h).0 ≡ ok tt)
          × Perm (bind_endorsing_identities N network pairs h).1 (bindings pairs h)
    unfolding bind_endorsing_identities
    bind_endorsing_identities-bindings network [] h there provided shuffled = (refl, Perm.refl h)
    bind_endorsing_identities-bindings network (pair ∷ pairs) h there provided shuffled =
        let e = bind_endorsing_identities_lem network pair pairs h there provided in
        (
          ap (λ (r : Outcome (Unit {0}) × List Step). r.0) e,
          subst (λ (r : Outcome (Unit {0}) × List Step). Perm r.1 (bindings (pair ∷ pairs) h))
              (sym e) (∥∥₁_map shuffled (bindings-order h)),
        )
