-- ===== src/Tokens/Node/Sdk/Joins.antt =====
-- What a join of calls does: all of them, and it fails exactly if one does.
use fabric_x_samples.Prelude.{List, [], ◌∷◌, ◌++◌, ◌≡◌, refl, arith, ◌∙◌, ◌↔◌, sym, subst}
use fabric_x_samples.Go.{Error, Outcome, ok, err, panic, Go, pure, ◌>>=◌}
use fabric_x_samples.Tokens.Node.Sdk.{Wiring, Container, call, attempt, attempts, fail, join}

-- The history after calls, whatever they answered.
abbrev pub called : List Wiring → List Wiring → List Wiring
called [] h = h
called (w ∷ ws) h = called ws (w ∷ h)

module _ (K : Container) where
  -- Every call of the list succeeds, made one after another.
  abbrev pub AllSucceed : List Wiring → List Wiring → Type 0
  AllSucceed [] h = Unit
  AllSucceed (w ∷ ws) h = (K.answer h w ≡ ok tt) × AllSucceed ws (w ∷ h)

  -- Every call was made, and the joined error is nil exactly if all succeeded.
  abbrev pub Joins : List Wiring → List Wiring → Outcome (Unit {0}) × List Wiring → Type 0
  Joins ws h (ok u, h') = AllSucceed ws h × (h' ≡ called ws h)
  Joins ws h (err e, h') = (¬ AllSucceed ws h) × (h' ≡ called ws h)
  Joins ws h (panic why, h') = Unit

  -- A computation that makes these calls, wherever it starts.
  pub record IsJoin (ws : List Wiring) (m : Go Wiring (Unit {0})) : Type 0 where
    pub at : (h : List Wiring) → Joins ws h (m h)

  pub call-IsJoin : (w : Wiring) → IsJoin (w ∷ []) (call K w)
  call-IsJoin w = record { at = λ h. answered h (K.answer h w) refl }
    where
      answered :
          (h : List Wiring) (r : Outcome (Unit {0}))
          → K.answer h w ≡ r
          → Joins (w ∷ []) h (r, w ∷ h)
      answered h (ok u) e = ((e, tt), refl)
      answered h (err x) e = (λ all. ground (arith, all.0), refl)
      answered h (panic why) e = tt

  -- The same for the arguments of a join, before their errors are put together.
  abbrev pub Attempts : List Wiring → List Wiring → Outcome (List Error) × List Wiring → Type 0
  Attempts ws h (ok [], h') = AllSucceed ws h × (h' ≡ called ws h)
  Attempts ws h (ok (e ∷ es), h') = (¬ AllSucceed ws h) × (h' ≡ called ws h)
  Attempts ws h (err e, h') = ⊥
  Attempts ws h (panic why, h') = Unit

  pub record AreAttempts (ws : List Wiring) (ms : List (Go Wiring (Unit {0}))) : Type 0 where
    pub at : (h : List Wiring) → Attempts ws h (attempts K ms h)

  pub nil-AreAttempts : AreAttempts [] []
  unfolding attempts
  nil-AreAttempts = record { at = λ h. (tt, refl) }

  called-append : (ws vs h : List Wiring) → called (ws ++ vs) h ≡ called vs (called ws h)
  called-append [] vs h = refl
  called-append (w ∷ ws) vs h = called-append ws vs (w ∷ h)

  AllSucceed-append :
      (ws vs h : List Wiring)
      → AllSucceed (ws ++ vs) h ↔ (AllSucceed ws h × AllSucceed vs (called ws h))
  AllSucceed-append [] vs h = (λ all. (tt, all), λ both. both.1)
  AllSucceed-append (w ∷ ws) vs h =
      let rest = AllSucceed-append ws vs (w ∷ h) in
      (
        λ all. ((all.0, (rest.0 all.1).0), (rest.0 all.1).1),
        λ both. (both.0.0, rest.1 (both.0.1, both.1)),
      )

  later-Attempts :
      (ws vs h : List Wiring)
      → AllSucceed ws h
      → (r : Outcome (List Error) × List Wiring) → Attempts vs (called ws h) r
      → Attempts (ws ++ vs) h r
  later-Attempts ws vs h all (ok [], h') (more, e) =
      ((AllSucceed-append ws vs h).1 (all, more), e ∙ sym (called-append ws vs h))
  later-Attempts ws vs h all (ok (x ∷ xs), h') (fails, e) =
      (λ both. fails ((AllSucceed-append ws vs h).0 both).1, e ∙ sym (called-append ws vs h))
  later-Attempts ws vs h all (err x, h') a = a
  later-Attempts ws vs h all (panic why, h') a = tt

  failed-Attempts :
      (ws vs h : List Wiring) (x : Error)
      → ¬ AllSucceed ws h
      → (r : Outcome (List Error) × List Wiring) → Attempts vs (called ws h) r
      → Attempts (ws ++ vs) h (((λ (_ : List Wiring). r) >>= λ es. pure (x ∷ es)) h)
  failed-Attempts ws vs h x fails (ok [], h') (more, e) =
      (λ both. fails ((AllSucceed-append ws vs h).0 both).0, e ∙ sym (called-append ws vs h))
  failed-Attempts ws vs h x fails (ok (y ∷ ys), h') (also, e) =
      (λ both. fails ((AllSucceed-append ws vs h).0 both).0, e ∙ sym (called-append ws vs h))
  failed-Attempts ws vs h x fails (err y, h') a = a
  failed-Attempts ws vs h x fails (panic why, h') a = tt

  same-Attempts :
      (ws h : List Wiring) (r : Outcome (List Error) × List Wiring)
      → Attempts ws h r
      → Attempts ws h (((λ (_ : List Wiring). r) >>= λ es. pure ([] ++ es)) h)
  same-Attempts ws h (ok [], h') a = a
  same-Attempts ws h (ok (x ∷ xs), h') a = a
  same-Attempts ws h (err x, h') a = a
  same-Attempts ws h (panic why, h') a = a

  joined-Attempts :
      (ws vs h : List Wiring) (ms : List (Go Wiring (Unit {0})))
      → AreAttempts vs ms
      → (r : Outcome (Unit {0}) × List Wiring) → Joins ws h r
      → Attempts
          (ws ++ vs)
          h
          ((attempt K (λ (_ : List Wiring). r) >>= λ e. attempts K ms >>= λ es. pure (e ++ es)) h)
  joined-Attempts ws vs h ms rest (ok u, h') (all, e) =
      same-Attempts (ws ++ vs) h (attempts K ms h') (
        later-Attempts ws vs h all _ (subst (λ g. Attempts vs g (attempts K ms h')) e (rest.at h')))
  joined-Attempts ws vs h ms rest (err x, h') (fails, e) =
      failed-Attempts ws vs h x fails (attempts K ms h')
        (subst (λ g. Attempts vs g (attempts K ms h')) e (rest.at h'))
  joined-Attempts ws vs h ms rest (panic why, h') j = tt

  pub cons-AreAttempts :
      {ws vs : List Wiring} {m : Go Wiring (Unit {0})} {ms : List (Go Wiring (Unit {0}))}
      → IsJoin ws m
      → AreAttempts vs ms
      → AreAttempts (ws ++ vs) (m ∷ ms)
  unfolding attempts
  cons-AreAttempts {ws} {vs} {m} {ms} first rest = record {
    at = λ h. joined-Attempts ws vs h ms rest (m h) (first.at h);
  }

  ended-Joins :
      (ws h : List Wiring) (r : Outcome (List Error) × List Wiring)
      → Attempts ws h r
      → Joins ws h (((λ (_ : List Wiring). r) >>= fail K) h)
  ended-Joins ws h (ok [], h') a = a
  ended-Joins ws h (ok (x ∷ xs), h') a = a
  ended-Joins ws h (err x, h') a = absurd a
  ended-Joins ws h (panic why, h') a = tt

  pub join-IsJoin :
      {ws : List Wiring} {ms : List (Go Wiring (Unit {0}))}
      → AreAttempts ws ms
      → IsJoin ws (join K ms)
  unfolding join
  join-IsJoin {ws} {ms} all = record { at = λ h. ended-Joins ws h (attempts K ms h) (all.at h) }

  -- The calls as a list of single ones.
  unfoldable pub calls : List Wiring → List (Go Wiring (Unit {0}))
  calls [] = []
  calls (w ∷ ws) = call K w ∷ calls ws

  pub calls-AreAttempts : (ws : List Wiring) → AreAttempts ws (calls ws)
  unfolding calls
  calls-AreAttempts [] = nil-AreAttempts
  calls-AreAttempts (w ∷ ws) = cons-AreAttempts (call-IsJoin w) (calls-AreAttempts ws)
