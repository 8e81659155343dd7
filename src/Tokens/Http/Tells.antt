-- ===== src/Tokens/Http/Tells.antt =====
-- What an answer with a transaction's ID tells a client of the ledger.
use fabric_x_samples.Prelude.{ℕ, String, ◌≡◌, refl, Bool, true, false, List}
use fabric_x_samples.Go.{Outcome, ok, err, panic, pure, ◌>>=◌}
use fabric_x_samples.Tokens.Types.{Call}
use fabric_x_samples.Tokens.Platform.{Platform}
use fabric_x_samples.Tokens.Settlement.{IsAtomic, CommitsLast, CommitsNothing}
use fabric_x_samples.Tokens.Http.{Answer, Body, json, problem, plain, success, strict}

module _ (P : Platform) (h : List Call) where
  -- The body of an answer, by whether the request is refused for what it holds.
  abbrev TellsBody : Bool → ℕ → Body String → List Call → Type 0
  TellsBody refused status (json message id) h' =
      (refused ≡ false) × (status ≡ 200) × CommitsLast P h id h'
  TellsBody refused status (problem p) h' = (refused ≡ true) × (status ≡ 400) × (h' ≡ h)
  TellsBody refused status (plain e) h' = (refused ≡ false) × (status ≡ 500) × CommitsNothing P h h'

  -- Status 200 comes with the ID of the transaction that the last call committed, status 400 with
  -- no call at all, status 500 (and a panic) with nothing committed.
  abbrev pub Tells : Bool → Outcome (Answer String) × List Call → Type 0
  Tells refused (ok a, h') = TellsBody refused a.status a.body h'
  Tells refused (err e, h') = ⊥
  Tells refused (panic why, h') = (refused ≡ false) × CommitsNothing P h h'

  pub success-Tells :
      (r : Outcome String × List Call)
      → IsAtomic P h r
      → Tells false (strict ((λ (_ : List Call). r) >>= λ id. pure (success "ok" id)) h)
  unfolding strict
  success-Tells (ok id, h') a = (refl, refl, a)
  success-Tells (err e, h') a = (refl, refl, a)
  success-Tells (panic why, h') a = (refl, a)
