-- ===== src/Go.antt =====
-- A Go call in the code of the repository: it returns a value, returns an error, or panics. What
-- the code calls outside of the repository is recorded, and answers by what was called before.
use fabric_x_samples.Prelude.{String, Bool, Option, none, some, List, ◌∷◌, if◌then◌else◌}

-- An `error` value. `message` is one that is made from a text, also outside of the repository;
-- the others say how the code builds one error from another.
pub data Error : Type 0 where
  message : String → Error
  wrap : String → Error → Error
  cause : Error → Error → Error
  status : String → String → Error

-- How a call ends. The pair `(nil value, err)` is `err`.
pub data Outcome {ℓ} (A : Type ℓ) : Type ℓ where
  ok : A → Outcome A
  err : Error → Outcome A
  panic : String → Outcome A

-- The calls made so far, newest first, beside how the code ended.
abbrev pub Go {ℓ κ} : Type ℓ → Type κ → Type (ℓ ⊔ κ)
Go C A = List C → Outcome A × List C

module _ {ℓ κ} {C : Type ℓ} {A : Type κ} where
  abbrev pub pure : A → Go C A
  pure a h = (ok a, h)

  abbrev pub throw : Error → Go C A
  throw e h = (err e, h)

  abbrev pub crash : String → Go C A
  crash why h = (panic why, h)

  -- A recorded call of code outside of the repository.
  abbrev pub ask : C → (List C → Outcome A) → Go C A
  ask c answer h = (answer h, c ∷ h)

  -- A call that only reads; it is answered by what was called before and is not recorded.
  abbrev pub peek : (List C → Outcome A) → Go C A
  peek answer h = (answer h, h)

  -- `if err != nil { … }` behind a call
  abbrev pub on_error : (Error → Go C A) → Go C A → Go C A
  on_error f m h =
      let (r, h') = m h in
      elim r [ ok a ↦ (ok a, h') | err e ↦ f e h' | panic why ↦ (panic why, h') ]

  -- `if err != nil { return …, errors.Wrap(err, text) }`
  abbrev pub wrapping : String → Go C A → Go C A
  wrapping text = on_error (λ e. throw (Error.wrap text e))

  -- `assert.NoError(err, text)`, which panics on an error.
  abbrev pub must : String → Go C A → Go C A
  must text = on_error (λ e. crash text)

  -- `if x == nil { … }`
  abbrev pub non_nil : Option A → Go C A → Go C A
  non_nil none otherwise = otherwise
  non_nil (some a) otherwise = pure a

infixl 5 ◌>>=◌ ◌>>◌
abbrev pub ◌>>=◌ {ℓ κ μ} : {C : Type ℓ} {A : Type κ} {B : Type μ} → Go C A → (A → Go C B) → Go C B
◌>>=◌ m f h =
    let (r, h') = m h in
    elim r [ ok a ↦ f a h' | err e ↦ (err e, h') | panic why ↦ (panic why, h') ]

abbrev pub ◌>>◌ {ℓ κ μ} : {C : Type ℓ} {A : Type κ} {B : Type μ} → Go C A → Go C B → Go C B
m >> k = m >>= λ _. k

-- `if !b { … }` in front of the rest
abbrev pub guard {ℓ} : {C : Type ℓ} → Bool → Go C (Unit {0}) → Go C (Unit {0})
guard b otherwise = if b then pure tt else otherwise

-- `assert.True(b, text)`
abbrev pub assert_true {ℓ} : {C : Type ℓ} → Bool → String → Go C (Unit {0})
assert_true b text = if b then pure tt else crash text
