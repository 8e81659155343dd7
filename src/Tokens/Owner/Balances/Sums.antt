-- ===== src/Tokens/Owner/Balances/Sums.antt =====
-- What the loop of `Balances` computes, against a sum over the tokens of one type.
use fabric_x_samples.Prelude.{
  ℕ, String, ◌+◌, ◌%◌, ◌^◌, ◌≡◌, refl, ap, sym, ◌∙◌, ◌≢◌, inl, inr, Bool, true, false, ◌||◌, Option,
  none, some, List, [], ◌∷◌, ◌==◌, lookup, insert, arith, eq_iff, Option-cases, Bool-cases,
  if◌then◌else◌,
}
use mathlib.Core.Bool.{false≢true}
use native.Mathlib.Nat.{zero-add}
use fabric_x_samples.Go.{Outcome, ok, err}
use fabric_x_samples.Tokens.Types.{Token}
use fabric_x_samples.Tokens.Owner.ParseUint.{parse_uint}
use fabric_x_samples.Tokens.Owner.Balances.{AmountMap, or_zero, add_amount, sum_tokens}

pub lookup-insert :
    (k j : String) (v : ℕ) (m : AmountMap)
    → lookup j (insert k v m) ≡ (if k == j then some v else lookup j m)
lookup-insert k j v [] = refl
lookup-insert k j v ((i, w) ∷ m) =
    ground (arith, eq_iff k j, eq_iff i k, eq_iff i j, lookup-insert k j v m)

-- A quantity as a number; one that does not parse counts nothing.
abbrev pub value_of : Token → ℕ
value_of t = or_zero (parse_uint t.quantity)

-- The quantities of the tokens of one type, as an unbounded number.
abbrev pub total : String → List Token → ℕ
total code [] = 0
total code (t ∷ ts) = (if t.token_type == code then value_of t else 0) + total code ts

abbrev pub holds : String → List Token → Bool
holds code [] = false
holds code (t ∷ ts) = t.token_type == code || holds code ts

abbrev pub AllParse : List Token → Type 0
AllParse [] = Unit
AllParse (t ∷ ts) = (parse_uint t.quantity ≢ none) × AllParse ts

abbrev pub Expected : String → Option ℕ → List Token → Option ℕ → Type 0
Expected code old ts new =
    new ≡ (if holds code ts then some ((or_zero old + total code ts) % 2 ^ 64) else old)

abbrev pub IsSum : List Token → AmountMap → Outcome AmountMap → Type 0
IsSum ts m (ok m') =
    AllParse ts × ((code : String) → Expected code (lookup code m) ts (lookup code m'))
IsSum ts m (err e) = ¬ AllParse ts
IsSum ts m _ = ⊥

total-zero : (code : String) (ts : List Token) → holds code ts ≡ false → total code ts ≡ 0
total-zero code [] h = refl
total-zero code (t ∷ ts) h = elim (Bool-cases (t.token_type == code)) [
  | inl e ↦ absurd (false≢true (sym (rw e at h)))
  | inr e ↦ rw (e, zero-add) (total-zero code ts (rw e at h))
]

-- The modular sum of one more quantity.
wrap_step :
    (held : Bool) (old n rest : ℕ) (new : Option ℕ)
    → (held ≡ false → rest ≡ 0)
    → new
      ≡ (if held then some (((old + n) % 2 ^ 64 + rest) % 2 ^ 64) else some ((old + n) % 2 ^ 64))
    → new ≡ some ((old + (n + rest)) % 2 ^ 64)
wrap_step true old n rest new zero e = e ∙ ap some (omega arith)
wrap_step false old n rest new zero e = e ∙ ap some (omega (arith, zero refl))

module _ (t : Token) (ts : List Token) (m : AmountMap) (n : ℕ)
    (read : parse_uint t.quantity ≡ some n) where
  Expected-cons :
      (code : String) (new : Option ℕ)
      → Expected code (lookup code (add_amount t.token_type n m)) ts new
      → Expected code (lookup code m) (t ∷ ts) new
  Expected-cons code new h = elim (Bool-cases (t.token_type == code)) [
    | inl e ↦
        rw (e, ap or_zero read)
          (wrap_step (holds code ts) (or_zero (lookup code m)) n (total code ts) new
            (total-zero code ts) (rw (at_same e) at h))
    | inr e ↦ rw (e, zero-add) (rw (at_other e) at h)
  ]
    where
      at_same :
          t.token_type == code ≡ true
          → lookup code (add_amount t.token_type n m)
            ≡ some ((or_zero (lookup code m) + n) % 2 ^ 64)
      at_same e =
          lookup-insert t.token_type code _ m
          ∙ rw e (ap (λ k. some ((or_zero (lookup k m) + n) % 2 ^ 64)) ((eq_iff _ _).0 e))

      at_other :
          t.token_type == code ≡ false → lookup code (add_amount t.token_type n m) ≡ lookup code m
      at_other e = lookup-insert t.token_type code _ m ∙ rw e

  IsSum-cons :
      (o : Outcome AmountMap) → IsSum ts (add_amount t.token_type n m) o → IsSum (t ∷ ts) m o
  IsSum-cons (ok m') (parse, sums) =
      ((λ e. ground arith, parse), λ code. Expected-cons code (lookup code m') (sums code))
  IsSum-cons (err e) bad = λ all. bad all.1
  IsSum-cons (Outcome.panic why) h = h

pub sum_tokens-IsSum : (ts : List Token) (m : AmountMap) → IsSum ts m (sum_tokens ts m)
unfolding sum_tokens
sum_tokens-IsSum [] m = (tt, λ code. refl)
sum_tokens-IsSum (t ∷ ts) m = elim (Option-cases (parse_uint t.quantity)) [
  | inl e ↦ rw e (λ all. all.0 e)
  | inr (n, e) ↦
      rw (e, sum_tokens)
        (IsSum-cons t ts m n e _ (sum_tokens-IsSum ts (add_amount t.token_type n m)))
]
