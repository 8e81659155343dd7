-- ===== src/Tokens/Owner/Balances/Answers.antt =====
-- What `Balances` answers, whatever the order in which Go visits the map.
use fabric_x_samples.Prelude.{
  ℕ, String, ◌%◌, ◌^◌, ◌≡◌, refl, ◌∙◌, Option, none, some, List, [], ◌∷◌, ◌==◌, map, lookup, insert,
  arith, eq_iff, inl, inr, Option-cases, if◌then◌else◌,
}
use native.Mathlib.Nat.{zero-add}
use fabric_x_samples.Go.{Outcome, ok, err, panic}
use fabric_x_samples.Tokens.Types.{Token, Wallet, TmsId, Call}
use fabric_x_samples.Tokens.Platform.{Platform}
use fabric_x_samples.Tokens.Common.Options.{service_opts}
use fabric_x_samples.Tokens.Owner.ParseUint.{parse_uint}
use fabric_x_samples.Tokens.Owner.Balances.{
  Amount, AmountMap, add_amount, sum_tokens, to_amount, balances,
}
use fabric_x_samples.Tokens.Owner.Balances.Sums.{
  holds, total, AllParse, IsSum, sum_tokens-IsSum, lookup-insert,
}

-- No key twice.
abbrev pub NodupKeys : AmountMap → Type 0
NodupKeys [] = Unit
NodupKeys ((k, _) ∷ m) = (lookup k m ≡ none) × NodupKeys m

-- A visit of a map yields each entry once, in some order.
abbrev pub Iterates : (AmountMap → AmountMap) → Type 0
Iterates iterate =
    (m : AmountMap)
    → NodupKeys m
    → NodupKeys (iterate m) × ((k : String) → lookup k (iterate m) ≡ lookup k m)

insert-NodupKeys : (k : String) (v : ℕ) (m : AmountMap) → NodupKeys m → NodupKeys (insert k v m)
insert-NodupKeys k v [] u = (refl, tt)
insert-NodupKeys k v ((j, w) ∷ m) u =
    ground (arith, eq_iff j k, eq_iff k j, insert-NodupKeys k v m u.1, lookup-insert k j v m)

abbrev KeysOnce : Outcome AmountMap → Type 0
KeysOnce (ok m) = NodupKeys m
KeysOnce _ = Unit

sum_tokens-KeysOnce : (ts : List Token) (m : AmountMap) → NodupKeys m → KeysOnce (sum_tokens ts m)
unfolding sum_tokens
sum_tokens-KeysOnce [] m u = u
sum_tokens-KeysOnce (t ∷ ts) m u = elim (Option-cases (parse_uint t.quantity)) [
  | inl e ↦ rw (e, sum_tokens) tt
  | inr (n, e) ↦
      rw (e, sum_tokens)
        (sum_tokens-KeysOnce ts (add_amount t.token_type n m) (insert-NodupKeys t.token_type _ m u))
]

-- The entry of a type in the list that the code returns.
abbrev pub amount_of : String → List Amount → Option ℕ
amount_of code [] = none
amount_of code (a ∷ as') = if a.code == code then some a.value else amount_of code as'

abbrev pub CodesOnce : List Amount → Type 0
CodesOnce [] = Unit
CodesOnce (a ∷ as') = (amount_of a.code as' ≡ none) × CodesOnce as'

amount_of-map : (code : String) (m : AmountMap) → amount_of code (map to_amount m) ≡ lookup code m
amount_of-map code [] = refl
amount_of-map code ((j, v) ∷ m) = rw (amount_of-map code m)

CodesOnce-map : (m : AmountMap) → NodupKeys m → CodesOnce (map to_amount m)
CodesOnce-map [] u = tt
CodesOnce-map ((j, v) ∷ m) u = (amount_of-map j m ∙ u.0, CodesOnce-map m u.1)

-- What a list of amounts says of tokens: each type that they have, once, with its sum in uint64.
abbrev pub Reports : List Token → Outcome (List Amount) → Type 0
Reports ts (ok am) =
    AllParse ts
    × CodesOnce am
    × ((code : String)
        → amount_of code am ≡ (if holds code ts then some (total code ts % 2 ^ 64) else none))
Reports ts (err e) = ¬ AllParse ts
Reports ts (Outcome.panic why) = ⊥

abbrev returned : (AmountMap → AmountMap) → Outcome AmountMap → Outcome (List Amount)
returned iterate (ok m) = ok (map to_amount (iterate m))
returned iterate (err e) = err e
returned iterate (panic why) = panic why

module _ (iterate : AmountMap → AmountMap) (any_order : Iterates iterate) where
  sums-Reports :
      (ts : List Token) (o : Outcome AmountMap)
      → IsSum ts [] o
      → KeysOnce o
      → Reports ts (returned iterate o)
  sums-Reports ts (ok m) (parse, sums) u =
      let (once, same) = any_order m u in
      (
        parse,
        CodesOnce-map (iterate m) once,
        λ code. amount_of-map code (iterate m) ∙ same code ∙ rw zero-add at (sums code),
      )
  sums-Reports ts (err e) bad u = bad
  sums-Reports ts (panic why) bad u = bad

  balances-sum_tokens :
      (P : Platform) (wallet : String) (tms : Option TmsId) (h : List Call) {wal : Wallet}
      {ts : List Token}
      → P.get_management_service h (service_opts tms []) ≡ ok tt
      → P.owner_wallet h wallet (service_opts tms []) ≡ ok wal
      → P.unspent_tokens h wal ≡ ok ts
      → balances P iterate wallet tms h ≡ (returned iterate (sum_tokens ts []), h)
  unfolding balances
  balances-sum_tokens P wallet tms h found_tms found_wallet listed = ground arith

  -- When the TMS and the wallet are found and its tokens are listed, the answer has one amount for
  -- each type among the tokens, the sum of their quantities modulo 2 ^ 64, in whatever order Go
  -- visits the map; it is an error exactly when some quantity does not parse. Nothing is changed.
  pub balances-Reports :
      (P : Platform) (wallet : String) (tms : Option TmsId) (h : List Call) {wal : Wallet}
      {ts : List Token}
      → P.get_management_service h (service_opts tms []) ≡ ok tt
      → P.owner_wallet h wallet (service_opts tms []) ≡ ok wal
      → P.unspent_tokens h wal ≡ ok ts
      → Reports ts (balances P iterate wallet tms h).0 × ((balances P iterate wallet tms h).1 ≡ h)
  balances-Reports P wallet tms h {ts} found_tms found_wallet listed =
      rw (balances-sum_tokens P wallet tms h found_tms found_wallet listed)
        (sums-Reports ts _ (sum_tokens-IsSum ts []) (sum_tokens-KeysOnce ts [] tt), refl)
