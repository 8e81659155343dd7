-- ===== src/Tokens/Common/Assert.antt =====
-- tokens/common/views/utils.go: `AssertTokens`, the check that a node's token database holds the
-- outputs of a transaction that are its own, and none of the others.
use fabric_x_samples.Prelude.{
  false, Bool, true, ◌||◌, List, [], ◌∷◌, ◌==◌, ◌≡◌, contains, arith, refl, eq_iff, if◌then◌else◌,
}
use fabric_x_samples.Go.{
  Outcome, ok, err, panic, Go, pure, crash, peek, must, assert_true, ◌>>=◌, ◌>>◌,
}
use fabric_x_samples.Tokens.Types.{Identity, Transaction, Output, Token, Call}
use fabric_x_samples.Tokens.Platform.{Platform}

-- The three assertions on what the database holds for an output of this node.
abbrev pub assert_one : Output → List Token → Go Call (Unit {0})
assert_one output [] = crash "expected one token"
assert_one output (tok ∷ []) = do
  assert_true (output.quantity_hex == tok.quantity) "token quantity mismatch"
  assert_true (output.token_type == tok.token_type) "token type mismatch"
assert_one output (tok ∷ other ∷ rest) = crash "expected one token"

module _ (P : Platform) (tx : Transaction) where
  -- The two assertions on the error of the lookup of another node's output.
  abbrev pub assert_absent : Outcome (List Token) → Go Call (Unit {0})
  assert_absent (ok toks) = crash "token should not exist"
  assert_absent (err e) = assert_true (contains (P.text e) "token not found") ""
  assert_absent (panic why) = crash why

  -- The body of the loop.
  unfoldable pub assert_output : Identity → Output → Go Call (Unit {0})
  assert_output id output = do
    is_me ← must "failed checking if owner is me" (peek (λ h. P.is_me h tx output.owner))
    if output.owner == id || is_me
        then (must "failed to retrieve token" (peek (λ h. P.db_tokens h tx output))
            >>= assert_one output)
        else (λ h. assert_absent (P.db_tokens h tx output) h)

  -- The loop over the outputs.
  unfoldable pub assert_outputs : Identity → List Output → Go Call (Unit {0})
  assert_outputs id [] = pure tt
  assert_outputs id (output ∷ outputs) = do assert_output id output; assert_outputs id outputs

  -- `AssertTokens`
  unfoldable pub assert_tokens : List Output → Identity → Go Call (Unit {0})
  unfolding assert_outputs assert_output
  assert_tokens outputs id = do
    must "failed to get token db" (peek (λ h. P.token_db h tx))
    assert_outputs id outputs

  -- What the database holds for one output, as the node sees it.
  abbrev HoldsOne : Output → Outcome (List Token) → Type 0
  HoldsOne output (ok (tok ∷ [])) =
      (output.quantity_hex ≡ tok.quantity) × (output.token_type ≡ tok.token_type)
  HoldsOne output _ = ⊥

  abbrev HoldsNone : Outcome (List Token) → Type 0
  HoldsNone (err e) = contains (P.text e) "token not found" ≡ true
  HoldsNone _ = ⊥

  abbrev IsKept : Identity → List Call → Output → Outcome Bool → Type 0
  IsKept id h output (ok is_me) =
      if output.owner == id || is_me
      then HoldsOne output (P.db_tokens h tx output)
      else HoldsNone (P.db_tokens h tx output)
  IsKept id h output _ = ⊥

  -- Each output of this node is in its database, alone and alike, and no other output is.
  abbrev pub AreKept : Identity → List Call → List Output → Type 0
  AreKept id h [] = Unit
  AreKept id h (output ∷ outputs) =
      IsKept id h output (P.is_me h tx output.owner) × AreKept id h outputs

  -- How the loop ends: it returns exactly if the outputs are kept, and else it panics.
  abbrev pub Decides : Type 0 → List Call → Outcome (Unit {0}) × List Call → Type 0
  Decides Q h (ok _, h') = Q × (h' ≡ h)
  Decides Q h (err e, h') = ⊥
  Decides Q h (panic why, h') = ¬ Q

  assert_one-Decides :
      (h : List Call) (output : Output) (toks : List Token)
      → Decides (HoldsOne output (ok toks)) h (assert_one output toks h)
  assert_one-Decides h output [] = λ q. q
  assert_one-Decides h output (tok ∷ []) =
      ground
        (arith, eq_iff output.quantity_hex tok.quantity, eq_iff output.token_type tok.token_type)
  assert_one-Decides h output (tok ∷ other ∷ rest) = λ q. q

  absent-Decides :
      (h : List Call) (r : Outcome (List Token)) → Decides (HoldsNone r) h (assert_absent r h)
  absent-Decides h (ok toks) = λ q. q
  absent-Decides h (err e) = ground arith
  absent-Decides h (panic why) = λ q. q

  present-Decides :
      (h : List Call) (output : Output) (r : Outcome (List Token))
      → Decides
          (HoldsOne output r)
          h
          ((must "failed to retrieve token" (λ (g : List Call). (r, g)) >>= assert_one output) h)
  present-Decides h output (ok toks) = assert_one-Decides h output toks
  present-Decides h output (err e) = λ q. q
  present-Decides h output (panic why) = λ q. q

  assert_output-Decides :
      (id : Identity) (h : List Call) (output : Output)
      → Decides (IsKept id h output (P.is_me h tx output.owner)) h (assert_output id output h)
  unfolding assert_output
  assert_output-Decides id h output = go (P.is_me h tx output.owner)
    where
      own :
          (b : Bool)
          → Decides
              (if b
                then HoldsOne output (P.db_tokens h tx output)
                else HoldsNone (P.db_tokens h tx output))
              h
              ((if b
                  then (must "failed to retrieve token" (peek (λ g. P.db_tokens g tx output))
                      >>= assert_one output)
                  else (λ g. assert_absent (P.db_tokens g tx output) g))
                h)
      own true = present-Decides h output (P.db_tokens h tx output)
      own false = absent-Decides h (P.db_tokens h tx output)

      go :
          (r : Outcome Bool)
          → Decides (IsKept id h output r) h (
              (must "failed checking if owner is me" (λ (g : List Call). (r, g)) >>= λ is_me.
              if output.owner == id || is_me
              then (must "failed to retrieve token" (peek (λ g. P.db_tokens g tx output))
                  >>= assert_one output)
              else (λ g. assert_absent (P.db_tokens g tx output) g))
                h)
      go (ok is_me) = own (output.owner == id || is_me)
      go (err e) = λ q. q
      go (panic why) = λ q. q

  found-Decides :
      (h : List Call) (r : Outcome (Unit {0}))
      → Decides (r ≡ ok tt) h (must "failed to get token db" (λ (g : List Call). (r, g)) h)
  found-Decides h (ok u) = (refl, refl)
  found-Decides h (err e) = λ q. cc
  found-Decides h (panic why) = λ q. cc

  both-Decides :
      (Q R : Type 0) (h : List Call) (r : Outcome (Unit {0}) × List Call) (k : Go Call (Unit {0}))
      → Decides Q h r
      → Decides R h (k h)
      → Decides (Q × R) h (((λ (_ : List Call). r) >> k) h)
  both-Decides Q R h (ok u, h') k (q, same) e = rw same (keep (k h) e)
    where
      keep : (x : Outcome (Unit {0}) × List Call) → Decides R h x → Decides (Q × R) h x
      keep (ok u, g) (y, z) = ((q, y), z)
      keep (err x, g) y = y
      keep (panic why, g) y = λ (_, t). y t
  both-Decides Q R h (err x, h') k d e = d
  both-Decides Q R h (panic why, h') k d e = λ (q, _). d q

  assert_outputs-Decides :
      (id : Identity) (h : List Call) (outputs : List Output)
      → Decides (AreKept id h outputs) h (assert_outputs id outputs h)
  unfolding assert_outputs
  assert_outputs-Decides id h [] = (tt, refl)
  assert_outputs-Decides id h (output ∷ outputs) =
      both-Decides _ _ h (assert_output id output h) (assert_outputs id outputs)
        (assert_output-Decides id h output) (assert_outputs-Decides id h outputs)

  -- `AssertTokens` returns exactly if the database of the transaction's TMS is found, every output
  -- that belongs to the identity or to this node is in it once, with its quantity and type, and
  -- every other one is reported as not found; in all other cases it panics. It changes nothing.
  pub assert_tokens-Decides :
      (outputs : List Output) (id : Identity) (h : List Call)
      → Decides ((P.token_db h tx ≡ ok tt) × AreKept id h outputs) h (assert_tokens outputs id h)
  unfolding assert_tokens
  assert_tokens-Decides outputs id h =
      both-Decides _ _ h (must "failed to get token db" (peek (λ g. P.token_db g tx)) h)
        (assert_outputs id outputs) (found-Decides h (P.token_db h tx))
        (assert_outputs-Decides id h outputs)
