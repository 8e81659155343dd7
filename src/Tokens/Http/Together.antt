-- ===== src/Tokens/Http/Together.antt =====
-- Clients that send their requests at the same time. Each meets a world of its own: whatever the
-- requests of the others do shows only in the answers of its platform. The ledger of all of them is
-- an interleaving of what each one commits.
use fabric_x_samples.Prelude.{ℕ, suc, String, List, [], ◌∷◌, ◌++◌, ◌≡◌, refl, ap, subst, ◌∙◌}
use mathlib.Core.List.{Perm, append-nil}
use mathlib.Core.List.Perm
use mathlib.Core.List.Permᴰ
use fabric_x_samples.Go.{Outcome, Go}
use fabric_x_samples.Tokens.Types.{Call}
use fabric_x_samples.Tokens.Platform.{Platform}
use fabric_x_samples.Tokens.Settlement.{ledger}
use fabric_x_samples.Tokens.Http.{Answer}
use fabric_x_samples.Tokens.Http.Serving.{Request}
use fabric_x_samples.Tokens.Http.Cors.{Response, with_any_cors}
use fabric_x_samples.Tokens.Http.Reports.{Event, serve_all, all_handed}

-- The third list holds what the first two hold, each in its order.
pub data Weaves {ℓ} {A : Type ℓ} : List A → List A → List A → Type ℓ where
  done : Weaves [] [] []
  left : {a : A} {l r m : List A} → Weaves l r m → Weaves (a ∷ l) r (a ∷ m)
  right : {a : A} {l r m : List A} → Weaves l r m → Weaves l (a ∷ r) (a ∷ m)

-- The same for any number of lists.
pub data Interleaves {ℓ} {A : Type ℓ} : List (List A) → List A → Type ℓ where
  none : Interleaves [] []
  more :
      {l m n : List A} {lists : List (List A)}
      → Weaves l m n
      → Interleaves lists m
      → Interleaves (l ∷ lists) n

module _ {ℓ} {A : Type ℓ} where
  abbrev pub join : List (List A) → List A
  join [] = []
  join (l ∷ lists) = l ++ join lists

  Weaves-Perm : {l r m : List A} → Weaves l r m → Perm m (l ++ r)
  Weaves-Perm done = Perm.nil
  Weaves-Perm (left {a} w) = Perm.cons a (Weaves-Perm w)
  Weaves-Perm (right {a} {l} {r} w) =
      Perm.trans (Perm.cons a (Weaves-Perm w)) (Perm.symm ∣ Permᴰ.middle a l r ∣₁)

  pub Interleaves-Perm :
      {lists : List (List A)} {m : List A} → Interleaves lists m → Perm m (join lists)
  Interleaves-Perm none = Perm.nil
  Interleaves-Perm (more {l} w rest) =
      Perm.trans (Weaves-Perm w) (Perm.append_left l (Interleaves-Perm rest))

module _ {A V : Type 0} (ids : A → List String) (serve : Platform → Request → Go Call (Answer A))
    (respond : Platform → V → List Call → List Call) (world : ℕ → Platform) where
  -- What the i-th client, and the nodes that the server responds to meanwhile, see of the server.
  unfoldable pub session : ℕ → List (Event V) → List (Outcome (Response A)) × List Call
  session i events = serve_all (with_any_cors (serve (world i))) (respond (world i)) events []

  -- What each client commits, and the transaction IDs in all answers.
  unfoldable pub commits : ℕ → List (List (Event V)) → List (List String)
  unfolding session
  commits i [] = []
  commits i (events ∷ others) = ledger (world i) (session i events).1 ∷ commits (suc i) others

  unfoldable pub told : ℕ → List (List (Event V)) → List String
  unfolding session
  told i [] = []
  told i (events ∷ others) = all_handed ids (session i events).0 ++ told (suc i) others

  join-commits :
      ((i : ℕ) (events : List (Event V))
        → ledger (world i) (session i events).1 ≡ all_handed ids (session i events).0 ++ [])
      → (i : ℕ) (clients : List (List (Event V))) → join (commits i clients) ≡ told i clients
  unfolding commits told
  join-commits each i [] = refl
  join-commits each i (events ∷ others) =
      ap (λ l. l ++ join (commits (suc i) others)) (each i events ∙ append-nil _)
      ∙ ap (λ l. all_handed ids (session i events).0 ++ l) (join-commits each (suc i) others)

  pub commits-told :
      ((i : ℕ) (events : List (Event V))
        → ledger (world i) (session i events).1 ≡ all_handed ids (session i events).0 ++ [])
      → (clients : List (List (Event V))) (all : List String) → Interleaves (commits 0 clients) all
      → Perm all (told 0 clients)
  commits-told each clients all woven =
      subst (λ l. Perm all l) (join-commits each 0 clients) (Interleaves-Perm woven)
