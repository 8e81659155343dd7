-- ===== src/Tokens/Http/Patterns.antt =====
-- When a request reaches an operation: exactly if the pattern of the operation, with the values of its
-- wildcards put in, is the request's path, provided that no two patterns overlap.
use fabric_x_samples.Prelude.{
  String, Bool, true, false, ◌&&◌, ◌||◌, not, some, List, [], ◌∷◌, ◌==◌, ◌≡◌, ◌≢◌, ◌⊎◌, ◌↔◌, inl,
  inr, refl, arith, eq_iff, Option-cases,
}
use fabric_x_samples.Tokens.Http.Mux.{
  Segment, literal, wildcard, Route, found, method_not_allowed, not_found, match, accepts, select,
  missing, is_some, dispatch,
}

-- The path is the pattern with the values in place of the wildcards; no value is empty.
abbrev pub IsFilled : List Segment → List String → List String → Type 0
IsFilled [] [] [] = Unit
IsFilled [] (v ∷ values) path = ⊥
IsFilled [] [] (s ∷ path) = ⊥
IsFilled (p ∷ pattern) values [] = ⊥
IsFilled (literal text ∷ pattern) values (s ∷ path) = (text ≡ s) × IsFilled pattern values path
IsFilled (wildcard ∷ pattern) [] (s ∷ path) = ⊥
IsFilled (wildcard ∷ pattern) (v ∷ values) (s ∷ path) =
    (v ≡ s) × (s ≢ "") × IsFilled pattern values path

pub match_iff :
    (pattern : List Segment) (path values : List String)
    → (match pattern path ≡ some values) ↔ IsFilled pattern values path
match_iff [] [] [] = ground arith
match_iff [] [] (v ∷ values) = ground arith
match_iff [] (s ∷ path) [] = ground arith
match_iff [] (s ∷ path) (v ∷ values) = ground arith
match_iff (p ∷ pattern) [] values = ground arith
match_iff (literal text ∷ pattern) (s ∷ path) values =
    ground (arith, eq_iff text s, match_iff pattern path values)
match_iff (wildcard ∷ pattern) (s ∷ path) [] = ground (arith, eq_iff s "")
match_iff (wildcard ∷ pattern) (s ∷ path) (v ∷ values) =
    ground (arith, eq_iff s "", match_iff pattern path values)

-- Two segments that no text fits both, and two patterns that no path fits both.
abbrev apart : Segment → Segment → Bool
apart (literal a) (literal b) = not (a == b)
apart (literal a) wildcard = false
apart wildcard q = false

abbrev disjoint : List Segment → List Segment → Bool
disjoint [] [] = false
disjoint [] (q ∷ qs) = true
disjoint (p ∷ ps) [] = true
disjoint (p ∷ ps) (q ∷ qs) = apart p q || disjoint ps qs

disjoint-IsFilled :
    (ps qs : List Segment) (path vs ws : List String)
    → disjoint ps qs ≡ true
    → IsFilled ps vs path
    → ¬ IsFilled qs ws path
disjoint-IsFilled [] (q ∷ qs) [] vs ws d f = λ g. g
disjoint-IsFilled [] qs (s ∷ path) [] ws d f = absurd f
disjoint-IsFilled [] qs path (v ∷ vs) ws d f = absurd f
disjoint-IsFilled [] [] [] [] ws d f = cc
disjoint-IsFilled (p ∷ ps) qs [] vs ws d f = absurd f
disjoint-IsFilled (p ∷ ps) [] (s ∷ path) vs [] d f = λ g. g
disjoint-IsFilled (p ∷ ps) [] (s ∷ path) vs (w ∷ ws) d f = λ g. g
disjoint-IsFilled (literal a ∷ ps) (literal b ∷ qs) (s ∷ path) vs ws d f =
    ground (arith, eq_iff a b, disjoint-IsFilled ps qs path vs ws)
disjoint-IsFilled (literal a ∷ ps) (wildcard ∷ qs) (s ∷ path) vs [] d f = λ g. g
disjoint-IsFilled (literal a ∷ ps) (wildcard ∷ qs) (s ∷ path) vs (w ∷ ws) d f =
    λ g. disjoint-IsFilled ps qs path vs ws d f.1 g.2
disjoint-IsFilled (wildcard ∷ ps) (q ∷ qs) (s ∷ path) [] ws d f = absurd f
disjoint-IsFilled (wildcard ∷ ps) (literal b ∷ qs) (s ∷ path) (v ∷ vs) ws d f =
    λ g. disjoint-IsFilled ps qs path vs ws d f.2 g.1
disjoint-IsFilled (wildcard ∷ ps) (wildcard ∷ qs) (s ∷ path) (v ∷ vs) [] d f = λ g. g
disjoint-IsFilled (wildcard ∷ ps) (wildcard ∷ qs) (s ∷ path) (v ∷ vs) (w ∷ ws) d f =
    λ g. disjoint-IsFilled ps qs path vs ws d f.2 g.2

-- Some method is accepted by both.
abbrev overlap : String → String → Bool
overlap a b = a == b || accepts a b || accepts b a

accepts-overlap : (a b m : String) → accepts a m ≡ true → accepts b m ≡ true → overlap a b ≡ true
accepts-overlap a b m p q = ground (
  arith,
  eq_iff a b,
  eq_iff a m,
  eq_iff b m,
  eq_iff b a,
  eq_iff m "HEAD",
  eq_iff a "HEAD",
  eq_iff b "HEAD",
  eq_iff a "GET",
  eq_iff b "GET",
)

module _ {E : Type 0} where
  -- No request fits both routes.
  abbrev separate : Route E → Route E → Bool
  separate r s = not (overlap r.method s.method) || disjoint r.pattern s.pattern

  abbrev separate_from : Route E → List (Route E) → Bool
  separate_from r [] = true
  separate_from r (s ∷ routes) = separate r s && separate_from r routes

  -- `HandleFunc` panics at a pattern that overlaps another one; here no two do.
  abbrev pub conflict_free : List (Route E) → Bool
  conflict_free [] = true
  conflict_free (r ∷ routes) = separate_from r routes && conflict_free routes

  abbrev Fits : Route E → String → List String → E → List String → Type 0
  Fits r method path e values =
      (accepts r.method method ≡ true) × (r.operation ≡ e) × IsFilled r.pattern values path

  -- One of the routes is for this operation, accepts the method, and has the path with these values.
  abbrev pub Serves : List (Route E) → String → List String → E → List String → Type 0
  Serves [] method path e values = ⊥
  Serves (r ∷ routes) method path e values =
      Fits r method path e values ⊎ Serves routes method path e values

  separate-Fits :
      (r s : Route E) (method : String) (path vs ws : List String) (e f : E)
      → separate r s ≡ true
      → Fits r method path e vs
      → ¬ Fits s method path f ws
  separate-Fits r s method path vs ws e f apart fits other = ground (
    arith,
    accepts-overlap r.method s.method method,
    disjoint-IsFilled r.pattern s.pattern path vs ws,
  )

  separate-Serves :
      (r : Route E) (routes : List (Route E)) (method : String) (path vs ws : List String) (e f : E)
      → separate_from r routes ≡ true
      → Fits r method path e vs
      → ¬ Serves routes method path f ws
  separate-Serves r [] method path vs ws e f apart fits other = other
  separate-Serves r (s ∷ routes) method path vs ws e f apart fits (inl other) =
      separate-Fits r s method path vs ws e f (ground arith) fits other
  separate-Serves r (s ∷ routes) method path vs ws e f apart fits (inr other) =
      separate-Serves r routes method path vs ws e f (ground arith) fits other

  select-Serves :
      (routes : List (Route E)) (method : String) (path values : List String) (e : E)
      → select routes method path ≡ some (e, values)
      → Serves routes method path e values
  unfolding select
  select-Serves [] method path values e h = cc
  select-Serves (r ∷ routes) method path values e h =
      ground (arith, match_iff r.pattern path values, select-Serves routes method path values e)

  Serves-select :
      (routes : List (Route E)) (method : String) (path values : List String) (e : E)
      → conflict_free routes ≡ true
      → Serves routes method path e values
      → select routes method path ≡ some (e, values)
  unfolding select
  Serves-select [] method path values e free serves = absurd serves
  Serves-select (r ∷ routes) method path values e free (inl fits) =
      ground (arith, match_iff r.pattern path values)
  Serves-select (r ∷ routes) method path values e free (inr serves) =
      elim (Option-cases (match r.pattern path)) [
        | inl e₀ ↦ ground (arith, Serves-select routes method path values e, e₀)
        | inr (ws, fits) ↦ ground (
          arith,
          fits,
          match_iff r.pattern path ws,
          Serves-select routes method path values e,
          separate-Serves r routes method path ws values r.operation e,
        )
      ]

  missing_refuses :
      (routes : List (Route E)) (path : List String) (known : Bool)
      → (missing routes path known ≡ not_found) ⊎ (missing routes path known ≡ method_not_allowed)
  unfolding missing
  missing_refuses [] path true = inr refl
  missing_refuses [] path false = inl refl
  missing_refuses (r ∷ routes) path known =
      missing_refuses routes path (known || is_some (match r.pattern path))

  -- A request reaches an operation exactly if a route of the operation fits it, if no two overlap.
  pub dispatch_iff :
      (routes : List (Route E)) (method : String) (path values : List String) (e : E)
      → conflict_free routes ≡ true
      → (dispatch routes method path ≡ found e values) ↔ Serves routes method path e values
  unfolding dispatch
  dispatch_iff routes method path values e free = ground (
    arith,
    missing_refuses routes path false,
    select-Serves routes method path values e,
    Serves-select routes method path values e,
  )
