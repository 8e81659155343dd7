-- ===== src/Tokens/Http/Mux.antt =====
-- What `HandlerWithOptions` of the generated code relies on of `http.ServeMux`: patterns of a method and
-- a path whose segments are literals or a wildcard. A request's path is given by its unescaped
-- segments; a request whose path is not clean is redirected before it comes here.
use fabric_x_samples.Prelude.{
  String, Bool, true, false, ◌&&◌, ◌||◌, Option, none, some, List, [], ◌∷◌, ◌==◌, if◌then◌else◌,
}

pub data Segment : Type 0 where
  literal : String → Segment
  wildcard : Segment

-- A call of `m.HandleFunc`, with the operation that it registers.
pub record Route {ℓ} (E : Type ℓ) : Type ℓ where
  pub method : String
  pub pattern : List Segment
  pub operation : E

-- Where a request goes: to an operation with the values of its wildcards, or to the answers of the mux
-- with status 405 or 404.
pub data Target {ℓ} (E : Type ℓ) : Type ℓ where
  found : E → List String → Target E
  method_not_allowed not_found : Target E

-- `none.map`, `some.map` of the values behind a wildcard
abbrev capture : String → Option (List String) → Option (List String)
capture s none = none
capture s (some values) = some (s ∷ values)

-- A wildcard takes one segment that is not empty.
abbrev pub match : List Segment → List String → Option (List String)
match [] [] = some []
match [] (s ∷ path) = none
match (p ∷ pattern) [] = none
match (literal text ∷ pattern) (s ∷ path) = if text == s then match pattern path else none
match (wildcard ∷ pattern) (s ∷ path) = if s == "" then none else capture s (match pattern path)

-- A pattern for GET is one for HEAD, too.
abbrev pub accepts : String → String → Bool
accepts method m = method == m || method == "GET" && m == "HEAD"

abbrev pub is_some : Option (List String) → Bool
is_some none = false
is_some (some values) = true

module _ {ℓ} {E : Type ℓ} where
  -- What is said of a request that no pattern accepts: whether the path is that of another method.
  unfoldable pub missing : List (Route E) → List String → Bool → Target E
  missing [] path known = if known then method_not_allowed else not_found
  missing (r ∷ routes) path known = missing routes path (known || is_some (match r.pattern path))

  -- The first of the routes that accepts the request.
  unfoldable pub select : List (Route E) → String → List String → Option (E × List String)
  select [] method path = none
  select (r ∷ routes) method path =
      let rest = select routes method path in
      if accepts r.method method
      then elim (match r.pattern path) [ none ↦ rest | some values ↦ some (r.operation, values) ]
      else rest

  abbrev pub chosen : Option (E × List String) → Target E → Target E
  chosen none otherwise = otherwise
  chosen (some (operation, values)) otherwise = found operation values

  -- `ServeMux.ServeHTTP`, up to the handler.
  unfoldable pub dispatch : List (Route E) → String → List String → Target E
  unfolding select missing
  dispatch routes method path = chosen (select routes method path) (missing routes path false)
