-- ===== src/Prelude/Texts.antt =====
-- `strings.Contains` and `strings.HasPrefix`.
use mathlib.Core.Bool.{Bool, true, false}
use mathlib.Core.Option.{none, some}
use Prim.Native.String.{String}
use text.Mathlib.Text.{find?, starts_with}

-- `strings.Contains(s, part)`
abbrev pub contains : String → String → Bool
contains s part = elim (find? s part) [ none ↦ false | some _ ↦ true ]

-- `strings.HasPrefix(s, prefix)`
abbrev pub has_prefix : String → String → Bool
has_prefix s prefix = starts_with s prefix
