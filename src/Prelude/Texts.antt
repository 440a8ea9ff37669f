-- ===== src/Prelude/Texts.antt =====
-- Texts searched and cut as Go's package strings does it.
use Prim.Native.String.{String, len, slice, ◌++◌}
use mathlib.Core.List.{List, [], ◌∷◌}
use Prim.Native.Nat.{◌-◌}
use mathlib.Core.Bool.{Bool, false}
use mathlib.Core.Option.{none, some}
use mathlib.Core.Path.{◌≡◌, sym, ◌∙◌}
use mathlib.Core.Logic.{◌≢◌, ◌⊎◌, inl, inr}
use jitsudo.Prelude.Tests.{is_some, if◌then◌else◌, Bool-cases, not_false}
use text.Mathlib.TextEquality.{eq_iff}
use text.Mathlib.Text.{◌==◌, get?, find?, starts_with}

-- strings.Contains
abbrev pub contains : String → String → Bool
contains s t = is_some (find? s t)

-- strings.HasSuffix
abbrev pub has_suffix : String → String → Bool
has_suffix s t = elim (get? s (len s - len t) (len s)) [ none ↦ false | some u ↦ u == t ]

-- strings.TrimPrefix
abbrev pub trim_prefix : String → String → String
trim_prefix s p = if starts_with s p then slice s (len p) (len s) else s

-- The texts of a list, one after the other.
abbrev pub texts : List String → String
texts [] = ""
texts (t ∷ ts) = t ++ texts ts

pub String-cases : (a b : String) → (a ≡ b) ⊎ (a ≢ b)
String-cases a b = elim (Bool-cases (a == b)) [
  | inl same ↦ inl ((eq_iff a b).0 same)
  | inr other ↦ inr (λ h. not_false (sym ((eq_iff a b).1 h) ∙ other))
]
