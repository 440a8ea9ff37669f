-- ===== src/Providers/Aws/Text.antt =====
-- The texts of aws.go: the role's ARN, the session's name, the tag with the reason.
use Prim.Native.Char.{code}
use Prim.Native.String.{String, len, slice, ◌++◌}
use jitsudo.Prelude.{
  ℕ, zero, suc, Bool, true, false, ◌&&◌, ◌||◌, Option, none, some, ◌==◌, ltb, leb, if◌then◌else◌,
}
use text.Mathlib.Text.{starts_with}

-- strings.NewReplacer("{scope}", scope, "{role}", role): one pass, which does not read again what it
-- has put in. The number is how many characters of a match are left to skip.
unfoldable pub replace : String → String → ℕ → String → String
replace scope role skip String.[] = String.[]
replace scope role (suc skip) (String.◌∷◌ c s) = replace scope role skip s
replace scope role zero (String.◌∷◌ c s) = elim (starts_with (String.◌∷◌ c s) "{scope}") [
  | true ↦ scope ++ replace scope role 6 s
  | false ↦ elim (starts_with (String.◌∷◌ c s) "{role}") [
    | true ↦ role ++ replace scope role 5 s
    | false ↦ String.◌∷◌ c (replace scope role 0 s)
  ]
]

-- [A-Za-z0-9+=,.@_-]
abbrev pub is_allowed : ℕ → Bool
is_allowed c =
    (leb b'A' c && leb c b'Z')
    || (leb b'a' c && leb c b'z')
    || (leb b'0' c && leb c b'9')
    || c == b'+'
    || c == b'='
    || c == b','
    || c == b'.'
    || c == b'@'
    || c == b'-'
    || c == b'_'

unfoldable pub sanitize : String → String
sanitize String.[] = String.[]
sanitize (String.◌∷◌ c s) = String.◌∷◌ (if is_allowed (code c) then c else "-") (sanitize s)

-- if len(s) > n { s = s[:n] }
unfoldable pub cut : ℕ → String → String
cut n s = if ltb n (len s) then slice s 0 n else s

-- What stands after the last '/', if there is one.
pub last_segment : String → Option String
last_segment String.[] = none
last_segment (String.◌∷◌ c s) = elim (last_segment s) [
  | some name ↦ some name
  | none ↦ if code c == b'/' then some s else none
]

-- string([]rune(s)[:n]), or all of it
unfoldable pub take_runes : ℕ → String → String
take_runes zero s = String.[]
take_runes (suc n) String.[] = String.[]
take_runes (suc n) (String.◌∷◌ c s) = String.◌∷◌ c (take_runes n s)
