-- ===== src/Policy/Program.antt =====
-- The program that a query is compiled from (policy.go): one file for each policy, or one that denies.
use jitsudo.Prelude.{
  ℕ, ◌≡◌, refl, sym, ◌∙◌, Bool, true, false, Option, none, some, String, str_eq, str_append, eq_iff,
  List, [], ◌∷◌, ◌++◌, arith, if◌then◌else◌, Bool-cases, inl, inr, ◌&&◌, select, order_by,
}
use jitsudo.Rows.{PolicyType, eligibility, approval, PolicyRow}
use jitsudo.Policy.{Modules, put_module, module_map, or_default, with_proposed}
use jitsudo.Store.Policies.{policy_type_eq, by_name}
use jitsudo.World.{PreparedQuery, Db, Env}

-- The text of a file.
abbrev pub file : String → Modules → Option String
file f [] = none
file f ((n, text) ∷ ms) = if str_eq n f then some text else file f ms

-- The text that the policies give a file: the last policy with its name.
abbrev pub source : String → List PolicyRow → Option String
source f [] = none
source f (p ∷ ps) = elim (source f ps) [
  | some text ↦ some text
  | none ↦ if str_eq (str_append p.name ".rego") f then some p.rego else none
]

abbrev pub denial : PolicyType → String
denial eligibility = "package jitsudo.eligibility\ndefault allow := false"
denial approval = "package jitsudo.approval\ndefault allow := false"

-- The modules are the sources of exactly these policies, or deny where there are none.
abbrev pub IsProgram : PolicyType → List PolicyRow → Modules → Type 0
IsProgram ptype [] ms = ms ≡ ("default_deny.rego", denial ptype) ∷ []
IsProgram ptype (p ∷ ps) ms = (f : String) → file f ms ≡ source f (p ∷ ps)

-- OPA has compiled the query over these policies.
abbrev pub IsCompiled : Env → PolicyType → String → List PolicyRow → Type 0
IsCompiled env ptype query ps =
    (q : PreparedQuery) × (q.query ≡ query)
    × IsProgram ptype ps q.modules
    × (n : ℕ) × (env.prepare n q ≡ none)

-- And every query that the engine asks of policies of the type.
abbrev pub AreCompiled : Env → PolicyType → List PolicyRow → Type 0
AreCompiled env eligibility ps = IsCompiled env eligibility "data.jitsudo.eligibility.allow" ps
AreCompiled env approval ps =
    IsCompiled env approval "data.jitsudo.approval.allow" ps
    × IsCompiled env approval "data.jitsudo.approval.approver_tier" ps

-- The enabled policies of a type, by name.
abbrev pub enabled : PolicyType → Db → List PolicyRow
enabled ptype d =
    order_by by_name (select (λ p. policy_type_eq p.type ptype && p.enabled) d.policies)

file-put_module :
    (f name src : String) (ms : Modules)
    → file f (put_module name src ms) ≡ (if str_eq name f then some src else file f ms)
unfolding put_module
file-put_module f name src [] = refl
file-put_module f name src ((n, s) ∷ ms) =
    ground (arith, file-put_module f name src ms, eq_iff n name, eq_iff n f, eq_iff name f)

abbrev or_else : Option String → Option String → Option String
or_else (some t) u = some t
or_else none u = u

file-module_map :
    (f : String) (ps : List PolicyRow) (ms : Modules)
    → file f (module_map ms ps) ≡ or_else (source f ps) (file f ms)
unfolding module_map
file-module_map f [] ms = refl
file-module_map f (p ∷ ps) ms = ground (
  arith,
  file-module_map f ps (put_module (str_append p.name ".rego") p.rego ms),
  file-put_module f (str_append p.name ".rego") p.rego ms,
)

IsFilled : Modules → Type 0
IsFilled ms = (m : String × String) × (rest : Modules) × (ms ≡ m ∷ rest)

put_module-IsFilled : (name src : String) (ms : Modules) → IsFilled (put_module name src ms)
unfolding put_module IsFilled
put_module-IsFilled name src [] = ((name, src), [], refl)
put_module-IsFilled name src ((n, s) ∷ ms) = elim (Bool-cases (str_eq n name)) [
  | inl same ↦ ((name, src), ms, rw same refl)
  | inr other ↦ ((n, s), put_module name src ms, rw other refl)
]

module_map-IsFilled :
    (ps : List PolicyRow) (ms : Modules) → IsFilled ms → IsFilled (module_map ms ps)
unfolding module_map
module_map-IsFilled [] ms filled = filled
module_map-IsFilled (p ∷ ps) ms filled =
    module_map-IsFilled ps (put_module (str_append p.name ".rego") p.rego ms)
      (put_module-IsFilled (str_append p.name ".rego") p.rego ms)

or_default-IsFilled : (ptype : PolicyType) (ms : Modules) → IsFilled ms → or_default ptype ms ≡ ms
unfolding IsFilled
or_default-IsFilled ptype ms (m, rest, is_filled) = rw is_filled refl

or_else-none : (o : Option String) → or_else o none ≡ o
or_else-none none = refl
or_else-none (some t) = refl

pub modules-IsProgram :
    (ptype : PolicyType) (ps : List PolicyRow)
    → IsProgram ptype ps (or_default ptype (module_map [] ps))
unfolding module_map
modules-IsProgram eligibility [] = refl
modules-IsProgram approval [] = refl
modules-IsProgram ptype (p ∷ ps) = λ f.
    rw
      (or_default-IsFilled ptype (module_map [] (p ∷ ps)) (
        module_map-IsFilled ps (put_module (str_append p.name ".rego") p.rego [])
          (put_module-IsFilled (str_append p.name ".rego") p.rego [])))
      (file-module_map f (p ∷ ps) [] ∙ or_else-none (source f (p ∷ ps)))

-- The policies of a check: the enabled ones, and the proposed one after them if it is enabled.
abbrev pub with_row : PolicyRow → List PolicyRow → List PolicyRow
with_row p ps = if p.enabled then ps ++ (p ∷ []) else ps

module_map-append :
    (ps : List PolicyRow) (p : PolicyRow) (ms : Modules)
    → module_map ms (ps ++ (p ∷ []))
      ≡ put_module (str_append p.name ".rego") p.rego (module_map ms ps)
unfolding module_map
module_map-append [] p ms = refl
module_map-append (q ∷ ps) p ms =
    module_map-append ps p (put_module (str_append q.name ".rego") q.rego ms)

put_if :
    (b : Bool) (p : PolicyRow) (ps : List PolicyRow)
    → (if b
        then put_module (str_append p.name ".rego") p.rego (module_map [] ps)
        else module_map [] ps)
      ≡ module_map [] (if b then ps ++ (p ∷ []) else ps)
put_if true p ps = sym (module_map-append ps p [])
put_if false p ps = refl

pub with_proposed-with_row :
    (p : PolicyRow) (ps : List PolicyRow)
    → with_proposed p (module_map [] ps) ≡ module_map [] (with_row p ps)
with_proposed-with_row p ps = put_if p.enabled p ps
