-- ===== src/Store/Policies/Upsert.antt =====
-- UpsertPolicy (store/policies.go) replaces by name.
use jitsudo.Prelude.{
  ◌≡◌, Option, none, some, String, str_eq, eq_iff, List, [], ◌∷◌, arith, if◌then◌else◌,
}
use jitsudo.Rows.{PolicyRow}
use jitsudo.Store.Policies.{has_name, find_policy, upsert_row}

-- The row under the name of `new`: the id and the creation of an old row of that name stay.
abbrev pub merged : PolicyRow → Option PolicyRow → PolicyRow
merged new none = new
merged new (some old) = record new { id = old.id; created_at = old.created_at }

-- After an upsert, the policy under its name has the new content, with the id and the creation time
-- of the policy that had the name before; the policy under every other name is as it was.
pub find-upsert_row :
    (new : PolicyRow) (name : String) (l : List PolicyRow)
    → find_policy (has_name name) (upsert_row new l) ≡ (
        if str_eq new.name name
        then some (merged new (find_policy (has_name name) l))
        else find_policy (has_name name) l)
unfolding find_policy upsert_row
find-upsert_row new name [] = ground arith
find-upsert_row new name (p ∷ ps) = ground (
  arith,
  find-upsert_row new name ps,
  eq_iff p.name new.name,
  eq_iff p.name name,
  eq_iff new.name name,
)
