-- ===== src/Workflow/Effects.antt =====
-- What the engine does outside its database: the provider calls and the notifications, newest
-- first, for functions that have none and functions that have some.
use jitsudo.Prelude.{◌≡◌, refl, sym, ◌∙◌, String, List, [], ◌++◌}
use mathlib.Core.List.{append_assoc}
use jitsudo.Rows.{State, RequestRow, RequestUpdate}
use jitsudo.Audit.{Entry}
use jitsudo.Store.Principals.{upsert_principal_last_seen}
use jitsudo.Store.Requests.{
  get_request, insert_checked, create_request, transition_locked, transition_request,
}
use jitsudo.Workflow.{append_audit}
use jitsudo.Workflow.AuditFrame.{append_audit-Guarantees}
use jitsudo.World.{Effect, Db, World, Env, modify}
use jitsudo.World.Keeps.{Guarantees, Rely, Guarantees-modify, guarantee_rules}

-- No effect outside.
abbrev pub Silent : World → World → Type 0
Silent v w = w.effects ≡ v.effects

-- Effects come on top of those before.
abbrev pub Extends : World → World → Type 0
Extends v w = (new : List Effect) × (w.effects ≡ new ++ v.effects)

pub rely-Silent : (env : Env) → Rely env Silent
rely-Silent env = record {
  same = λ w. refl;
  after = λ u v w p q. q ∙ p;
  asked = λ w. refl;
  others = λ w. refl;
}

pub rely-Extends : (env : Env) → Rely env Extends
rely-Extends env = record {
  same = λ w. ([], refl);
  after = λ u v w p q. (q.0 ++ p.0, q.1 ∙ rw (p.1) (sym (append_assoc q.0 p.0 u.effects)));
  asked = λ w. ([], refl);
  others = λ w. ([], refl);
}

-- The store, the audit log and the policy engine keep every relation that allows any change of the
-- database.
module _ {env : Env} {R : World → World → Type 0} (rely : Rely env R)
    (blind : (w : World) (d : Db) → R w (record w { db = d })) where
  modify-blind : (f : Db → Db) → Guarantees R (modify f)
  modify-blind f = Guarantees-modify f λ w. blind w (f w.db)

  get_request-blind : (id : String) → Guarantees R (get_request env id)
  unfolding get_request
  get_request-blind id = search guarantee_rules depth 8

  transition_locked-blind :
      (id : String) (from to : State) (u : RequestUpdate)
      → Guarantees R (transition_locked env id from to u)
  unfolding transition_locked
  transition_locked-blind id from to u = search (guarantee_rules, modify-blind) depth 12

  pub transition-blind :
      (id : String) (from to : State) (u : RequestUpdate)
      → Guarantees R (transition_request env id from to u)
  unfolding transition_request
  transition-blind id from to u =
      search (guarantee_rules, transition_locked-blind, get_request-blind) depth 8

  insert_checked-blind : (req : RequestRow) → Guarantees R (insert_checked env req)
  unfolding insert_checked
  insert_checked-blind req = search (guarantee_rules, modify-blind) depth 8

  pub create_request-blind : (req : RequestRow) → Guarantees R (create_request env req)
  unfolding create_request
  create_request-blind req = search (guarantee_rules, insert_checked-blind) depth 8

  pub append_audit-blind : (e : Entry) → Guarantees R (append_audit env e)
  append_audit-blind =
      append_audit-Guarantees rely
        λ w n l. blind w (record w.db { next_audit_id = n; audit_events = l })

  upsert_seen-blind : (id : String) → Guarantees R (upsert_principal_last_seen env id)
  unfolding upsert_principal_last_seen
  upsert_seen-blind id = search (guarantee_rules, modify-blind) depth 8

pub transition-Silent :
    (env : Env) (id : String) (from to : State) (u : RequestUpdate)
    → Guarantees Silent (transition_request env id from to u)
transition-Silent env = transition-blind (rely-Silent env) λ w d. refl

pub append_audit-Silent : (env : Env) (e : Entry) → Guarantees Silent (append_audit env e)
append_audit-Silent env = append_audit-blind (rely-Silent env) λ w d. refl

pub create_request-Silent :
    (env : Env) (req : RequestRow) → Guarantees Silent (create_request env req)
create_request-Silent env = create_request-blind (rely-Silent env) λ w d. refl

pub upsert_seen-Silent :
    (env : Env) (id : String) → Guarantees Silent (upsert_principal_last_seen env id)
upsert_seen-Silent env = upsert_seen-blind (rely-Silent env) λ w d. refl

pub transition-Extends :
    (env : Env) (id : String) (from to : State) (u : RequestUpdate)
    → Guarantees Extends (transition_request env id from to u)
transition-Extends env = transition-blind (rely-Extends env) λ w d. ([], refl)
