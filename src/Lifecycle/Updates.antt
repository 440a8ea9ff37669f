-- ===== src/Lifecycle/Updates.antt =====
-- What the UPDATEs of internal/store/requests.go do to one row and to a database.
use mathlib.Core.Option.{some-injective}
use jitsudo.Prelude.{
  ℕ, ◌≡◌, refl, true, Option, none, some, String, str_eq, eq_iff, [], Bool-cases, Option-cases, inl,
  inr,
}
use jitsudo.Rows.{State, RequestRow, RequestUpdate}
use jitsudo.World.{Db}
use jitsudo.Store.Requests.{updated_row, keep, stored_time, tier_row}
use jitsudo.Store.Requests.Table.{find_request, update_request, find-update, update-IsKeyed}
use jitsudo.Lifecycle.{
  ◌⟶◌, here, step, Follows, Follows-refl, has_deadline, IsSoundRow, IsSound, Evolves,
}

-- A transition of the engine with the update that it comes with: an activation sets the deadline.
pub record IsLegal (from to : State) (u : RequestUpdate) : Type 0 where
  pub edge : from ⟶ to
  pub deadline :
      (old : Option ℕ)
      → has_deadline from old ≡ true
      → has_deadline to (keep (stored_time u.expires_at) old) ≡ true

pub updated_row-Follows :
    (from to : State) (u : RequestUpdate) (now : ℕ) (r : RequestRow)
    → r.state ≡ from
    → from ⟶ to
    → Follows r (updated_row to u now r)
unfolding updated_row
updated_row-Follows from to u now r e edge = record {
  id = refl;
  requester_identity = refl;
  provider = refl;
  role = refl;
  resource_scope = refl;
  duration_seconds = refl;
  reason = refl;
  break_glass = refl;
  metadata = refl;
  created_at = refl;
  path = rw e (step edge here);
}

pub tier_row-Follows : (tier : String) (now : ℕ) (r : RequestRow) → Follows r (tier_row tier now r)
tier_row-Follows tier now r = record {
  id = refl;
  requester_identity = refl;
  provider = refl;
  role = refl;
  resource_scope = refl;
  duration_seconds = refl;
  reason = refl;
  break_glass = refl;
  metadata = refl;
  created_at = refl;
  path = here;
}

pub updated_row-IsSoundRow :
    (from to : State) (u : RequestUpdate) (now : ℕ) (r : RequestRow)
    → r.state ≡ from
    → IsLegal from to u
    → IsSoundRow r
    → IsSoundRow (updated_row to u now r)
unfolding updated_row
updated_row-IsSoundRow from to u now r e legal s = record {
  deadline = legal.deadline r.expires_at (rw e at s.deadline);
  tier = s.tier;
}

pub absurd_some {ℓ} : {A : Type 0} {B : Type ℓ} {a : A} → none ≡ some a → B
absurd_some h = cc

-- An UPDATE of one row.
abbrev pub update_at : String → (RequestRow → RequestRow) → Db → Db
update_at i f d = record d { requests = update_request i f d.requests }

module _ (sha : String → String) (i : String) (f : RequestRow → RequestRow) (d : Db)
    (same_id : (r : RequestRow) → (f r).id ≡ r.id)
    (follows : (r : RequestRow) → find_request i d.requests ≡ some r → Follows r (f r))
    (sound : (r : RequestRow)
      → find_request i d.requests ≡ some r
      → IsSoundRow r
      → IsSoundRow (f r)) where
  updated :
      (j : String) (r : RequestRow)
      → find_request j d.requests ≡ some r
      → (r' : RequestRow) × (find_request j (update_request i f d.requests) ≡ some r')
        × Follows r r'
  updated j r e = elim (Bool-cases (str_eq i j)) [
    | inl same ↦ (
      f r,
      rw (find-update i j f d.requests same_id, same, e) refl,
      follows r (rw ((eq_iff i j).0 same) e),
    )
    | inr different ↦ (r, rw (find-update i j f d.requests same_id, different) e, Follows-refl r)
  ]

  updated_sound :
      IsSound sha d
      → (j : String) (r : RequestRow) → find_request j (update_request i f d.requests) ≡ some r
      → IsSoundRow r
  updated_sound s j r e = elim (Bool-cases (str_eq i j)) [
    | inl same ↦ elim (Option-cases (find_request j d.requests)) [
      | inl absent ↦ absurd_some (rw (find-update i j f d.requests same_id, same, absent) at e)
      | inr (old, found) ↦
          let h : some (f old) ≡ some r =
            rw (find-update i j f d.requests same_id, same, found) at e in
          rw (← some-injective (f old) r h)
            (sound old (rw ((eq_iff i j).0 same) found) (s.rows j old found))
    ]
    | inr different ↦ s.rows j r (rw (find-update i j f d.requests same_id, different) at e)
  ]

  pub Evolves-update : Evolves sha d (update_at i f d)
  Evolves-update = record {
    requests = updated;
    log = ([], refl);
    sound = λ s. record {
      chain = s.chain;
      keys = update-IsKeyed i f d.requests same_id s.keys;
      rows = updated_sound s;
    };
  }
