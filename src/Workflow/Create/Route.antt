-- ===== src/Workflow/Create/Route.antt =====
-- A request that policies allow and that waits for an approver.
use jitsudo.Prelude.{
  ℕ, ◌+◌, ◌≡◌, refl, ap, true, false, none, some, String, str_eq, eq_refl, str_append,
}
use jitsudo.Prelude.Int.{ℤ}
use jitsudo.Rows.{RequestRow}
use jitsudo.Audit.{entry_row}
use jitsudo.Policy.{Identity, eval_eligibility, eval_approval_tier}
use jitsudo.Policy.Frame.{eval_eligibility-Guarantees, eval_approval_tier-Guarantees}
use jitsudo.Policy.Tier.{eval_approval_tier-is_tier}
use jitsudo.Providers.{Provider, Registry, get}
use jitsudo.Store.Principals.{upsert_principal_last_seen}
use jitsudo.Store.Requests.{
  is_tier, inserted_row, insert_checked, insert_request as insert_row, or_human,
  create_request as insert_request,
}
use jitsudo.Store.Requests.Table.{find_request}
use jitsudo.Workflow.{notify}
use jitsudo.Workflow.Create.{
  CreateRequestInput, new_row, validation_request, route_by_tier, create_break_glass,
  create_by_policy, create_request,
}
use jitsudo.Workflow.Create.Waiting.{
  IsWaiting, eligibility_of, tier_of, else_of, or_human-same, or_human-is_tier,
}
use jitsudo.Workflow.Quiet.Append.{append_audit_quiet}
use jitsudo.Workflow.Quiet.Issue.{rely-OnlyCalls}
use jitsudo.World.{ok, World, Env, raise_if, ◌>>=◌}
use jitsudo.World.Quiet.{IsQuiet, db_call_quiet}

module _ {env : Env} (quiet : IsQuiet env) where
  abbrev seen_world : String → World → World
  seen_world email w = record w {
    db = record w.db { principals = (upsert_principal_last_seen env email w).1.db.principals };
    calls = w.calls + 1 + 1;
  }

  seen_quiet :
      (email : String) (w : World)
      → upsert_principal_last_seen env email w ≡ (ok tt, seen_world email w)
  unfolding upsert_principal_last_seen ◌>>=◌
  seen_quiet email w = rw (db_call_quiet quiet w)

  eligible_quiet :
      (who : Identity) (p r s : String) (n : ℤ) (w : World) (reason : String)
      → (eval_eligibility env who p r s n w).0 ≡ ok (true, reason)
      → eval_eligibility env who p r s n w
        ≡ (ok (true, reason), record w { calls = (eval_eligibility env who p r s n w).1.calls })
  eligible_quiet who p r s n w reason h = rw (← h) (
      ap (λ v. ((eval_eligibility env who p r s n w).0, v))
        ((eval_eligibility-Guarantees (rely-OnlyCalls quiet) who p r s n).at w))

  tier_quiet :
      (who : Identity) (p r s : String) (n : ℤ) (w : World) (tier : String)
      → (eval_approval_tier env who p r s n w).0 ≡ ok tier
      → eval_approval_tier env who p r s n w
        ≡ (ok tier, record w { calls = (eval_approval_tier env who p r s n w).1.calls })
  tier_quiet who p r s n w tier h = rw (← h) (
      ap (λ v. ((eval_approval_tier env who p r s n w).0, v))
        ((eval_approval_tier-Guarantees (rely-OnlyCalls quiet) who p r s n).at w))

  insert_quiet :
      (req : RequestRow) (w : World)
      → is_tier (or_human req.approver_tier) ≡ true
      → find_request req.id w.db.requests ≡ none
      → insert_request env req w
        ≡ (ok tt, record w { db = insert_row (inserted_row req) w.db; calls = w.calls + 1 })
  unfolding insert_request insert_checked raise_if ◌>>=◌
  insert_quiet req w valid fresh = rw (db_call_quiet quiet w, valid, fresh)

  module _ (who : Identity) (input : CreateRequestInput) (p : Provider) (reason tier : String)
      (w : World) (allows : (eligibility_of env who input w).0 ≡ ok (true, reason))
      (routes : (tier_of env who input w).0 ≡ ok tier) (waits : str_eq tier "auto" ≡ false)
      (fresh : (n : ℕ) → find_request (str_append "req_" (env.ulid n)) w.db.requests ≡ none) where
    abbrev w1 : World
    w1 = seen_world who.email w

    abbrev w2 : World
    w2 = record w1 {
      calls =
          (eval_eligibility env who input.provider input.role input.resource_scope
            input.duration_seconds w1).1.calls;
    }

    allowed :
        (eval_eligibility env who input.provider input.role input.resource_scope
          input.duration_seconds w1).0
        ≡ ok (true, reason)
    allowed = rw (seen_quiet who.email w) at allows

    routed :
        (eval_approval_tier env who input.provider input.role input.resource_scope
          input.duration_seconds w2).0
        ≡ ok tier
    routed =
        rw
          (
            seen_quiet who.email w,
            eligible_quiet who input.provider input.role input.resource_scope input.duration_seconds
                w1 reason allowed,
          )
          at routes

    chosen : is_tier tier ≡ true
    chosen =
        (eval_approval_tier-is_tier env who input.provider input.role input.resource_scope
          input.duration_seconds w2 tier routed)

    valid : is_tier (or_human tier) ≡ true
    valid = or_human-is_tier tier chosen

    abbrev w3 : World
    w3 = record w2 {
      calls =
          (eval_approval_tier env who input.provider input.role input.resource_scope
            input.duration_seconds w2).1.calls;
    }

    abbrev created : RequestRow
    created = new_row who input false tier (env.ulid (w3.calls + 1)) (env.now w3.calls)

    abbrev w5 : World
    w5 = record w3 { db = insert_row (inserted_row created) w3.db; calls = w3.calls + 1 + 1 + 1 }

    by_policy-IsWaiting :
        let (result, w') = create_by_policy env who input p w in
        IsWaiting who input tier w result w'
    unfolding create_by_policy route_by_tier notify raise_if entry_row find_request inserted_row
        ◌>>=◌
    by_policy-IsWaiting =
        rw
          (
            seen_quiet who.email w,
            eligible_quiet who input.provider input.role input.resource_scope input.duration_seconds
                w1 reason allowed,
            tier_quiet who input.provider input.role input.resource_scope input.duration_seconds w2
                tier routed,
            insert_quiet created (record w3 { calls = w3.calls + 1 + 1 }) valid
                (fresh (w3.calls + 1)),
            append_audit_quiet quiet _ w5,
            waits,
          )
          (
            env.ulid (w3.calls + 1),
            env.now w3.calls,
            (refl, rw (eq_refl, or_human-same tier chosen) refl, refl),
            _,
            refl,
            refl,
            refl,
            refl,
          )

    -- With no fault and no other instance, where after the requester has been noted the eligibility
    -- policy allows the request and the tier policy then answers a tier other than "auto",
    -- `CreateRequest` without break-glass, with a registered provider that finds the request valid and a
    -- new id, returns a PENDING row of the requester with that tier and with the provider, role, scope,
    -- duration, reason and metadata of the input; the same row is stored, its times rounded down to
    -- microseconds. It adds exactly one audit row, request.created, notifies once, and calls no provider
    -- for a grant.
    pub create_request-IsWaiting :
        (registry : Registry)
        → get registry input.provider ≡ some p
        → p.validate_request (validation_request who input) ≡ none
        → input.break_glass ≡ false
        → let (result, w') = create_request env registry who input w in
          IsWaiting who input tier w result w'
    unfolding create_request ◌>>=◌
    create_request-IsWaiting registry registered checked ordinary =
        rw
          (
            registered,
            checked,
            else_of input.break_glass (create_break_glass env who input p)
                (create_by_policy env who input p) ordinary,
          )
          by_policy-IsWaiting
