-- ===== src/Workflow/Create/Alert.antt =====
-- `createBreakGlass` alerts before it issues anything.
use jitsudo.Prelude.{
  ◌+◌, ◌≡◌, refl, ap, ◌∙◌, ◌⊎◌, inl, inr, true, none, String, List, [], ◌∷◌, ◌++◌,
}
use jitsudo.Rows.{RequestRow}
use jitsudo.Audit.{Entry}
use jitsudo.Audit.Action
use jitsudo.Policy.{Identity}
use jitsudo.Providers.{Provider, call_grant}
use jitsudo.Store.Requests.{create_request as insert_request}
use jitsudo.Workflow.{success, event, append_audit, issue_grant, notify}
use jitsudo.Workflow.Effects.{
  Silent, Extends, rely-Silent, rely-Extends, transition-Extends, append_audit-blind,
  append_audit-Silent, create_request-Silent,
}
use jitsudo.Workflow.Create.{
  CreateRequestInput, new_row, break_glass_details, break_glass_issue, create_break_glass,
}
use jitsudo.World.{
  Error, Result, ok, err, ElevationRequest, EventType, Event, Effect, notified, World, Env, M, lift,
  wrap_err, emit, ◌>>=◌, ◌>>◌,
}
use jitsudo.World.Keeps.{Guarantees, Guarantees-emit, Guarantees-wrap_err, guarantee_rules}

-- The effects since `v` begin with the notification `e`.
abbrev pub Alerts : Event → World → World → Type 0
Alerts e v w = (new : List Effect) × (w.effects ≡ new ++ notified e ∷ v.effects)

-- The insertion failed, the call ends with its error, and there was no effect.
abbrev pub IsRefused : {A : Type 0} → Result (Unit {0}) → World → Result A → World → Type 0
IsRefused inserted v result w =
    (e : Error) × (inserted ≡ err e) × (result ≡ err e) × (w.effects ≡ v.effects)

module _ (env : Env) where
  emit-Extends : (e : Effect) → Guarantees Extends (emit e)
  emit-Extends e = Guarantees-emit e λ w. (e ∷ [], refl)

  notify-Extends : (e : Event) → Guarantees Extends (notify e)
  unfolding notify
  notify-Extends e = emit-Extends (notified e)

  audit-Extends : (e : Entry) → Guarantees Extends (append_audit env e)
  audit-Extends = append_audit-blind (rely-Extends env) λ w d. ([], refl)

  call_grant-Extends :
      (p : Provider) (req : ElevationRequest) → Guarantees Extends (call_grant p req)
  unfolding call_grant
  call_grant-Extends p req = search (rely-Extends env, guarantee_rules, emit-Extends) depth 8

  issue_grant-Extends :
      (s t : String) (p : Provider) (id : String) (req : RequestRow)
      → Guarantees Extends (issue_grant env s t p id req)
  unfolding issue_grant
  issue_grant-Extends s t p id req =
      search (rely-Extends env, guarantee_rules, call_grant-Extends, transition-Extends env) depth 8

  append_audit_ok : (entry : Entry) (w : World) → (append_audit env entry w).0 ≡ ok tt
  unfolding append_audit ◌>>=◌
  append_audit_ok entry w = refl

  alert_first :
      {A : Type 0} (entry : Entry) (e : Event) (rest : M A)
      → Guarantees Extends rest
      → (w : World) → Alerts e w ((append_audit env entry >> (notify e >> rest)) w).1
  unfolding notify ◌>>=◌
  alert_first entry e rest k w =
      let a = (append_audit env entry w).1 in
      let (new, p) = k.at (record a { effects = notified e ∷ a.effects }) in
      rw (append_audit_ok entry w)
        (new, p ∙ ap (λ l. new ++ notified e ∷ l) ((append_audit-Silent env entry).at w))

  -- The row that break-glass creates at the world `w`, and its alert.
  abbrev pub created_row : Identity → CreateRequestInput → World → RequestRow
  created_row identity input w =
      new_row identity input true "" (env.ulid (w.calls + 1)) (env.now w.calls)

  abbrev pub alert : Identity → RequestRow → Event
  alert identity row = event EventType.break_glass row.id identity.email row row.reason none

  after_insert :
      {A : Type 0} (entry : Entry) (e : Event) (rest : M A) (v w : World) (r : Result (Unit {0}))
      → Guarantees Extends rest
      → Silent v w
      → let (result, w') = (lift r >> (append_audit env entry >> (notify e >> rest))) w in
        IsRefused r v result w' ⊎ Alerts e v w'
  unfolding ◌>>=◌
  after_insert entry e rest v w (ok _) k s =
      let (new, p) = alert_first entry e rest k w in
      inr (new, p ∙ ap (λ l. new ++ notified e ∷ l) s)
  after_insert entry e rest v w (err x) k s = inl (x, refl, refl, s)

  issue-Extends :
      (identity : Identity) (p : Provider) (id : String)
      → Guarantees Extends (break_glass_issue env identity p id)
  unfolding break_glass_issue
  issue-Extends identity p id =
      search
        (
          rely-Extends env,
          guarantee_rules,
          transition-Extends env,
          audit-Extends,
          issue_grant-Extends,
          notify-Extends,
        )
        depth 12

  -- The insertion of the row at the world `w`, after the clock and the ULID were asked.
  abbrev pub insertion : Identity → CreateRequestInput → World → Result (Unit {0})
  insertion identity input w =
      (wrap_err "workflow: break-glass create request"
        (insert_request env (created_row identity input w))
        (record w { calls = w.calls + 1 + 1 })).0

  -- A break-glass request either ends with the error with which the store refused its row and with no
  -- effect outside, or its first effect is the break-glass alert with the id, the requester and the
  -- reason of the row: every call of the provider comes after the alert, and a row that is stored has
  -- its alert, on every path and beside any instances.
  pub create_break_glass-Alerts :
      (identity : Identity) (input : CreateRequestInput) (p : Provider) (w : World)
      → let (result, w') = create_break_glass env identity input p w in
        IsRefused (insertion identity input w) w result w'
        ⊎ Alerts (alert identity (created_row identity input w)) w w'
  unfolding create_break_glass ◌>>=◌
  create_break_glass-Alerts identity input p w =
      let row = created_row identity input w in
      let inserted = wrap_err "workflow: break-glass create request" (insert_request env row) in
      let v = record w { calls = w.calls + 1 + 1 } in
      after_insert (success identity.email Action.request_created row.id row break_glass_details)
        (alert identity row) (break_glass_issue env identity p row.id) w (inserted v).1
        (inserted v).0 (issue-Extends identity p row.id)
        ((Guarantees-wrap_err (rely-Silent env) "workflow: break-glass create request" _
            (create_request-Silent env row)).at
          v)
