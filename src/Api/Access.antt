-- ===== src/Api/Access.antt =====
-- Who may call what of the service.
use jitsudo.Prelude.{not_false, ◌≡◌, refl, Bool, true, false, Option, none, some, String, List}
use jitsudo.Policy.{Identity}
use jitsudo.Providers.{Registry}
use jitsudo.Api.{is_admin, authenticated, set_trust_tier, handle, serve}
use jitsudo.Api.Messages.{Rpc}
use jitsudo.World.{World, Env, raise_if, ◌>>=◌}
use jitsudo.World.Stops.{IsErr}

-- Who may call what: everyone with an identity, and administrators alone set a trust tier.
abbrev pub may_call : Env → Registry → List String → Option Identity → Rpc → Bool
may_call env registry admins none rpc = false
may_call env registry admins (some who) (Rpc.set_principal_trust_tier identity tier) =
    is_admin env registry admins who
may_call env registry admins (some who) _ = true

-- A call that the caller may not make is refused, whichever it is, and changes nothing: it asks nothing
-- of the database, the policies or the providers. That is every call without an identity, and the
-- call that sets a trust tier from one who is neither in the group jitsudo-admins nor on the list of
-- administrators.
pub serve_refused :
    (env : Env) (registry : Registry) (admins : List String) (caller : Option Identity) (rpc : Rpc)
    (w : World)
    → may_call env registry admins caller rpc ≡ false
    → IsErr (serve env registry admins caller rpc w).0
      × ((serve env registry admins caller rpc w).1 ≡ w)
unfolding serve handle set_trust_tier authenticated raise_if ◌>>=◌
serve_refused env registry admins none rpc w h = (tt, refl)
serve_refused env registry admins (some who) (Rpc.set_principal_trust_tier identity tier) w h =
    rw h (tt, refl)
serve_refused env registry admins (some who) (Rpc.create_request x) w h = not_false h
serve_refused env registry admins (some who) (Rpc.get_request x) w h = not_false h
serve_refused env registry admins (some who) (Rpc.list_requests x y) w h = not_false h
serve_refused env registry admins (some who) (Rpc.approve_request x y) w h = not_false h
serve_refused env registry admins (some who) (Rpc.deny_request x y) w h = not_false h
serve_refused env registry admins (some who) (Rpc.revoke_request x y) w h = not_false h
serve_refused env registry admins (some who) (Rpc.get_credentials x) w h = not_false h
serve_refused env registry admins (some who) Rpc.list_policies w h = not_false h
serve_refused env registry admins (some who) (Rpc.get_policy x) w h = not_false h
serve_refused env registry admins (some who) (Rpc.apply_policy x) w h = not_false h
serve_refused env registry admins (some who) (Rpc.delete_policy x) w h = not_false h
serve_refused env registry admins (some who) Rpc.reload_policies w h = not_false h
serve_refused env registry admins (some who) (Rpc.eval_policy x y) w h = not_false h
serve_refused env registry admins (some who) (Rpc.query_audit x) w h = not_false h
serve_refused env registry admins (some who) (Rpc.get_principal x) w h = not_false h
