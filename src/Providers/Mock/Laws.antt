-- ===== src/Providers/Mock/Laws.antt =====
-- The mock keeps the contract that the interface Provider documents (internal/providers/provider.go).
use jitsudo.Prelude.{
  ℕ, ◌≡◌, refl, Bool, false, none, some, String, str_eq, eq_iff, eq_refl, [], ◌∷◌, if◌then◌else◌,
  Bool-cases, Option-cases, inl, inr, arith, ltb,
}
use jitsudo.World.{Error, Result, ok, err, ElevationRequest, ElevationGrant}
use jitsudo.Providers.{validate_common}
use jitsudo.Providers.Mock.{Mock, lookup, delete, new_grant, grant, revoke, is_active}

-- What a call for a grant leaves in the store: a grant that is active, under the id of the request,
-- exactly until its deadline, or with an error the store as it was.
abbrev pub IsGrantedUntil :
    {S : Type 0} → (ℕ → ElevationGrant → S → Bool) → String → S → Result ElevationGrant → S → Type 0
IsGrantedUntil is_active id s (ok g) s' =
    (t : ℕ) → is_active t (record g { request_id = id }) s' ≡ ltb t g.expires_at
IsGrantedUntil is_active id s (err e) s' = s' ≡ s

-- The contract of an adapter with grants in a store of type `S`, at given times.
pub record IsAdapter {S : Type 0} (grant : ℕ → ElevationRequest → S → Result ElevationGrant × S)
    (revoke : ElevationGrant → S → S) (is_active : ℕ → ElevationGrant → S → Bool) : Type 0 where
  -- Granting again, at any time, gives the same grant and changes nothing.
  pub grant_again :
      (t t' : ℕ) (req : ElevationRequest) (s : S)
      → grant t' req (grant t req s).1 ≡ ((grant t req s).0, (grant t req s).1)
  pub granted :
      (t : ℕ) (req : ElevationRequest) (s : S)
      → IsGrantedUntil is_active req.request_id s (grant t req s).0 (grant t req s).1
  -- Revoking again changes nothing; a revoked grant is never active, and the others are as before.
  pub revoke_again : (g : ElevationGrant) (s : S) → revoke g (revoke g s) ≡ revoke g s
  pub revoked :
      (t : ℕ) (g h : ElevationGrant) (s : S)
      → is_active t h (revoke g s)
        ≡ (if str_eq g.request_id h.request_id then false else is_active t h s)

lookup-delete :
    (id j : String) (m : Mock) → lookup j (delete id m) ≡ (if str_eq id j then none else lookup j m)
unfolding lookup delete
lookup-delete id j [] = ground arith
lookup-delete id j ((k, g) ∷ m) =
    ground (arith, lookup-delete id j m, eq_iff k id, eq_iff k j, eq_iff id j)

delete_twice : (id : String) (m : Mock) → delete id (delete id m) ≡ delete id m
unfolding delete
delete_twice id [] = refl
delete_twice id ((k, g) ∷ m) = ground (arith, delete_twice id m)

lookup-cons : (id : String) (g : ElevationGrant) (m : Mock) → lookup id ((id, g) ∷ m) ≡ some g
unfolding lookup
lookup-cons id g m = rw (eq_refl)

grant_invalid :
    (t : ℕ) (req : ElevationRequest) (m : Mock) (e : Error)
    → validate_common req ≡ some e
    → grant t req m ≡ (err e, m)
unfolding grant
grant_invalid t req m e bad = rw (bad, grant)

grant_absent :
    (t : ℕ) (req : ElevationRequest) (m : Mock)
    → validate_common req ≡ none
    → lookup req.request_id m ≡ none
    → grant t req m ≡ (ok (new_grant t req), (req.request_id, new_grant t req) ∷ m)
unfolding grant
grant_absent t req m good absent = rw (good, absent, grant)

grant_present :
    (t : ℕ) (req : ElevationRequest) (m : Mock) (g : ElevationGrant)
    → validate_common req ≡ none
    → lookup req.request_id m ≡ some g
    → grant t req m ≡ (ok g, m)
unfolding grant
grant_present t req m g good there = rw (good, there, grant)

mock_grant_again :
    (t t' : ℕ) (req : ElevationRequest) (m : Mock)
    → grant t' req (grant t req m).1 ≡ ((grant t req m).0, (grant t req m).1)
unfolding grant
mock_grant_again t t' req m = elim (Option-cases (validate_common req)) [
  | inr (e, bad) ↦ rw (grant_invalid t req m e bad) (grant_invalid t' req m e bad)
  | inl good ↦ elim (Option-cases (lookup req.request_id m)) [
    | inr (g, there) ↦ rw (grant_present t req m g good there) (grant_present t' req m g good there)
    | inl absent ↦ rw (grant_absent t req m good absent) (
        grant_present t' req ((req.request_id, new_grant t req) ∷ m) (new_grant t req) good
          (lookup-cons req.request_id (new_grant t req) m))
  ]
]

active_until :
    (t : ℕ) (id : String) (g : ElevationGrant) (m : Mock)
    → lookup id m ≡ some g
    → is_active t (record g { request_id = id }) m ≡ ltb t g.expires_at
unfolding is_active
active_until t id g m h = rw (h, is_active)

mock_granted :
    (t : ℕ) (req : ElevationRequest) (m : Mock)
    → IsGrantedUntil is_active req.request_id m (grant t req m).0 (grant t req m).1
mock_granted t req m = elim (Option-cases (validate_common req)) [
  | inr (e, bad) ↦ rw (grant_invalid t req m e bad) refl
  | inl good ↦ elim (Option-cases (lookup req.request_id m)) [
    | inr (g, there) ↦
        rw (grant_present t req m g good there) (λ t'. active_until t' req.request_id g m there)
    | inl absent ↦ rw (grant_absent t req m good absent) (λ t'.
        active_until t' req.request_id (new_grant t req) _
          (lookup-cons req.request_id (new_grant t req) m))
  ]
]

mock_revoked :
    (t : ℕ) (g h : ElevationGrant) (m : Mock)
    → is_active t h (revoke g m)
      ≡ (if str_eq g.request_id h.request_id then false else is_active t h m)
unfolding revoke is_active
mock_revoked t g h m = elim (Bool-cases (str_eq g.request_id h.request_id)) [
  | inl same ↦ rw (lookup-delete g.request_id h.request_id m, same, revoke, is_active)
  | inr other ↦ rw (lookup-delete g.request_id h.request_id m, other, revoke, is_active)
]

-- The mock keeps the contract of an adapter: a second grant of a request, at whatever time, gives
-- the first grant and changes nothing; a grant that it returns is active exactly until its deadline, and
-- an error leaves the grants as they were; a second revocation changes nothing; and after a
-- revocation the grants of that request are not active at any time and those of others are as before.
pub mock-IsAdapter : IsAdapter grant revoke is_active
unfolding revoke
mock-IsAdapter = record {
  grant_again = mock_grant_again;
  granted = mock_granted;
  revoke_again = λ g m. delete_twice g.request_id m;
  revoked = mock_revoked;
}
