-- ===== src/Store/Principals/Range.antt =====
-- Trust tiers (store/principals.go) stay between 0 and 4.
use jitsudo.Prelude.{
  ℕ, ◌≤◌, arith, ◌≡◌, refl, Bool, true, false, String, str_eq, List, [], ◌∷◌, Bool-cases, inl, inr,
}
use jitsudo.Prelude.Int.{ℤ, pos, negsuc}
use jitsudo.Rows.{PrincipalRow}
use jitsudo.Store.Principals.{
  upsert, seen_row, enrolled_row, enroll, out_of_range, upsert_principal_last_seen,
  set_principal_trust_tier, get_principal,
}
use jitsudo.World.{Error, World, Env, M, raise_if, ◌>>=◌, ◌>>◌}
use jitsudo.World.Keeps.{Guarantees, Guarantees-bind, Guarantees-modify, Rely, guarantee_rules}

-- 0, 1, 2, 3 or 4
abbrev pub IsInRange : ℤ → Type 0
IsInRange t = (n : ℕ) × (t ≡ pos n) × (n ≤ 4)

in_range : (t : ℤ) → out_of_range t ≡ false → IsInRange t
in_range (pos n) h = (n, refl, ground arith)
in_range (negsuc n) h = cc

abbrev pub AreInRange : List PrincipalRow → Type 0
AreInRange [] = Unit
AreInRange (p ∷ ps) = IsInRange p.trust_tier × AreInRange ps

abbrev pub KeepsRange : World → World → Type 0
KeepsRange v w = AreInRange v.db.principals → AreInRange w.db.principals

upsert-AreInRange :
    (new : PrincipalRow) (update : PrincipalRow → PrincipalRow) (l : List PrincipalRow)
    → IsInRange new.trust_tier
    → ((p : PrincipalRow) → IsInRange p.trust_tier → IsInRange (update p).trust_tier)
    → AreInRange l
    → AreInRange (upsert new update l)
unfolding upsert
upsert-AreInRange new update [] h k a = (h, tt)
upsert-AreInRange new update (p ∷ ps) h k a = elim (Bool-cases (str_eq p.identity new.identity)) [
  | inl same ↦ rw same (k p a.0, a.1)
  | inr other ↦ rw other (a.0, upsert-AreInRange new update ps h k a.1)
]

module _ {env : Env} (rely : Rely env KeepsRange) where
  seen-KeepsRange : (id : String) → Guarantees KeepsRange (upsert_principal_last_seen env id)
  unfolding upsert_principal_last_seen
  seen-KeepsRange id = Guarantees-bind rely _ _ (search guarantee_rules) λ _.
      Guarantees-bind rely _ _ (search guarantee_rules) λ now. Guarantees-modify _ λ w a.
        upsert-AreInRange (seen_row id now) _ w.db.principals (0, refl, omega arith) (λ p h. h) a

  guarded :
      {A : Type 0} (b : Bool) (e : Error) (m : M A)
      → (b ≡ false → Guarantees KeepsRange m)
      → Guarantees KeepsRange (raise_if b e >> m)
  unfolding raise_if ◌>>=◌
  guarded true e m k = record { at = λ w. rely.same w }
  guarded false e m k = record { at = λ w. (k refl).at w }

  get-KeepsRange : (id : String) → Guarantees KeepsRange (get_principal env id)
  unfolding get_principal
  get-KeepsRange id = search guarantee_rules depth 8

  set-KeepsRange :
      (id : String) (tier : ℤ) (by : String)
      → Guarantees KeepsRange (set_principal_trust_tier env id tier by)
  unfolding set_principal_trust_tier
  set-KeepsRange id tier by = guarded (out_of_range tier) _ _ λ fits.
      Guarantees-bind rely _ _ (search guarantee_rules) λ now.
        Guarantees-bind rely _ _ (search guarantee_rules) λ _.
          Guarantees-bind rely _ _
            (Guarantees-modify _ λ w a.
              upsert-AreInRange (enrolled_row id tier by now) (enroll tier by now) w.db.principals
                (in_range tier fits) (λ p h. in_range tier fits) a)
            λ _. get-KeepsRange id

  -- Beside other instances that do so too, no method that writes to the table principals leaves a
  -- trust tier outside 0 to 4: not the sign of life of a requester, and not an enrolment, whatever
  -- tier it is called with.
  pub principals-KeepsRange :
      (id : String) (tier : ℤ) (by : String)
      → Guarantees KeepsRange (upsert_principal_last_seen env id)
        × Guarantees KeepsRange (set_principal_trust_tier env id tier by)
  principals-KeepsRange id tier by = (seen-KeepsRange id, set-KeepsRange id tier by)
