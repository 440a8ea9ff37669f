-- ===== src/World/Keeps.antt =====
-- How the world may change under a function, while other instances change the database too: one
-- rule for each way to build a function.
use jitsudo.Prelude.{
  ℕ, Bool, true, false, Option, none, some, String, Option-cases, inl, inr, ◌+◌, ◌∷◌, if◌then◌else◌,
}
use jitsudo.World.{
  Error, Result, ok, err, Effect, Db, World, Env, M, pure, raise, ask, query, lift, try, wrap_err,
  or_raise, ◌>>=◌, ◌>>◌, raise_if, modify, emit, db_call, db_call_locked,
}

-- Whether it returns or fails, `m` changes the world as `R` allows.
pub record Guarantees (R : World → World → Type 0) {A : Type 0} (m : M A) : Type 0 where
  pub at : (w : World) → R w (m w).1

-- `R` is a preorder that the answers from outside and the other instances keep to.
pub record Rely (env : Env) (R : World → World → Type 0) : Type 0 where
  pub same : (w : World) → R w w
  pub after : (a b c : World) → R a b → R b c → R a c
  pub asked : (w : World) → R w (record w { calls = w.calls + 1 })
  pub others : (w : World) → R w (record w { db = env.others w.calls w.db; calls = w.calls + 1 })

module _ {env : Env} {R : World → World → Type 0} (rely : Rely env R) {A : Type 0} where
  pub Guarantees-pure : (a : A) → Guarantees R (pure a)
  unfolding pure
  Guarantees-pure a = record { at = λ w. rely.same w }

  pub Guarantees-raise : (e : Error) → Guarantees R (raise {A = A} e)
  unfolding raise
  Guarantees-raise e = record { at = λ w. rely.same w }

  pub Guarantees-ask : (f : ℕ → A) → Guarantees R (ask f)
  unfolding ask
  Guarantees-ask f = record { at = λ w. rely.asked w }

  pub Guarantees-query : (f : Db → A) → Guarantees R (query f)
  unfolding query
  Guarantees-query f = record { at = λ w. rely.same w }

  pub Guarantees-lift : (r : Result A) → Guarantees R (lift r)
  unfolding lift
  Guarantees-lift r = record { at = λ w. rely.same w }

  pub Guarantees-or_raise : (e : Error) (o : Option A) → Guarantees R (or_raise e o)
  unfolding or_raise
  Guarantees-or_raise e none = record { at = λ w. rely.same w }
  Guarantees-or_raise e (some a) = record { at = λ w. rely.same w }

  pub Guarantees-try : (m : M A) → Guarantees R m → Guarantees R (try m)
  unfolding try
  Guarantees-try m k = record { at = k.at }

  pub Guarantees-wrap_err : (s : String) (m : M A) → Guarantees R m → Guarantees R (wrap_err s m)
  unfolding wrap_err
  Guarantees-wrap_err s m k = record { at = k.at }

  pub Guarantees-if :
      (b : Bool) (m n : M A) → Guarantees R m → Guarantees R n → Guarantees R (if b then m else n)
  Guarantees-if true m n km kn = km
  Guarantees-if false m n km kn = kn

module _ {env : Env} {R : World → World → Type 0} (rely : Rely env R) {A B : Type 0} where
  continue_at :
      (f : A → M B) (kf : (a : A) → Guarantees R (f a)) (v : World) (r : Result A) (w : World)
      → R v w
      → R v ((lift r >>= f) w).1
  unfolding ◌>>=◌
  continue_at f kf v (ok a) w h = rely.after v w _ h ((kf a).at w)
  continue_at f kf v (err e) w h = h

  pub Guarantees-bind :
      (m : M A) (f : A → M B)
      → Guarantees R m
      → ((a : A) → Guarantees R (f a))
      → Guarantees R (m >>= f)
  unfolding ◌>>=◌
  Guarantees-bind m f km kf = record { at = λ w. continue_at f kf w (m w).0 (m w).1 (km.at w) }

module _ {env : Env} {R : World → World → Type 0} (rely : Rely env R) where
  pub Guarantees-raise_if : (b : Bool) (e : Error) → Guarantees R (raise_if b e)
  unfolding raise_if
  Guarantees-raise_if true e = record { at = λ w. rely.same w }
  Guarantees-raise_if false e = record { at = λ w. rely.same w }

  pub Guarantees-db_call : Guarantees R (db_call env)
  unfolding db_call
  Guarantees-db_call = record { at = λ w. rely.others w }

  pub Guarantees-db_call_locked : Guarantees R (db_call_locked env)
  unfolding db_call_locked
  Guarantees-db_call_locked = record { at = λ w. rely.asked w }

  -- A write that two calls inside the transaction come before.
  pub locked_then :
      (s t : String) (f : Db → Db) (w : World)
      → R w (record w { db = f w.db; calls = w.calls + 1 + 1 })
      → R w ((wrap_err s (db_call_locked env) >> (wrap_err t (db_call_locked env) >> modify f)) w).1
  unfolding db_call_locked ◌>>=◌
  locked_then s t f w h = elim (Option-cases (env.db_fault w.calls)) [
    | inr (x, e) ↦ rw e (rely.asked w)
    | inl e ↦ rw e (elim (Option-cases (env.db_fault (w.calls + 1))) [
      | inr (x, e') ↦ rw e' (rely.after w _ _ (rely.asked w) (rely.asked _))
      | inl e' ↦ rw e' h
    ])
  ]

pub Guarantees-modify :
    {R : World → World → Type 0} (f : Db → Db)
    → ((w : World) → R w (record w { db = f w.db }))
    → Guarantees R (modify f)
unfolding modify
Guarantees-modify f k = record { at = k }

pub Guarantees-emit :
    {R : World → World → Type 0} (e : Effect)
    → ((w : World) → R w (record w { effects = e ∷ w.effects }))
    → Guarantees R (emit e)
unfolding emit
Guarantees-emit e k = record { at = k }

pub ruleset guarantee_rules = (
  Guarantees-pure, Guarantees-raise, Guarantees-ask, Guarantees-query, Guarantees-lift,
  Guarantees-or_raise, Guarantees-try, Guarantees-wrap_err, Guarantees-if, Guarantees-bind,
  Guarantees-raise_if, Guarantees-db_call, Guarantees-db_call_locked,
)
