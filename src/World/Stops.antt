-- ===== src/World/Stops.antt =====
-- Functions that only fail, and what the values that a function returns have in common.
use jitsudo.Prelude.{Bool, false, if◌then◌else◌, ◌≡◌, refl, ◌⊎◌, inl, inr, String}
use jitsudo.World.{Error, Result, ok, err, World, Env, M, lift, raise, wrap_err, ◌>>=◌}
use jitsudo.World.Keeps.{Guarantees, Rely}

abbrev pub IsErr : {A : Type 0} → Result A → Type 0
IsErr (ok a) = ⊥
IsErr (err e) = Unit

-- `m` ends with an error, and changes the world as `R` allows.
pub record Stops (R : World → World → Type 0) {A : Type 0} (m : M A) : Type 0 where
  pub at : (w : World) → IsErr (m w).0 × R w (m w).1

pub Stops-else :
    {R : World → World → Type 0} {A : Type 0} {b : Bool} (m n : M A)
    → b ≡ false
    → Stops R n
    → Stops R (if b then m else n)
Stops-else m n h k = rw h k

-- Every value that `m` returns is one of `Q`.
pub record Returns {A : Type 0} (Q : A → Type 0) (m : M A) : Type 0 where
  pub at : (w : World) (a : A) → (m w).0 ≡ ok a → Q a

module _ {env : Env} {R : World → World → Type 0} (rely : Rely env R) {A B : Type 0} where
  Stops-after :
      (Q : A → Type 0) (f : A → M B) (v w : World) (r : Result A)
      → R v w
      → ((a : A) → r ≡ ok a → Q a)
      → ((a : A) → Q a → Stops R (f a))
      → IsErr ((lift r >>= f) w).0 × R v ((lift r >>= f) w).1
  unfolding ◌>>=◌
  Stops-after Q f v w (ok a) s q k = let (e, t) = (k a (q a refl)).at w in (e, rely.after v w _ s t)
  Stops-after Q f v w (err e) s q k = (tt, s)

  pub Stops-bind :
      (Q : A → Type 0) (m : M A) (f : A → M B)
      → Guarantees R m
      → Returns Q m
      → ((a : A) → Q a → Stops R (f a))
      → Stops R (m >>= f)
  unfolding ◌>>=◌
  Stops-bind Q m f silent q k = record {
    at = λ w. Stops-after Q f w (m w).1 (m w).0 (silent.at w) (q.at w) k;
  }

  Stops-first :
      (f : A → M B) (v w : World) (r : Result A)
      → IsErr r
      → R v w
      → IsErr ((lift r >>= f) w).0 × R v ((lift r >>= f) w).1
  unfolding ◌>>=◌
  Stops-first f v w (err e) h s = (tt, s)
  Stops-first f v w (ok a) h s = elim h [ ]

  pub Stops-bind_left : (m : M A) (f : A → M B) → Stops R m → Stops R (m >>= f)
  unfolding ◌>>=◌
  Stops-bind_left m f h = record { at = λ w. Stops-first f w (m w).1 (m w).0 (h.at w).0 (h.at w).1 }

pub Stops-raise :
    {env : Env} {R : World → World → Type 0} (rely : Rely env R) {A : Type 0} (e : Error)
    → Stops R (raise {A = A} e)
unfolding raise
Stops-raise rely e = record { at = λ w. (tt, rely.same w) }

module _ {A B : Type 0} where
  Returns-after :
      (Q : B → Type 0) (f : A → M B) (w : World) (r : Result A)
      → ((a : A) → Returns Q (f a))
      → (b : B) → ((lift r >>= f) w).0 ≡ ok b
      → Q b
  unfolding ◌>>=◌
  Returns-after Q f w (ok a) k b h = (k a).at w b h
  Returns-after Q f w (err e) k b h = cc

  pub Returns-bind :
      (Q : B → Type 0) (m : M A) (f : A → M B) → ((a : A) → Returns Q (f a)) → Returns Q (m >>= f)
  unfolding ◌>>=◌
  Returns-bind Q m f k = record { at = λ w. Returns-after Q f (m w).1 (m w).0 k }

pub Returns-any : {A : Type 0} (m : M A) → Returns (λ _. Unit {0}) m
Returns-any m = record { at = λ w a h. tt }

pub ok-injective : {A : Type 0} {a b : A} → ok a ≡ ok b → a ≡ b
ok-injective h = cc

pub err-ok : {A : Type 0} {e : Error} {a : A} → err e ≡ ok a → ⊥
err-ok h = cc

pub Result-cases :
    {A : Type 0} (r : Result A) → ((a : A) × (r ≡ ok a)) ⊎ ((e : Error) × (r ≡ err e))
Result-cases (ok a) = inl (a, refl)
Result-cases (err e) = inr (e, refl)

module _ {A : Type 0} (Q : A → Type 0) (s : String) where
  unwrapped : (r : Result A) (w : World) (a : A) → (wrap_err s (lift r) w).0 ≡ ok a → r ≡ ok a
  unfolding wrap_err lift
  unwrapped (ok x) w a h = h
  unwrapped (err e) w a h = cc

  pub Returns-wrap_err : (m : M A) → Returns Q m → Returns Q (wrap_err s m)
  unfolding wrap_err lift
  Returns-wrap_err m k = record { at = λ w a h. k.at w a (unwrapped (m w).0 (m w).1 a h) }
