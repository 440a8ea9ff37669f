-- ===== src/World/Quiet.antt =====
-- A quiet environment: no database call fails, and no other instance is at work. What a function
-- does by itself is stated in it.
use jitsudo.Prelude.{ℕ, ◌+◌, ◌≡◌, none}
use jitsudo.World.{ok, Db, World, Env, db_call, db_call_locked}

pub record IsQuiet (env : Env) : Type 0 where
  pub no_fault : (n : ℕ) → env.db_fault n ≡ none
  pub alone : (n : ℕ) (d : Db) → env.others n d ≡ d

-- The world after one more answer from outside.
abbrev pub later : World → World
later w = record w { calls = w.calls + 1 }

module _ {env : Env} (quiet : IsQuiet env) (w : World) where
  pub db_call_quiet : db_call env w ≡ (ok tt, later w)
  unfolding db_call
  db_call_quiet = rw (quiet.no_fault w.calls, quiet.alone w.calls w.db)

  pub db_call_locked_quiet : db_call_locked env w ≡ (ok tt, later w)
  unfolding db_call_locked
  db_call_locked_quiet = rw (quiet.no_fault w.calls)
