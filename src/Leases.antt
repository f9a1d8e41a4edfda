-- ===== src/Leases.antt =====
-- The shared connection pool of transient HTTP clients (`_PoolState`,
-- src/maivn/_internal/transport/leases.py): the parts of `acquire`, `release` and `_close` that hold
-- its lock, and the interleaving of the tasks that run them. A loop is a number. The pool itself,
-- which `_close` awaits, and what a lease does between its two calls are left out.
pub mod Sharing
pub mod Progress
mod Tests
use maivn.Prelude.{
  ℕ, zero, suc, ◌+◌, ◌-◌, ◌≡◌, Bool, true, false, not, ◌&&◌, Option, none, some, List, [], ◌∷◌,
  ◌++◌, if◌then◌else◌, is_some, nat_eq,
}

-- `idle` says whether there is a future to wait for.
pub record PoolState : Type 0 where
  pub loop : Option ℕ
  pub users : ℕ
  pub closing : Bool
  pub failed : Bool
  pub idle : Bool

abbrev pub new_pool : PoolState
new_pool = record { loop = none; users = 0; closing = false; failed = false; idle = false }

-- What a turn of the loop of `acquire` comes to: it raises, returns, or waits for the future.
pub data Attempt : Type 0 where
  raised : Attempt
  acquired waits : PoolState → Attempt

abbrev pub on_loop : ℕ → Option ℕ → Bool
on_loop loop none = false
on_loop loop (some owner) = nat_eq owner loop

-- A pool without a loop takes the one that asks.
abbrev pub take_loop : ℕ → PoolState → PoolState
take_loop loop p = if is_some p.loop then p else record p { loop = some loop; idle = true }

-- `acquire`
unfoldable pub acquire : ℕ → PoolState → Attempt
acquire loop p =
    let q = take_loop loop p in
    if p.failed
    then raised
    else if on_loop loop q.loop && not q.closing
    then acquired (record q { users = q.users + 1 })
    else waits q

-- `release`, and whether it starts a cleanup.
unfoldable pub release : PoolState → PoolState × Bool
release p =
    let q = record p { users = p.users - 1 } in
    if not (nat_eq q.users 0) then (q, false) else (record q { closing = true }, true)

-- The two places where `_close` takes the lock.
unfoldable pub close_failed : PoolState → PoolState
close_failed p = record p { failed = true }

unfoldable pub close_finished : PoolState → PoolState
close_finished p = record p { loop = none; closing = false; idle = false }

-- A pool with the loops of the clients that have acquired it and not released it, and how many
-- cleanups are running.
pub record System : Type 0 where
  pub pool : PoolState
  pub holders : List ℕ
  pub cleanups : ℕ

abbrev pub start : System
start = record { pool = new_pool; holders = []; cleanups = 0 }

abbrev pub released : System → List ℕ → System
released s holders = record {
  pool = (release s.pool).0;
  holders = holders;
  cleanups = if (release s.pool).1 then suc s.cleanups else s.cleanups;
}

-- Any client may try at any time, any holder release, and any cleanup that runs go on.
pub data Step (s : System) : System → Type 0 where
  acquires :
      (loop : ℕ) (p : PoolState)
      → acquire loop s.pool ≡ acquired p
      → Step s (record s { pool = p; holders = loop ∷ s.holders })
  tries :
      (loop : ℕ) (p : PoolState) → acquire loop s.pool ≡ waits p → Step s (record s { pool = p })
  releases :
      (before : List ℕ) (loop : ℕ) (after : List ℕ)
      → s.holders ≡ before ++ loop ∷ after
      → Step s (released s (before ++ after))
  fails : (n : ℕ) → s.cleanups ≡ suc n → Step s (record s { pool = close_failed s.pool })
  finishes :
      (n : ℕ)
      → s.cleanups ≡ suc n
      → Step s (record s { pool = close_finished s.pool; cleanups = n })

pub data Reach : System → Type 0 where
  starts : Reach start
  then_step : {s t : System} → Reach s → Step s t → Reach t

pub data Steps : System → System → Type 0 where
  done : {s : System} → Steps s s
  more : {s t u : System} → Step s t → Steps t u → Steps s u
