-- ===== src/Leases/Tests.antt =====
-- Two clients of loop 3 that share a pool, one of loop 4 that waits, and the theorems about them.
use maivn.Prelude.{◌≡◌, refl, true, false, some, [], ◌∷◌}
use maivn.Leases.{
  PoolState, raised, waits, new_pool, acquire, release, System, acquires, Reach, starts, then_step,
}
use maivn.Leases.Sharing.{Phase, Reach-Phase}
use maivn.Leases.Progress.{Acquires, Reach-Acquires}

abbrev one_user : PoolState
one_user = record { loop = some 3; users = 1; closing = false; failed = false; idle = true }

abbrev two_users : PoolState
two_users = record one_user { users = 2 }

abbrev shared : System
shared = record { pool = two_users; holders = 3 ∷ 3 ∷ []; cleanups = 0 }

shared-Reach : Reach shared
unfolding acquire
shared-Reach = then_step (then_step starts (acquires 3 one_user refl)) (acquires 3 two_users refl)

other_loop : acquire 4 two_users ≡ waits two_users
unfolding acquire
other_loop = refl

after_failure : acquire 3 (record new_pool { failed = true }) ≡ raised
unfolding acquire
after_failure = refl

last_release : (release one_user).1 ≡ true
unfolding release
last_release = refl

Reach-Phase_example : Phase shared
Reach-Phase_example = Reach-Phase shared-Reach

Reach-Acquires_example : Acquires 4 shared
Reach-Acquires_example = Reach-Acquires 4 shared-Reach refl
