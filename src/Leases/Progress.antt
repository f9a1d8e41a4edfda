-- ===== src/Leases/Progress.antt =====
-- No loop is locked out of a pool: the clients that hold it can always come to their end.
use maivn.Prelude.{
  ℕ, ◌+◌, ◌≡◌, refl, ap, ◌∙◌, true, false, some, none, List, [], ◌∷◌, length, arith,
}
use maivn.Leases.{
  PoolState, acquired, acquire, release, close_finished, System, released, acquires, releases,
  finishes, Reach, Steps, done, more,
}
use maivn.Leases.Sharing.{Fields, Phase, free, used, cleaned, releases-Phase, Reach-Phase}

-- Steps after which a client of this loop, and no other, has the pool.
pub record Acquires (loop : ℕ) (s : System) : Type 0 where
  pub after : System
  pub steps : Steps s after
  pub held : after.holders ≡ loop ∷ []

acquire-free :
    (pool : PoolState) (loop : ℕ)
    → pool.loop ≡ none
    → pool.closing ≡ false
    → pool.failed ≡ false
    → acquire loop pool
      ≡ acquired (record pool { loop = some loop; idle = true; users = pool.users + 1 })
unfolding acquire
acquire-free pool loop h c f = ground arith

release-failed : (pool : PoolState) → (release pool).0.failed ≡ pool.failed
unfolding release
release-failed pool = ground arith

free-Acquires :
    (s : System) (loop : ℕ)
    → Fields s none 0 false
    → s.holders ≡ []
    → s.pool.failed ≡ false
    → Acquires loop s
free-Acquires s loop f h e = record {
  after = _;
  steps = more (acquires loop _ (acquire-free s.pool loop f.loop_eq f.closing_eq e)) done;
  held = ap (λ l. loop ∷ l) h;
}

empty-Acquires :
    (s : System) (loop : ℕ) → s.holders ≡ [] → s.pool.failed ≡ false → Phase s → Acquires loop s
unfolding close_finished
empty-Acquires s loop h e (free f _) = free-Acquires s loop f h e
empty-Acquires s loop h e (used l n f k a) = absurd (omega (arith, k, ap length h))
empty-Acquires s loop h e (cleaned l f _) =
    let t = record s { pool = close_finished s.pool; cleanups = 0 } in
    let r =
      free-Acquires t loop
        (record { loop_eq = refl; users_eq = f.users_eq; cleanups_eq = refl; closing_eq = refl }) h
        e in
    record { after = r.after; steps = more (finishes 0 f.cleanups_eq) r.steps; held = r.held }

holders-Acquires :
    (holders : List ℕ) (s : System) (loop : ℕ)
    → s.holders ≡ holders
    → s.pool.failed ≡ false
    → Phase s
    → Acquires loop s
holders-Acquires [] s loop h e p = empty-Acquires s loop h e p
holders-Acquires (x ∷ holders) s loop h e p =
    let r =
      holders-Acquires holders (released s holders) loop refl (release-failed s.pool ∙ e)
        (releases-Phase s [] x holders h p) in
    record { after = r.after; steps = more (releases [] x holders h) r.steps; held = r.held }

-- From every reachable state in which no cleanup has failed, and for every loop, there are steps
-- after which a client of this loop has the pool for itself.
pub Reach-Acquires : {s : System} (loop : ℕ) → Reach s → s.pool.failed ≡ false → Acquires loop s
Reach-Acquires {s} loop r e = holders-Acquires s.holders s loop refl e (Reach-Phase r)
