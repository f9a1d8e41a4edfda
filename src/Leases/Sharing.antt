-- ===== src/Leases/Sharing.antt =====
-- How clients share a pool: one loop at a time, and a cleanup only when no client is left.
use mathlib.Core.Path.{subst}
use maivn.Prelude.{
  ℕ, suc, ◌+◌, ◌≡◌, refl, sym, ap, ◌∙◌, ◌⊎◌, inl, inr, Bool, true, false, Option, none, some, List,
  [], ◌∷◌, ◌++◌, nat_eq, length, arith, Bool-cases,
}
use maivn.Leases.{
  PoolState, acquired, waits, acquire, release, close_failed, close_finished, System, released,
  Step, acquires, tries, releases, fails, finishes, Reach, starts, then_step,
}

-- Every client is of this loop.
abbrev pub AllOn : ℕ → List ℕ → Type 0
AllOn loop [] = Unit
AllOn loop (l ∷ holders) = (l ≡ loop) × AllOn loop holders

-- What the fields of a pool say of it.
pub record Fields (s : System) (loop : Option ℕ) (cleanups : ℕ) (closing : Bool) : Type 0 where
  pub loop_eq : s.pool.loop ≡ loop
  pub users_eq : s.pool.users ≡ length s.holders
  pub cleanups_eq : s.cleanups ≡ cleanups
  pub closing_eq : s.pool.closing ≡ closing

-- A pool is free, or is used by clients of one loop, or is being closed once and has no client.
pub data Phase (s : System) : Type 0 where
  free : Fields s none 0 false → s.holders ≡ [] → Phase s
  used :
      (loop n : ℕ)
      → Fields s (some loop) 0 false
      → length s.holders ≡ suc n
      → AllOn loop s.holders
      → Phase s
  cleaned : (loop : ℕ) → Fields s (some loop) 1 true → s.holders ≡ [] → Phase s

AllOn-remove :
    (l : ℕ) (before : List ℕ) (loop : ℕ) (after : List ℕ)
    → AllOn l (before ++ loop ∷ after)
    → AllOn l (before ++ after)
AllOn-remove l [] loop after (h, hs) = hs
AllOn-remove l (b ∷ before) loop after (h, hs) = (h, AllOn-remove l before loop after hs)

-- What a successful attempt does to the pool.
abbrev Got : ℕ → PoolState → PoolState → Type 0
Got loop pool p = (p.loop ≡ some loop) × (p.users ≡ pool.users + 1) × (p.closing ≡ pool.closing)

acquire-none :
    (pool : PoolState) (loop : ℕ) (p : PoolState)
    → pool.loop ≡ none
    → pool.closing ≡ false
    → acquire loop pool ≡ acquired p
    → Got loop pool p
unfolding acquire
acquire-none pool loop p h c e = (ground arith, ground arith, ground arith)

acquire-some :
    (pool : PoolState) (loop l : ℕ) (p : PoolState)
    → pool.loop ≡ some l
    → acquire loop pool ≡ acquired p
    → Got loop pool p × (l ≡ loop)
unfolding acquire
acquire-some pool loop l p h e = elim (Bool-cases (nat_eq l loop)) [
  | inl t ↦ let q : l ≡ loop = ground (arith, t) in ((ground arith, ground arith, ground arith), q)
  | inr t ↦ absurd (ground arith)
]

acquire-closing :
    (pool : PoolState) (loop : ℕ) (p : PoolState)
    → pool.closing ≡ true
    → ¬ (acquire loop pool ≡ acquired p)
unfolding acquire
acquire-closing pool loop p c e = ground arith

acquired-Phase :
    (s : System) (loop : ℕ) (p : PoolState)
    → acquire loop s.pool ≡ acquired p
    → Phase s
    → Phase (record s { pool = p; holders = loop ∷ s.holders })
acquired-Phase s loop p e (free f h) =
    let (o, u, c) = acquire-none s.pool loop p f.loop_eq f.closing_eq e in
    used loop 0
      (record {
        loop_eq = o;
        users_eq = omega (arith, u, f.users_eq);
        cleanups_eq = f.cleanups_eq;
        closing_eq = c ∙ f.closing_eq;
      })
      (ap (λ l. suc (length l)) h) (refl, subst (AllOn loop) (sym h) tt)
acquired-Phase s loop p e (used l n f k a) =
    let (g, q) = acquire-some s.pool loop l p f.loop_eq e in
    used loop (suc n)
      (record {
        loop_eq = g.0;
        users_eq = omega (arith, g.1, f.users_eq);
        cleanups_eq = f.cleanups_eq;
        closing_eq = g.2 ∙ f.closing_eq;
      })
      (ap suc k) (refl, subst (λ x. AllOn x s.holders) q a)
acquired-Phase s loop p e (cleaned l f h) = absurd (acquire-closing s.pool loop p f.closing_eq e)

waits-none :
    (pool : PoolState) (loop : ℕ) (p : PoolState)
    → pool.loop ≡ none
    → pool.closing ≡ false
    → ¬ (acquire loop pool ≡ waits p)
unfolding acquire
waits-none pool loop p h c e = ground arith

waits-some :
    (pool : PoolState) (loop l : ℕ) (p : PoolState)
    → pool.loop ≡ some l
    → acquire loop pool ≡ waits p
    → p ≡ pool
unfolding acquire
waits-some pool loop l p h e = ground arith

waits-Phase :
    (s : System) (loop : ℕ) (p : PoolState)
    → acquire loop s.pool ≡ waits p
    → Phase s
    → Phase (record s { pool = p })
waits-Phase s loop p e (free f h) = absurd (waits-none s.pool loop p f.loop_eq f.closing_eq e)
waits-Phase s loop p e (used l n f k a) =
    subst (λ q. Phase (record s { pool = q })) (sym (waits-some s.pool loop l p f.loop_eq e))
      (used l n f k a)
waits-Phase s loop p e (cleaned l f h) =
    subst (λ q. Phase (record s { pool = q })) (sym (waits-some s.pool loop l p f.loop_eq e))
      (cleaned l f h)

released-last :
    (s : System) (holders : List ℕ) (l : ℕ)
    → Fields s (some l) 0 false
    → length s.holders ≡ suc (length holders)
    → holders ≡ []
    → Phase (released s holders)
unfolding release
released-last s holders l f k h =
    cleaned l
      (record {
        loop_eq = ground (arith, f.loop_eq);
        users_eq = ground (arith, f.users_eq, ap length h);
        cleanups_eq = ground (arith, f.users_eq, f.cleanups_eq, ap length h);
        closing_eq = ground (arith, f.users_eq, ap length h);
      })
      h

released-more :
    (s : System) (holders : List ℕ) (l n : ℕ)
    → Fields s (some l) 0 false
    → length s.holders ≡ suc (length holders)
    → length holders ≡ suc n
    → AllOn l holders
    → Phase (released s holders)
unfolding release
released-more s holders l n f k h a =
    used l n
      (record {
        loop_eq = ground (arith, f.loop_eq);
        users_eq = ground (arith, f.users_eq);
        cleanups_eq = ground (arith, f.users_eq, f.cleanups_eq);
        closing_eq = ground (arith, f.users_eq, f.closing_eq);
      })
      h a

length-removed :
    (before : List ℕ) (loop : ℕ) (after : List ℕ)
    → length (before ++ loop ∷ after) ≡ suc (length (before ++ after))
length-removed [] loop after = refl
length-removed (b ∷ before) loop after = ap suc (length-removed before loop after)

no_holder :
    (holders before : List ℕ) (loop : ℕ) (after : List ℕ)
    → holders ≡ before ++ loop ∷ after
    → ¬ (holders ≡ [])
no_holder holders before loop after e h =
    omega (arith, ap length e, ap length h, length-removed before loop after)

List-cases : (xs : List ℕ) → (xs ≡ []) ⊎ ((x : ℕ) × (rest : List ℕ) × (xs ≡ x ∷ rest))
List-cases [] = inl refl
List-cases (x ∷ rest) = inr (x, rest, refl)

pub releases-Phase :
    (s : System) (before : List ℕ) (loop : ℕ) (after : List ℕ)
    → s.holders ≡ before ++ loop ∷ after
    → Phase s
    → Phase (released s (before ++ after))
releases-Phase s before loop after e (free f h) = absurd (no_holder s.holders before loop after e h)
releases-Phase s before loop after e (cleaned l f h) =
    absurd (no_holder s.holders before loop after e h)
releases-Phase s before loop after e (used l n f k a) =
    let rest = before ++ after in
    let m : length s.holders ≡ suc (length rest) = ap length e ∙ length-removed before loop after in
    elim (List-cases rest) [
      | inl h ↦ released-last s rest l f m h
      | inr (x, xs, h) ↦
          released-more s rest l (length xs) f m (ap length h)
            (AllOn-remove l before loop after (subst (AllOn l) e a))
    ]

fails-Phase : (s : System) → Phase s → Phase (record s { pool = close_failed s.pool })
unfolding close_failed
fails-Phase s (free f h) =
    free
      (record {
        loop_eq = f.loop_eq;
        users_eq = f.users_eq;
        cleanups_eq = f.cleanups_eq;
        closing_eq = f.closing_eq;
      })
      h
fails-Phase s (used l n f k a) =
    used l n
      (record {
        loop_eq = f.loop_eq;
        users_eq = f.users_eq;
        cleanups_eq = f.cleanups_eq;
        closing_eq = f.closing_eq;
      })
      k a
fails-Phase s (cleaned l f h) =
    cleaned l
      (record {
        loop_eq = f.loop_eq;
        users_eq = f.users_eq;
        cleanups_eq = f.cleanups_eq;
        closing_eq = f.closing_eq;
      })
      h

pub finishes-Phase :
    (s : System) (n : ℕ)
    → s.cleanups ≡ suc n
    → Phase s
    → Phase (record s { pool = close_finished s.pool; cleanups = n })
unfolding close_finished
finishes-Phase s n e (free f h) = absurd (omega (arith, e, f.cleanups_eq))
finishes-Phase s n e (used l m f k a) = absurd (omega (arith, e, f.cleanups_eq))
finishes-Phase s n e (cleaned l f h) =
    free
      (record {
        loop_eq = refl;
        users_eq = f.users_eq;
        cleanups_eq = omega (arith, e, f.cleanups_eq);
        closing_eq = refl;
      })
      h

step-Phase : {s t : System} → Step s t → Phase s → Phase t
step-Phase {s} (acquires loop p e) h = acquired-Phase s loop p e h
step-Phase {s} (tries loop p e) h = waits-Phase s loop p e h
step-Phase {s} (releases before loop after e) h = releases-Phase s before loop after e h
step-Phase {s} (fails n e) h = fails-Phase s h
step-Phase {s} (finishes n e) h = finishes-Phase s n e h

-- In every reachable state a pool is in one of three phases: free, without a loop, a client or a
-- cleanup; used, by one client or more, all of the loop that it has, and with no cleanup; or closed
-- by a single cleanup, when it has no client. `users` is the number of clients in each of them.
pub Reach-Phase : {s : System} → Reach s → Phase s
Reach-Phase starts =
    free (record { loop_eq = refl; users_eq = refl; cleanups_eq = refl; closing_eq = refl }) refl
Reach-Phase (then_step r step) = step-Phase step (Reach-Phase r)
