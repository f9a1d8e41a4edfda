-- ===== src/Scheduling/Times/Progress.antt =====
-- Fire times move forward and stay in their windows.
use native.Mathlib.Decide.{dec_lt, dec_le}
use maivn.Prelude.{
  Option-cases, ℕ, zero, suc, ◌+◌, ◌-◌, ◌*◌, ◌/◌, ◌≤◌, ◌<◌, ◌≡◌, ◌↔◌, false, Option, none, some,
  List, [], ◌∷◌, arith, inl, inr,
}
use maivn.Scheduling.Times.{
  Schedule, cron, interval, at, next_after, upcoming, apply_start_window, next_fire, past_end,
}

-- The quotient is at most the ratio of the floats exactly where the grid point behind it is later.
grid_iff :
    (elapsed period steps : ℕ)
    → 0 < period
    → (elapsed < (steps + 1) * period) ↔ (elapsed / period ≤ steps)
grid_iff elapsed period steps p = (λ h. grind arith, λ h. grind arith)

abbrev pub NotBefore : Option ℕ → ℕ → Type 0
NotBefore none t = Unit
NotBefore (some start_at) t = start_at ≤ t

abbrev pub NotAfter : Option ℕ → ℕ → Type 0
NotAfter none t = Unit
NotAfter (some end_at) t = t ≤ end_at

module _ (floor_ratio : ℕ → ℕ → ℕ) where
  -- From its start on, an interval schedule's next time is strictly after the given one exactly
  -- where the ratio of the two durations, which the code computes with floats, is not below the
  -- true quotient. Where it is below, the time returned is not in the future.
  pub next_after-interval_iff :
      (period start after next_at : ℕ)
      → 0 < period
      → start ≤ after
      → next_after floor_ratio (interval period start) after ≡ some next_at
      → (after < next_at) ↔ ((after - start) / period ≤ floor_ratio (after - start) period)
  unfolding next_after
  next_after-interval_iff period start after next_at p s h = (
    (λ b.
        (grid_iff (after - start) period (floor_ratio (after - start) period) p).0 (ground arith)),
    (λ b.
        let c : after - start < (floor_ratio (after - start) period + 1) * period =
          (grid_iff (after - start) period (floor_ratio (after - start) period) p).1 b in
        ground arith),
  )

  -- What a cron expression's iterator promises; an interval's period is positive, and its ratios
  -- come out right.
  abbrev pub Advances : Schedule → Type 0
  Advances (cron next) = (after next_at : ℕ) → next after ≡ some next_at → after < next_at
  Advances (interval period start) =
      (0 < period) × ((elapsed : ℕ) → elapsed / period ≤ floor_ratio elapsed period)
  Advances (at when) = Unit

  next_after-later :
      (schedule : Schedule) (after next_at : ℕ)
      → Advances schedule
      → next_after floor_ratio schedule after ≡ some next_at
      → after < next_at
  next_after-later (cron next) after next_at p h = p after next_at (unfold next_after in h)
  next_after-later (interval period start) after next_at p h = elim (dec_lt after start) [
    | yes early ↦ unfold next_after in ground arith
    | no late ↦
        (next_after-interval_iff period start after next_at p.0 (omega arith) h).1
          (p.1 (after - start))
  ]
  next_after-later (at when) after next_at p h = unfold next_after in ground arith

  -- The times of a list ascend strictly from a first bound.
  abbrev pub Ascends : ℕ → List ℕ → Type 0
  Ascends after [] = Unit
  Ascends after (t ∷ times) = (after < t) × Ascends t times

  -- The upcoming times ascend strictly, and are all after the given one.
  pub upcoming-Ascends :
      (schedule : Schedule) (count after : ℕ)
      → Advances schedule
      → Ascends after (upcoming floor_ratio schedule count after)
  unfolding upcoming
  upcoming-Ascends schedule zero after p = tt
  upcoming-Ascends schedule (suc count) after p =
      elim (Option-cases (next_after floor_ratio schedule after)) [
        | inl over ↦ rw (over, Ascends) tt
        | inr (t, e) ↦
            rw (e, Ascends)
              (next_after-later schedule after t p e, upcoming-Ascends schedule count t p)
      ]

  windowed-later :
      (schedule : Schedule) (start_at : Option ℕ) (now candidate fire_at : ℕ)
      → Advances schedule
      → now < candidate
      → apply_start_window floor_ratio schedule start_at (some candidate) ≡ some fire_at
      → (now < fire_at) × NotBefore start_at fire_at
  unfolding apply_start_window
  windowed-later schedule none now candidate fire_at p l h = (ground arith, tt)
  windowed-later schedule (some s) now candidate fire_at p l h = elim (dec_le s candidate) [
    | yes reached ↦ (ground arith, ground arith)
    | no early ↦
        let e : next_after floor_ratio schedule (s - 1) ≡ some fire_at = ground arith in
        let b : s - 1 < fire_at = next_after-later schedule (s - 1) fire_at p e in
        (omega arith, omega arith)
  ]

  -- The instant that the run loop waits for is in the future, not before the start of the job's
  -- window and not after its end.
  pub next_fire-in_window :
      (schedule : Schedule) (start_at end_at : Option ℕ) (now fire_at : ℕ)
      → Advances schedule
      → next_fire floor_ratio schedule start_at end_at now ≡ some fire_at
      → (now < fire_at) × NotBefore start_at fire_at × NotAfter end_at fire_at
  unfolding next_fire
  next_fire-in_window schedule start_at end_at now fire_at p h =
      elim (Option-cases (next_after floor_ratio schedule now)) [
        | inl over ↦ absurd (unfold apply_start_window in ground arith)
        | inr (candidate, e) ↦
            let w : apply_start_window floor_ratio schedule start_at (some candidate)
                ≡ some fire_at =
              ground arith in
            let (l, s) =
              windowed-later schedule start_at now candidate fire_at p
                (next_after-later schedule now candidate p e) w in
            (l, s, within end_at (ground arith))
      ]
    where
      within : (end_at : Option ℕ) → past_end end_at fire_at ≡ false → NotAfter end_at fire_at
      within none q = tt
      within (some e) q = ground arith
