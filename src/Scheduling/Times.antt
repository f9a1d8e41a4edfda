-- ===== src/Scheduling/Times.antt =====
-- When a job fires (`Schedule` and its subclasses, `JitterSpec.apply`, and the windows of
-- `ScheduledJob` in src/maivn/_internal/compat/scheduling.py). All instants are in the schedule's time
-- zone already.
pub mod Progress
use maivn.Prelude.{
  ℕ, zero, suc, ◌+◌, ◌-◌, ◌*◌, Bool, true, false, ◌&&◌, Option, none, some, List, [], ◌∷◌,
  if◌then◌else◌, leb, ltb,
}

-- `CronSchedule.next_after` is the package croniter's, and a parameter. `floor_ratio` is Python's
-- `int(a.total_seconds() // b.total_seconds())`, whose operands are floats.
pub data Schedule : Type 0 where
  cron : (ℕ → Option ℕ) → Schedule
  interval : ℕ → ℕ → Schedule
  at : ℕ → Schedule

pub past_end : Option ℕ → ℕ → Bool
past_end none next_at = false
past_end (some end_at) next_at = ltb end_at next_at

module _ (floor_ratio : ℕ → ℕ → ℕ) where
  unfoldable pub next_after : Schedule → ℕ → Option ℕ
  next_after (cron next) after = next after
  next_after (interval period start) after =
      if ltb after start
      then some start
      else some (start + (floor_ratio (after - start) period + 1) * period)
  next_after (at when) after = if leb when after then none else some when

  -- `Schedule.upcoming`
  pub upcoming : Schedule → ℕ → ℕ → List ℕ
  unfolding next_after
  upcoming schedule zero cursor = []
  upcoming schedule (suc count) cursor = elim (next_after schedule cursor) [
    | none ↦ []
    | some next_at ↦ next_at ∷ upcoming schedule count next_at
  ]

  -- `_apply_start_window`
  unfoldable pub apply_start_window : Schedule → Option ℕ → Option ℕ → Option ℕ
  apply_start_window schedule start_at none = none
  apply_start_window schedule none (some next_at) = some next_at
  apply_start_window schedule (some start_at) (some next_at) =
      if leb start_at next_at then some next_at else next_after schedule (start_at - 1)

  -- The instant that a round of `_run_loop` waits for, or none where the loop ends.
  unfoldable pub next_fire : Schedule → Option ℕ → Option ℕ → ℕ → Option ℕ
  unfolding apply_start_window past_end
  next_fire schedule start_at end_at now =
      elim (apply_start_window schedule start_at (next_after schedule now)) [
        | none ↦ none
        | some next_at ↦ if past_end end_at next_at then none else some next_at
      ]

-- A signed duration.
pub data Offset : Type 0 where
  later earlier : ℕ → Offset

unfoldable pub shift : ℕ → Offset → ℕ
shift instant (later d) = instant + d
shift instant (earlier d) = instant - d

overruns : Bool → ℕ → Option ℕ → Bool
overruns skip_if_overruns_next fire_at none = false
overruns skip_if_overruns_next fire_at (some next_at) = skip_if_overruns_next && leb next_at fire_at

-- `JitterSpec.apply`, with the offset that was drawn.
unfoldable pub apply_jitter : Bool → Offset → ℕ → Option ℕ → ℕ × Bool
unfolding shift overruns
apply_jitter skip_if_overruns_next offset scheduled_at next_at =
    let fire_at = shift scheduled_at offset in
    (fire_at, overruns skip_if_overruns_next fire_at next_at)
