-- ===== src/Claiming/Loop/Passes.antt =====
-- A claim with the work that it hands over, and the loop to its end (`WorkClaimer.claim`,
-- `_one_pass`, `run` and `_release_held` of src/maivn/_internal/claiming.py).
use maivn.Prelude.{
  ℕ, String, Bool, Option, none, some, List, [], ◌∷◌, ◌++◌, if◌then◌else◌, Result, ok, err,
}
use maivn.Claiming.{ℤ, Fields, ClaimedWork, ClaimError, claimed_all, entries_of, get, wait_of}
use maivn.Claiming.Reports.{
  Raised, http_error, transport_error, protocol_error, cancelled, other_error, is_terminal,
  released, idle, unreachable, Effect, emitted, Answer, Ran, report_outcome,
}
use maivn.Claiming.Loop.{
  RunScript, Passed, stopped, due_report, then_emit, perform_all, pair_with, followed,
}

-- One round: the answer to the claim, and a script for each piece of work.
pub record PassScript {ℓ} (F : Type ℓ) : Type ℓ where
  pub answer : Result Raised (Fields F)
  pub scripts : ℕ → RunScript F

module _ {ℓ} {F : Type ℓ} where
  claims_of :
      Result ClaimError (List (ClaimedWork F)) → Option F → Result Raised (List (ClaimedWork F) × F)
  claims_of (ok works) (some wait) = ok (works, wait)
  claims_of (ok works) none = err other_error
  claims_of (err e) wait = err other_error

  abbrev pub quiet : List Effect → Passed F
  quiet trace = record { trace = trace; held = none; leaves = none }

  abbrev pub leaving : Raised → Passed F
  leaving exc = record { trace = []; held = none; leaves = some exc }

-- `float` makes a float of an integer, where one can hold it; `idle_poll` is the constant.
module _ {ℓ} {F : Type ℓ} (float : ℤ → Option F) (idle_poll : F) where
  -- `WorkClaimer.claim`, once the platform has answered.
  unfoldable pub claim : Result Raised (Fields F) → Result Raised (List (ClaimedWork F) × F)
  unfolding claims_of get claimed_all wait_of
  claim (err exc) = err exc
  claim (ok body) =
      claims_of (claimed_all (entries_of (get "claims" body)))
        (wait_of float idle_poll (get "poll_after_seconds" body))

-- `idle_seconds` is the loop's own pause, and `no_seconds` is 0.0.
module _ {ℓ} {F : Type ℓ} (as_integer : F → Option ℤ) (strip : String → String)
    (idle_seconds no_seconds : F) where
  -- `_one_pass`, with the wait that it returns.
  unfoldable pub pass_of :
      (ℕ → RunScript F) → Result Raised (List (ClaimedWork F) × F) → Passed F × F
  unfolding perform_all
  pass_of scripts (ok ([], wait)) = (quiet (emitted "" idle ∷ []), wait)
  pass_of scripts (ok (work ∷ works, wait)) =
      (perform_all as_integer strip (pair_with (work ∷ works) 0 scripts), no_seconds)
  pass_of scripts (err (http_error plan_limit status code)) =
      if is_terminal status
      then (leaving (http_error plan_limit status code), idle_seconds)
      else (quiet (emitted "" unreachable ∷ []), idle_seconds)
  pass_of scripts (err transport_error) = (quiet (emitted "" unreachable ∷ []), idle_seconds)
  pass_of scripts (err protocol_error) = (quiet (emitted "" unreachable ∷ []), idle_seconds)
  pass_of scripts (err exc) = (leaving exc, idle_seconds)

module _ {ℓ} {F : Type ℓ} (as_integer : F → Option ℤ) (strip : String → String) where
  -- `_release_held`
  unfoldable pub release_held : Option (ClaimedWork F) → (ℕ → Answer) → (ℕ → Bool) → Ran
  unfolding due_report then_emit
  release_held none answers interrupted = ([], none)
  release_held (some work) answers interrupted =
      then_emit work.fire_id released
        (report_outcome answers interrupted (due_report as_integer strip work stopped))

module _ {ℓ} {F : Type ℓ} (as_integer : F → Option ℤ) (strip : String → String)
    (float : ℤ → Option F) (idle_poll idle_seconds no_seconds : F) where
  unfoldable pub one_pass : PassScript F → Passed F × F
  unfolding pass_of claim
  one_pass pass =
      pass_of as_integer strip idle_seconds no_seconds pass.scripts
        (claim float idle_poll pass.answer)

  -- The rounds of `run`; past the last of them the task is cancelled as it waits.
  unfoldable pub rounds : List (PassScript F) → Passed F
  unfolding one_pass
  rounds [] = leaving cancelled
  rounds (pass ∷ passes) = followed (one_pass pass).0 (rounds passes)

  -- `run`: what it does, to its end; `answers` and `interrupted` are those of the release.
  unfoldable pub run : List (PassScript F) → (ℕ → Answer) → (ℕ → Bool) → List Effect
  unfolding rounds release_held
  run passes answers interrupted =
      let p = rounds passes in
      p.trace ++ (release_held as_integer strip p.held answers interrupted).0
