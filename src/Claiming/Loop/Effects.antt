-- ===== src/Claiming/Loop/Effects.antt =====
-- What the effects of the loop say of its work: the work that it takes up, and its outcomes.
use mathlib.Core.List.{append-nil}
use maivn.Prelude.{
  ℕ, zero, suc, ◌≤◌, ◌≡◌, refl, ap, ◌∙◌, Bool, true, false, none, some, List, [], ◌∷◌, ◌++◌, keep,
  keep-append, ok, err, arith,
}
use maivn.Claiming.{ClaimedWork}
use maivn.Claiming.Reports.{
  http_error, transport_error, protocol_error, claim_lost, cancelled, other_error, ReportStatus,
  working, ClaimEvent, Report, Effect, posted, slept, emitted, Answer, report_call, Ran,
  report_outcome,
}
use maivn.Claiming.Reports.Backoff.{replicate, posts, Backed-posts, report_outcome-Backed}
use maivn.Claiming.Reports.Endings.{is_claimed, taken_up, report_outcome-taken_up}
use maivn.Claiming.Loop.{keep_alive, after_tick, then_emit}

abbrev pub is_outcome : ReportStatus → Bool
is_outcome working = false
is_outcome _ = true

-- The reports of an outcome; the others keep a claim alive.
abbrev pub outcomes : List Effect → List Report
outcomes trace = keep (λ r. is_outcome r.status) (posts trace)

posts-append : (xs ys : List Effect) → posts (xs ++ ys) ≡ posts xs ++ posts ys
posts-append [] ys = refl
posts-append (posted r ∷ xs) ys = ap (λ l. r ∷ l) (posts-append xs ys)
posts-append (slept d ∷ xs) ys = posts-append xs ys
posts-append (emitted f e ∷ xs) ys = posts-append xs ys

pub outcomes-append : (xs ys : List Effect) → outcomes (xs ++ ys) ≡ outcomes xs ++ outcomes ys
outcomes-append xs ys =
    ap (keep (λ r. is_outcome r.status)) (posts-append xs ys)
    ∙ keep-append (λ r. is_outcome r.status) (posts xs) (posts ys)

pub taken_up-append : (xs ys : List Effect) → taken_up (xs ++ ys) ≡ taken_up xs ++ taken_up ys
taken_up-append [] ys = refl
taken_up-append (posted r ∷ xs) ys = taken_up-append xs ys
taken_up-append (slept d ∷ xs) ys = taken_up-append xs ys
taken_up-append (emitted f e ∷ xs) ys = ground (arith, taken_up-append xs ys)

module _ {ℓ} {F : Type ℓ} (work : ClaimedWork F) where
  abbrev Silent : List Effect → Type 0
  Silent trace = (outcomes trace ≡ []) × (taken_up trace ≡ [])

  after_tick-Silent :
      (rest : List Effect) (a : Answer) → Silent rest → Silent (after_tick work rest a)
  unfolding after_tick
  after_tick-Silent rest (ok _) h = h
  after_tick-Silent rest (err (http_error p s c)) h = h
  after_tick-Silent rest (err transport_error) h = h
  after_tick-Silent rest (err protocol_error) h = h
  after_tick-Silent rest (err claim_lost) h = (refl, refl)
  after_tick-Silent rest (err cancelled) h = (refl, refl)
  after_tick-Silent rest (err other_error) h = (refl, refl)

  -- A claim is kept alive without an outcome and without a new claim.
  pub keep_alive-Silent : (ticks : List Answer) → Silent (keep_alive work ticks)
  unfolding keep_alive
  keep_alive-Silent [] = (refl, refl)
  keep_alive-Silent (a ∷ ticks) =
      after_tick-Silent (keep_alive work ticks) (report_call a) (keep_alive-Silent ticks)

-- One to five copies of the report, and no claim.
abbrev pub Sends : Report → List Effect → Type 0
Sends report trace =
    ((k : ℕ) × (k ≤ 4) × (outcomes trace ≡ replicate (suc k) report)) × (taken_up trace ≡ [])

module _ (answers : ℕ → Answer) (interrupted : ℕ → Bool) where
  keep-replicate :
      (k : ℕ) (report : Report)
      → is_outcome report.status ≡ true
      → keep (λ r. is_outcome r.status) (replicate k report) ≡ replicate k report
  keep-replicate zero report h = refl
  keep-replicate (suc k) report h = rw (h, keep-replicate k report h) refl

  report_outcome-Sends :
      (report : Report)
      → is_outcome report.status ≡ true
      → Sends report (report_outcome answers interrupted report).0
  report_outcome-Sends report h =
      let b = report_outcome-Backed answers interrupted report in
      (
        (
          b.again,
          b.few,
          ap (keep (λ r. is_outcome r.status)) (Backed-posts answers interrupted b)
              ∙ keep-replicate (suc b.again) report h,
        ),
        report_outcome-taken_up answers interrupted report,
      )

  then_emit-Sends :
      (report : Report) (event : ClaimEvent) (r : Ran)
      → is_claimed event ≡ false
      → Sends report r.0
      → Sends report (then_emit report.fire_id event r).0
  unfolding then_emit
  then_emit-Sends report event (trace, some exc) e h = h
  then_emit-Sends report event (trace, none) e ((k, le, p), t) = (
    (
      k,
      le,
      outcomes-append trace (emitted report.fire_id event ∷ []) ∙ append-nil (outcomes trace) ∙ p,
    ),
    (rw (taken_up-append trace (emitted report.fire_id event ∷ []), t, e) refl),
  )

  -- A report of an outcome with the event after it.
  pub settle-Sends :
      (report : Report) (event : ClaimEvent)
      → is_outcome report.status ≡ true
      → is_claimed event ≡ false
      → Sends report (then_emit report.fire_id event (report_outcome answers interrupted report)).0
  settle-Sends report event h e =
      then_emit-Sends report event (report_outcome answers interrupted report) e
        (report_outcome-Sends report h)
