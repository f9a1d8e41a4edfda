-- ===== src/Claiming/Loop/Settling.antt =====
-- Every piece of work that the loop takes up is accounted for.
use mathlib.Core.Path.{subst}
use mathlib.Core.List.{append-nil, append_assoc}
use maivn.Prelude.{
  ℕ, suc, ◌≤◌, ◌≡◌, refl, sym, ap, ◌∙◌, ◌⊎◌, inl, inr, String, Bool, true, false, Option, none,
  some, List, [], ◌∷◌, ◌++◌, map, arith, if-case,
}
use maivn.Claiming.{ℤ, ClaimedWork}
use maivn.Claiming.Reports.{
  Raised, cancelled, Report, ClaimEvent, claimed, Effect, emitted, Answer, report_outcome,
}
use maivn.Claiming.Reports.Backoff.{replicate}
use maivn.Claiming.Reports.Endings.{is_claimed, taken_up}
use maivn.Claiming.Loop.{
  RunnerOutcome, run_report, plain, nothing, raised, stopped, RunScript, Passed, due_report,
  settled_event, settle, is_stopped, perform, keep_alive, then_emit,
}
use maivn.Claiming.Loop.Effects.{
  is_outcome, outcomes, outcomes-append, taken_up-append, keep_alive-Silent, settle-Sends, Sends,
}

-- Each of the reports, in order, one to five times.
abbrev pub Repeated : List Report → List Report → Type 0
Repeated [] sent = sent ≡ []
Repeated (r ∷ rs) sent =
    (k : ℕ) × (k ≤ 4)
    × (rest : List Report) × (sent ≡ replicate (suc k) r ++ rest)
    × Repeated rs rest

pub Repeated-append :
    (rs ss xs ys : List Report) → Repeated rs xs → Repeated ss ys → Repeated (rs ++ ss) (xs ++ ys)
Repeated-append [] ss xs ys e h = subst (λ l. Repeated ss (l ++ ys)) (sym e) h
Repeated-append (r ∷ rs) ss xs ys (k, le, rest, e, h) g = (
  k,
  le,
  rest ++ ys,
  ap (λ l. l ++ ys) e ∙ append_assoc (replicate (suc k) r) rest ys,
  Repeated-append rs ss rest ys h g,
)

-- Claims with their scripts.
abbrev pub Work {ℓ} : Type ℓ → Type ℓ
Work F = List (ClaimedWork F × RunScript F)

abbrev pub fires {ℓ} : {F : Type ℓ} → Work F → List String
fires works = map (λ w. w.0.fire_id) works

module _ {ℓ} {F : Type ℓ} (as_integer : F → Option ℤ) (strip : String → String) where
  -- The report that each piece of work is due.
  abbrev pub dues : Work F → List Report
  dues works = map (λ w. due_report as_integer strip w.0 w.1.outcome) works

  -- The claim that is held still is the last one, and its report is yet to come.
  abbrev pub Accounted : List Report → Option (ClaimedWork F) → List Report → Type 0
  Accounted due none sent = Repeated due sent
  Accounted due (some work) sent =
      (before : List Report) × (due ≡ before ++ due_report as_integer strip work stopped ∷ [])
      × Repeated before sent

  pub record Settles (works : Work F) (p : Passed F) : Type ℓ where
    pub taken : Work F
    pub left : Work F
    pub split : works ≡ taken ++ left
    pub takes : taken_up p.trace ≡ fires taken
    pub accounted : Accounted (dues taken) p.held (outcomes p.trace)
    pub ready :
        ((p.leaves ≡ none) × (p.held ≡ none) × (left ≡ []))
        ⊎ ((exc : Raised) × (p.leaves ≡ some exc))

  due_report-is_outcome :
      (work : ClaimedWork F) (o : RunnerOutcome F)
      → is_outcome (due_report as_integer strip work o).status ≡ true
  unfolding due_report
  due_report-is_outcome work (run_report output usage) = refl
  due_report-is_outcome work (plain output) = refl
  due_report-is_outcome work nothing = refl
  due_report-is_outcome work (raised reason) = refl
  due_report-is_outcome work stopped = refl

  settled_event-not_claimed : (o : RunnerOutcome F) → is_claimed (settled_event o) ≡ false
  settled_event-not_claimed (run_report output usage) = refl
  settled_event-not_claimed (plain output) = refl
  settled_event-not_claimed nothing = refl
  settled_event-not_claimed (raised reason) = refl
  settled_event-not_claimed stopped = refl

  is_stopped-stopped : (o : RunnerOutcome F) → is_stopped o ≡ true → o ≡ stopped
  unfolding is_stopped
  is_stopped-stopped (run_report output usage) h = absurd (ground arith)
  is_stopped-stopped (plain output) h = absurd (ground arith)
  is_stopped-stopped nothing h = absurd (ground arith)
  is_stopped-stopped (raised reason) h = absurd (ground arith)
  is_stopped-stopped stopped h = refl

  due_report-fire_id :
      (work : ClaimedWork F) (o : RunnerOutcome F)
      → (due_report as_integer strip work o).fire_id ≡ work.fire_id
  unfolding due_report
  due_report-fire_id work (run_report output usage) = refl
  due_report-fire_id work (plain output) = refl
  due_report-fire_id work nothing = refl
  due_report-fire_id work (raised reason) = refl
  due_report-fire_id work stopped = refl

  pub due_report-Sends :
      (work : ClaimedWork F) (o : RunnerOutcome F) (event : ClaimEvent) (answers : ℕ → Answer)
      (interrupted : ℕ → Bool)
      → is_claimed event ≡ false
      → Sends
          (due_report as_integer strip work o)
          (then_emit work.fire_id event
            (report_outcome answers interrupted (due_report as_integer strip work o))).0
  due_report-Sends work o event answers interrupted e =
      let report = due_report as_integer strip work o in
      subst (λ f. Sends report (then_emit f event (report_outcome answers interrupted report)).0)
        (due_report-fire_id work o)
        (settle-Sends answers interrupted report event (due_report-is_outcome work o) e)

  pub settle-Repeated :
      (report : Report) (before after : List Effect)
      → outcomes before ≡ []
      → Sends report after
      → Repeated (report ∷ []) (outcomes (before ++ after))
  settle-Repeated report before after silent ((k, le, e), t) = (
    k,
    le,
    [],
    (rw (outcomes-append before after, silent, e) (sym (append-nil (replicate (suc k) report)))),
    refl,
  )

  abbrev no_claim : Option (ClaimedWork F)
  no_claim = none

  abbrev no_work : Work F
  no_work = []

  ready_of :
      (o : Option Raised)
      → ((o ≡ none) × (no_claim ≡ none) × (no_work ≡ [])) ⊎ ((exc : Raised) × (o ≡ some exc))
  ready_of none = inl (refl, refl, refl)
  ready_of (some exc) = inr (exc, refl)

  pub perform-Settles :
      (work : ClaimedWork F) (script : RunScript F)
      → Settles ((work, script) ∷ []) (perform as_integer strip work script)
  unfolding perform
  perform-Settles work script =
      let (silent, takes_none) = keep_alive-Silent work script.ticks in
      let due = due_report as_integer strip work script.outcome in
      let begun = emitted work.fire_id claimed ∷ keep_alive work script.ticks in
      let sends =
        due_report-Sends work script.outcome (settled_event script.outcome) script.answers
          script.interrupted (settled_event-not_claimed script.outcome) in
      if-case (Settles ((work, script) ∷ [])) (is_stopped script.outcome)
        (λ s. record {
          taken = (work, script) ∷ [];
          left = [];
          split = refl;
          takes = ap (λ l. work.fire_id ∷ l) takes_none;
          accounted = (
            [],
            ap (λ o. due_report as_integer strip work o ∷ []) (is_stopped-stopped script.outcome s),
            silent,
          );
          ready = inr (cancelled, refl);
        })
        (λ s. record {
          taken = (work, script) ∷ [];
          left = [];
          split = refl;
          takes =
              ap (λ l. work.fire_id ∷ l)
                (taken_up-append (keep_alive work script.ticks)
                    (settle as_integer strip work script).0
                  ∙ (rw (takes_none, sends.1) refl));
          accounted =
              settle-Repeated due begun (settle as_integer strip work script).0 silent sends;
          ready = ready_of (settle as_integer strip work script).1;
        })
