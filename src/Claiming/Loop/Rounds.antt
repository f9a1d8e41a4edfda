-- ===== src/Claiming/Loop/Rounds.antt =====
-- Rounds in a row, and the release at the end.
use mathlib.Core.Path.{subst}
use mathlib.Core.List.{append-nil, append_assoc}
use maivn.Prelude.{
  ℕ, ◌≡◌, refl, sym, ap, ◌∙◌, inl, inr, String, Bool, Option, none, some, List, [], ◌∷◌, ◌++◌, map,
}
use maivn.Claiming.{ℤ, ClaimedWork}
use maivn.Claiming.Reports.{Raised, Report, Effect, Answer, report_outcome, released}
use maivn.Claiming.Reports.Endings.{taken_up}
use maivn.Claiming.Loop.{Passed, due_report, stopped, perform, followed, perform_all, then_emit}
use maivn.Claiming.Loop.Passes.{release_held}
use maivn.Claiming.Loop.Effects.{outcomes, outcomes-append, taken_up-append}
use maivn.Claiming.Loop.Settling.{
  Repeated, Repeated-append, Work, dues, Accounted, Settles, perform-Settles, due_report-Sends,
  settle-Repeated,
}

module _ {ℓ} {F : Type ℓ} (as_integer : F → Option ℤ) (strip : String → String) where
  followed-none :
      (p q : Passed F) → p.leaves ≡ none → followed p q ≡ record q { trace = p.trace ++ q.trace }
  followed-none p q e = rw e refl

  followed-some : (p q : Passed F) (exc : Raised) → p.leaves ≡ some exc → followed p q ≡ p
  followed-some p q exc e = rw e refl

  map-append :
      {A : Type ℓ} {B : Type 0} (f : A → B) (xs ys : List A)
      → map f (xs ++ ys) ≡ map f xs ++ map f ys
  map-append f [] ys = refl
  map-append f (x ∷ xs) ys = ap (λ l. f x ∷ l) (map-append f xs ys)

  Accounted-append :
      (rs xs : List Report) (ss ys : List Report) (held : Option (ClaimedWork F))
      → Repeated rs xs
      → Accounted as_integer strip ss held ys
      → Accounted as_integer strip (rs ++ ss) held (xs ++ ys)
  Accounted-append rs xs ss ys none h g = Repeated-append rs ss xs ys h g
  Accounted-append rs xs ss ys (some work) h (before, e, g) = (
    rs ++ before,
    ap (λ l. rs ++ l) e ∙ sym (append_assoc rs before _),
    Repeated-append rs before xs ys h g,
  )

  Accounted-trace :
      (xs ys : Work F) (held : Option (ClaimedWork F)) (first next : List Effect)
      → Repeated (dues as_integer strip xs) (outcomes first)
      → Accounted as_integer strip (dues as_integer strip ys) held (outcomes next)
      → Accounted as_integer strip
          (dues as_integer strip (xs ++ ys))
          held
          (outcomes (first ++ next))
  Accounted-trace xs ys held first next h g =
      subst (λ l. Accounted as_integer strip l held (outcomes (first ++ next)))
        (sym (map-append (λ w. due_report as_integer strip w.0 w.1.outcome) xs ys))
        (subst
          (Accounted as_integer strip (dues as_integer strip xs ++ dues as_integer strip ys) held)
          (sym (outcomes-append first next))
          (Accounted-append (dues as_integer strip xs) (outcomes first) (dues as_integer strip ys)
            (outcomes next) held h g))

  pub followed-Settles :
      (xs ys : Work F) (p q : Passed F)
      → Settles as_integer strip xs p
      → Settles as_integer strip ys q
      → Settles as_integer strip (xs ++ ys) (followed p q)
  followed-Settles xs ys p q h g = elim h.ready [
    | inr (exc, e) ↦
        subst (Settles as_integer strip (xs ++ ys)) (sym (followed-some p q exc e)) (record {
          taken = h.taken;
          left = h.left ++ ys;
          split = ap (λ l. l ++ ys) h.split ∙ append_assoc h.taken h.left ys;
          takes = h.takes;
          accounted = h.accounted;
          ready = inr (exc, e);
        })
    | inl (e, u, l) ↦
        subst (Settles as_integer strip (xs ++ ys)) (sym (followed-none p q e)) (record {
          taken = h.taken ++ g.taken;
          left = g.left;
          split =
              ap (λ l. l ++ ys) (h.split ∙ ap (λ l. h.taken ++ l) l ∙ append-nil h.taken)
              ∙ ap (λ l. h.taken ++ l) g.split
              ∙ sym (append_assoc h.taken g.taken g.left);
          takes =
              taken_up-append p.trace q.trace
              ∙ (rw (h.takes, g.takes) (sym (map-append (λ w. w.0.fire_id) h.taken g.taken)));
          accounted =
              Accounted-trace h.taken g.taken q.held p.trace q.trace
                (subst
                  (λ o.
                    Accounted as_integer strip (dues as_integer strip h.taken) o (outcomes p.trace))
                  u h.accounted)
                g.accounted;
          ready = g.ready;
        })
  ]

  pub perform_all-Settles :
      (works : Work F) → Settles as_integer strip works (perform_all as_integer strip works)
  unfolding perform_all
  perform_all-Settles [] = record {
    taken = [];
    left = [];
    split = refl;
    takes = refl;
    accounted = refl;
    ready = inl (refl, refl, refl);
  }
  perform_all-Settles ((work, script) ∷ works) =
      followed-Settles ((work, script) ∷ []) works (perform as_integer strip work script)
        (perform_all as_integer strip works) (perform-Settles as_integer strip work script)
        (perform_all-Settles works)

  pub release_held-takes_none :
      (held : Option (ClaimedWork F)) (answers : ℕ → Answer) (interrupted : ℕ → Bool)
      → taken_up (release_held as_integer strip held answers interrupted).0 ≡ []
  unfolding release_held
  release_held-takes_none none answers interrupted = refl
  release_held-takes_none (some work) answers interrupted =
      (due_report-Sends as_integer strip work stopped released answers interrupted refl).1

  pub release-Repeated :
      (rs : List Report) (trace : List Effect) (held : Option (ClaimedWork F))
      (answers : ℕ → Answer) (interrupted : ℕ → Bool)
      → Accounted as_integer strip rs held (outcomes trace)
      → Repeated rs (outcomes (trace ++ (release_held as_integer strip held answers interrupted).0))
  unfolding release_held
  release-Repeated rs trace none answers interrupted h =
      subst (Repeated rs) (sym (outcomes-append trace [] ∙ append-nil (outcomes trace))) h
  release-Repeated rs trace (some work) answers interrupted (before, e, h) =
      let report = due_report as_integer strip work stopped in
      let released_ = then_emit work.fire_id released (report_outcome answers interrupted report) in
      subst (λ l. Repeated l (outcomes (trace ++ released_.0))) (sym e)
        (subst (Repeated (before ++ report ∷ [])) (sym (outcomes-append trace released_.0)) (
          Repeated-append before (report ∷ []) (outcomes trace) (outcomes released_.0) h (
            settle-Repeated as_integer strip report [] released_.0 refl
              (due_report-Sends as_integer strip work stopped released answers interrupted refl))))
