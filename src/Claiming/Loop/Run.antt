-- ===== src/Claiming/Loop/Run.antt =====
-- The loop from its start to its end accounts for its work.
use mathlib.Core.List.{append-nil}
use maivn.Prelude.{
  ℕ, ◌≡◌, refl, ◌∙◌, inl, inr, String, Bool, Option, List, [], ◌∷◌, ◌++◌, Result, ok, err, if-case,
}
use maivn.Claiming.{ℤ, ClaimedWork}
use maivn.Claiming.Reports.{
  Raised, http_error, transport_error, protocol_error, claim_lost, cancelled, other_error, Effect,
  Answer, is_terminal,
}
use maivn.Claiming.Reports.Endings.{taken_up}
use maivn.Claiming.Loop.{RunScript, Passed, pair_with}
use maivn.Claiming.Loop.Passes.{
  PassScript, claim, pass_of, one_pass, rounds, release_held, run, quiet, leaving,
}
use maivn.Claiming.Loop.Effects.{outcomes, taken_up-append}
use maivn.Claiming.Loop.Rounds.{
  perform_all-Settles, followed-Settles, release_held-takes_none, release-Repeated,
}
use maivn.Claiming.Loop.Settling.{Repeated, Work, dues, fires, Settles}

module _ {ℓ} {F : Type ℓ} where
  abbrev offer : (ℕ → RunScript F) → Result Raised (List (ClaimedWork F) × F) → Work F
  offer scripts (ok (works, wait)) = pair_with works 0 scripts
  offer scripts (err exc) = []

module _ {ℓ} {F : Type ℓ} (float : ℤ → Option F) (idle_poll : F) where
  -- All that the platform hands over, in order.
  abbrev pub offered : List (PassScript F) → Work F
  offered [] = []
  offered (pass ∷ passes) = offer pass.scripts (claim float idle_poll pass.answer) ++ offered passes

module _ {ℓ} {F : Type ℓ} (as_integer : F → Option ℤ) (strip : String → String)
    (idle_seconds no_seconds : F) where
  silent_round :
      (trace : List Effect)
      → outcomes trace ≡ []
      → taken_up trace ≡ []
      → Settles as_integer strip [] (quiet trace)
  silent_round trace o t = record {
    taken = [];
    left = [];
    split = refl;
    takes = t;
    accounted = o;
    ready = inl (refl, refl, refl);
  }

  leaving-Settles : (exc : Raised) → Settles as_integer strip [] (leaving exc)
  leaving-Settles exc = record {
    taken = [];
    left = [];
    split = refl;
    takes = refl;
    accounted = refl;
    ready = inr (exc, refl);
  }

  pass_of-Settles :
      (scripts : ℕ → RunScript F) (o : Result Raised (List (ClaimedWork F) × F))
      → Settles as_integer strip
          (offer scripts o)
          (pass_of as_integer strip idle_seconds no_seconds scripts o).0
  unfolding pass_of
  pass_of-Settles scripts (ok ([], wait)) = silent_round _ refl refl
  pass_of-Settles scripts (ok (work ∷ works, wait)) = perform_all-Settles as_integer strip _
  pass_of-Settles scripts (err (http_error p s c)) =
      if-case (λ (o : Passed F × F). Settles as_integer strip [] o.0) (is_terminal s)
        (λ _. leaving-Settles (http_error p s c)) (λ _. silent_round _ refl refl)
  pass_of-Settles scripts (err transport_error) = silent_round _ refl refl
  pass_of-Settles scripts (err protocol_error) = silent_round _ refl refl
  pass_of-Settles scripts (err claim_lost) = leaving-Settles claim_lost
  pass_of-Settles scripts (err cancelled) = leaving-Settles cancelled
  pass_of-Settles scripts (err other_error) = leaving-Settles other_error

module _ {ℓ} {F : Type ℓ} (as_integer : F → Option ℤ) (strip : String → String)
    (float : ℤ → Option F) (idle_poll idle_seconds no_seconds : F) where
  rounds-Settles :
      (passes : List (PassScript F))
      → Settles as_integer strip
          (offered float idle_poll passes)
          (rounds as_integer strip float idle_poll idle_seconds no_seconds passes)
  unfolding rounds one_pass
  rounds-Settles [] = leaving-Settles as_integer strip idle_seconds no_seconds cancelled
  rounds-Settles (pass ∷ passes) =
      let answer = claim float idle_poll pass.answer in
      followed-Settles as_integer strip (offer pass.scripts answer) (offered float idle_poll passes)
        (pass_of as_integer strip idle_seconds no_seconds pass.scripts answer).0
        (rounds as_integer strip float idle_poll idle_seconds no_seconds passes)
        (pass_of-Settles as_integer strip idle_seconds no_seconds pass.scripts answer)
        (rounds-Settles passes)

  -- Whatever the platform, the runner and the network do: when the loop ends, the work that it took
  -- up is a prefix of what it was handed, and for each of it, in order, one report was sent, one to
  -- five times: the outcome of its run, or that it is abandoned, where its run was cancelled.
  pub run-settles :
      (passes : List (PassScript F)) (answers : ℕ → Answer) (interrupted : ℕ → Bool)
      → (taken : Work F) × (left : Work F) × (offered float idle_poll passes ≡ taken ++ left)
        × (taken_up (
              run as_integer strip float idle_poll idle_seconds no_seconds passes answers
                interrupted)
            ≡ fires taken)
        × Repeated (dues as_integer strip taken) (
            outcomes (
              run as_integer strip float idle_poll idle_seconds no_seconds passes answers
                interrupted))
  unfolding run
  run-settles passes answers interrupted =
      let p = rounds as_integer strip float idle_poll idle_seconds no_seconds passes in
      let s = rounds-Settles passes in
      (
        s.taken,
        s.left,
        s.split,
        taken_up-append p.trace (release_held as_integer strip p.held answers interrupted).0
            ∙ (rw (s.takes, release_held-takes_none as_integer strip p.held answers interrupted)
                (append-nil (fires s.taken))),
        release-Repeated as_integer strip (dues as_integer strip s.taken) p.trace p.held answers
            interrupted s.accounted,
      )
