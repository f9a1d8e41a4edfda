-- ===== src/Scheduling/Job/History.antt =====
-- What a caller reads of the history.
use maivn.Prelude.{
  ℕ, suc, ◌-◌, ◌≤◌, ◌≡◌, refl, ◌⊎◌, inl, inr, some, List, [], ◌∷◌, ◌++◌, arith, length,
  length-append, drop, ap, ◌∙◌,
}
use maivn.Scheduling.Record.{RunRecord, Job}
use maivn.Scheduling.Job.{history_of}

drop-prefix : (xs ys : List RunRecord) → drop (length xs) (xs ++ ys) ≡ ys
drop-prefix [] ys = refl
drop-prefix (x ∷ xs) ys = drop-prefix xs ys

-- A positive limit returns exactly the newest entries: all that come behind the older ones, where
-- they are as many as the limit, or the whole history where it has fewer. The limit 0 returns the
-- whole history, old entries and recent, and not none of it.
pub history_of-newest :
    (limit : ℕ) (j : Job) (older recent : List RunRecord)
    → j.history ≡ older ++ recent
    → (length recent ≡ suc limit) ⊎ ((older ≡ []) × (length recent ≤ suc limit))
    → (history_of (some (suc limit)) j ≡ recent) × (history_of (some 0) j ≡ older ++ recent)
unfolding history_of
history_of-newest limit j older recent e h =
    (rw e (ap (λ n. drop n (older ++ recent)) (kept h) ∙ drop-prefix older recent), e)
  where
    kept :
        (length recent ≡ suc limit) ⊎ ((older ≡ []) × (length recent ≤ suc limit))
        → length (older ++ recent) - suc limit ≡ length older
    kept (inl full) = omega (arith, length-append older recent)
    kept (inr (whole, few)) = omega (arith, length-append older recent, ap length whole)
