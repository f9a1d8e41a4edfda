-- ===== src/Bridge/History/Eviction.antt =====
-- What an eviction drops, and what it keeps.
use maivn.Prelude.{
  ℕ, zero, suc, ◌+◌, ◌-◌, ◌≤◌, ◌≡◌, refl, Bool, not, List, [], ◌∷◌, ◌++◌, arith, length,
  length-append, length-drop, keep, drop, min, sym,
}
use maivn.Bridge.Event.{UiEvent, is_evictable}
use maivn.Bridge.History.{spend, evict_from_history, append_event}

module _ {ℓ} {D : Type ℓ} where
  abbrev pub structural : UiEvent D → Bool
  structural e = not (is_evictable e)

  abbrev pub chunks : List (UiEvent D) → ℕ
  chunks history = length (keep is_evictable history)

  spend-left : (n : ℕ) (h : List (UiEvent D)) → (spend n h).0 ≡ n - chunks h
  unfolding spend
  spend-left n [] = omega arith
  spend-left zero (e ∷ h) = omega (arith, spend-left zero h)
  spend-left (suc n) (e ∷ h) = ground (arith, spend-left n h, spend-left (suc n) h)

  chunks-le : (h : List (UiEvent D)) → chunks h ≤ length h
  chunks-le [] = omega arith
  chunks-le (e ∷ h) = ground (arith, chunks-le h)

  spend-length : (n : ℕ) (h : List (UiEvent D)) → length (spend n h).1 ≡ length h - min n (chunks h)
  unfolding spend
  spend-length n [] = omega arith
  spend-length zero (e ∷ h) = ground (arith, spend-length zero h)
  spend-length (suc n) (e ∷ h) =
      ground (arith, spend-length n h, spend-length (suc n) h, chunks-le h)

  spend-structural :
      (n : ℕ) (h : List (UiEvent D)) → keep structural (spend n h).1 ≡ keep structural h
  unfolding spend
  spend-structural n [] = refl
  spend-structural zero (e ∷ h) = ground (arith, spend-structural zero h)
  spend-structural (suc n) (e ∷ h) =
      ground (arith, spend-structural n h, spend-structural (suc n) h)

  spend-exhausted :
      (n : ℕ) (h : List (UiEvent D)) → chunks h ≤ n → (spend n h).1 ≡ keep structural h
  unfolding spend
  spend-exhausted n [] c = refl
  spend-exhausted zero (e ∷ h) c = ground (arith, spend-exhausted zero h)
  spend-exhausted (suc n) (e ∷ h) c = ground (arith, spend-exhausted n h, spend-exhausted (suc n) h)

  -- An eviction of `count` events removes exactly `count` of them, or all if there are fewer.
  pub length-evict_from_history :
      (history : List (UiEvent D)) (count : ℕ)
      → length (evict_from_history history count) ≡ length history - count
  unfolding evict_from_history
  length-evict_from_history h zero = omega arith
  length-evict_from_history h (suc n) = omega (
    arith,
    length-drop (spend (suc n) h).0 (spend (suc n) h).1,
    spend-left (suc n) h,
    spend-length (suc n) h,
    chunks-le h,
  )

  keep-structural_all : (h : List (UiEvent D)) → chunks h ≤ 0 → keep structural h ≡ h
  keep-structural_all [] c = refl
  keep-structural_all (e ∷ h) c = ground (arith, keep-structural_all h)

  -- While streaming chunks suffice for the count, an eviction loses no structural event and keeps
  -- their order.
  pub evict-keeps-structural :
      (history : List (UiEvent D)) (count : ℕ)
      → count ≤ chunks history
      → keep structural (evict_from_history history count) ≡ keep structural history
  unfolding evict_from_history
  evict-keeps-structural h zero c = refl
  evict-keeps-structural h (suc n) c =
      let e : (spend (suc n) h).0 ≡ 0 = omega (arith, spend-left (suc n) h) in
      rw e (spend-structural (suc n) h)

  -- Past the chunks, an eviction has dropped every one of them, and the oldest of the structural
  -- events for the balance.
  pub evict-exhausted :
      (history : List (UiEvent D)) (count : ℕ)
      → chunks history ≤ count
      → evict_from_history history count ≡ drop (count - chunks history) (keep structural history)
  unfolding evict_from_history
  evict-exhausted h zero c =
      let e : 0 - chunks h ≡ 0 = omega arith in rw e (sym (keep-structural_all h c))
  evict-exhausted h (suc n) c = rw (spend-left (suc n) h, spend-exhausted (suc n) h c)

  -- The history never grows past its cap, and what it loses is counted as evictions.
  pub append_event-bounded :
      (max_history : ℕ) (history : List (UiEvent D)) (event : UiEvent D)
      → length history ≤ max_history
      → (length (append_event max_history history event).0 ≤ max_history)
        × (length (append_event max_history history event).0
              + (append_event max_history history event).1
            ≡ length history + 1)
  unfolding append_event
  append_event-bounded m h e c = ground (
    arith,
    length-append h (e ∷ []),
    length-evict_from_history (h ++ e ∷ []) (length (h ++ e ∷ []) - m),
  )
