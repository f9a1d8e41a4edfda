-- ===== src/Bridge/History.antt =====
-- The bounded replay history (`_evict_from_history` of src/maivn/events/_bridge/bridge.py).
pub mod Eviction
use maivn.Prelude.{ℕ, zero, suc, ◌-◌, List, [], ◌∷◌, ◌++◌, if◌then◌else◌, drop, length, ltb}
use maivn.Bridge.Event.{UiEvent, is_evictable}

module _ {ℓ} {D : Type ℓ} where
  -- The `for` loop: what is left of the count, and the events kept.
  pub spend : ℕ → List (UiEvent D) → ℕ × List (UiEvent D)
  spend remaining [] = (remaining, [])
  spend zero (event ∷ history) = let (left, kept) = spend zero history in (left, event ∷ kept)
  spend (suc remaining) (event ∷ history) =
      let dropped = spend remaining history in
      let (left, kept) = spend (suc remaining) history in
      if is_evictable event then dropped else (left, event ∷ kept)

  -- Nothing streaming left to spend: the balance is taken oldest first.
  unfoldable pub evict_from_history : List (UiEvent D) → ℕ → List (UiEvent D)
  unfolding spend
  evict_from_history history zero = history
  evict_from_history history (suc count) =
      let (remaining, kept) = spend (suc count) history in drop remaining kept

  -- The append of `_emit_packet` with its cap; the second part is the evictions that it counts.
  unfoldable pub append_event : ℕ → List (UiEvent D) → UiEvent D → List (UiEvent D) × ℕ
  append_event max_history history event =
      let grown = history ++ event ∷ [] in
      let evicted = length grown - max_history in
      if ltb max_history (length grown)
      then (evict_from_history grown evicted, evicted)
      else (grown, 0)
