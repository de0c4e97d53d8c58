-- ===== src/JobWindow.antt =====
-- The rolling window of recent jobs: yumtech/mkpool-src/src/job_window.hpp. Every method holds the
-- mutex for its whole body, so a method is one step. The deque is a list, oldest first.
pub mod History
pub mod Lookup
use mathlib.Core.List.{reverse}
use yumtech_umbrel_apps.Prelude.{
  ℕ, ◌++◌, Bool, true, false, ◌&&◌, List, [], ◌∷◌, Option, none, some, length, take, drop, ltb,
  ◌==◌, if◌then◌else◌,
}
use yumtech_umbrel_apps.Prelude.Texts.{Text, text_eq}
use yumtech_umbrel_apps.Hex.Integers.{from_chars}

-- Does the id begin with the digits of `id32`? A shorter id is skipped.
unfoldable pub matches_u32 : ℕ → Text → Bool
matches_u32 id32 jid =
    if ltb (length jid) 8
    then false
    else (elim (from_chars (take 8 jid)) [ none ↦ false | some cur ↦ cur == id32 ])

pub record JobWindow {ℓ} (T : Type ℓ) : Type ℓ where
  pub items : List (Text × T)
  pub capacity : ℕ

module _ {ℓ} {T : Type ℓ} where
  -- The loops from `rbegin()` to `rend()`; the list is the deque from its back.
  unfoldable pub find_back : Text → List (Text × T) → Option T
  find_back job_id [] = none
  find_back job_id ((k, v) ∷ items) = if text_eq k job_id then some v else find_back job_id items

  unfoldable pub find_back_u32 : ℕ → List (Text × T) → Option T
  find_back_u32 id32 [] = none
  find_back_u32 id32 ((k, v) ∷ items) =
      if matches_u32 id32 k then some v else find_back_u32 id32 items

  -- `items_.back()` of a deque that is not empty.
  unfoldable pub back : List (Text × T) → Option T
  back [] = none
  back ((k, v) ∷ items) = some v

  unfoldable pub init : ℕ → JobWindow T
  init capacity = record { items = []; capacity = capacity }

  -- `pop_front` is called on a full deque, which is not empty if the capacity is positive.
  unfoldable pub push : Text → T → JobWindow T → JobWindow T
  push job_id job w =
      let kept = if length w.items == w.capacity then drop 1 w.items else w.items in
      record w { items = kept ++ ((job_id, job) ∷ []) }

  unfoldable pub find : Text → JobWindow T → Option T
  find job_id w = find_back job_id (reverse w.items)

  unfoldable pub find_u32 : ℕ → JobWindow T → Option T
  find_u32 id32 w = find_back_u32 id32 (reverse w.items)

  unfoldable pub latest : JobWindow T → Option T
  unfolding back
  latest w = back (reverse w.items)

  unfoldable pub clear : JobWindow T → JobWindow T
  clear w = record w { items = [] }

  unfoldable pub size : JobWindow T → ℕ
  size w = length w.items
