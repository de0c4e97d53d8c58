-- ===== src/JobWindow/Lookup.antt =====
-- Lookups in a window against the history of its pushes, newest first.
use mathlib.Core.List.{reverse, reverse-append, reverse-cons}
use native.Mathlib.Decide.{dec_le}
use yumtech_umbrel_apps.Prelude.{
  ℕ, ◌-◌, ◌≤◌, ◌<◌, min, ◌≡◌, refl, sym, ap, ◌∙◌, ◌⊎◌, inl, inr, List, [], ◌∷◌, ◌++◌, some,
  append-nil, length, drop, take, length-append, take_all, take-append-drop, take-length_append,
  ◌==◌, if◌then◌else◌, arith,
}
use yumtech_umbrel_apps.Prelude.Texts.{text_eq_refl}
use yumtech_umbrel_apps.Hex.{Text}
use yumtech_umbrel_apps.JobWindow.{
  JobWindow, init, push, find, find_u32, latest, size, find_back, find_back_u32, back,
}
use yumtech_umbrel_apps.JobWindow.History.{History, last, length-last, pushes, Holds, window-Holds}

module _ {ℓ} {A : Type ℓ} where
  length-reverse : (xs : List A) → length (reverse xs) ≡ length xs
  length-reverse [] = refl
  length-reverse (x ∷ xs) =
      ap length (reverse-cons x xs)
      ∙ omega (arith, length-append (reverse xs) (x ∷ []), length-reverse xs)

  take-front :
      (c : ℕ) (xs ys : List A)
      → (length xs ≡ c) ⊎ ((ys ≡ []) × (length xs ≤ c))
      → take c (xs ++ ys) ≡ xs
  take-front c xs ys (inl e) = ap (λ k. take k (xs ++ ys)) (sym e) ∙ take-length_append xs ys
  take-front c xs ys (inr (e, h)) = rw (e, append-nil) (take_all c xs h)

  -- The newest `c`, newest first.
  reverse-last : (c : ℕ) (h : List A) → reverse (last c h) ≡ take c (reverse h)
  reverse-last c h =
      sym (take-front c (reverse (last c h)) (reverse front) sizes) ∙ ap (take c) (sym split)
    where
      front : List A
      front = take (length h - c) h

      split : reverse h ≡ reverse (last c h) ++ reverse front
      split = ap reverse (sym (take-append-drop (length h - c) h)) ∙ reverse-append front (last c h)

      len : length (reverse (last c h)) ≡ min (length h) c
      len = length-reverse (last c h) ∙ length-last c h

      sizes :
          (length (reverse (last c h)) ≡ c)
          ⊎ ((reverse front ≡ []) × (length (reverse (last c h)) ≤ c))
      sizes = elim (dec_le c (length h)) [
        | yes all ↦ inl (omega (arith, len))
        | no fewer ↦ inr (ap (λ k. reverse (take k h)) {y = 0} (omega arith), omega (arith, len))
      ]

module _ {ℓ} {T : Type ℓ} where
  reverse-pushes :
      (c : ℕ) (h : History T) → 0 < c → reverse (pushes (init c) h).items ≡ take c (reverse h)
  reverse-pushes c h pos = ap reverse (Holds.kept (window-Holds c h pos)) ∙ reverse-last c h

  -- After any history of pushes the window answers as a search, newest first, through its last
  -- `c` pushes, and it holds as many of them.
  pub window-refines :
      (c : ℕ) (h : History T) (job_id : Text) (id32 : ℕ)
      → 0 < c
      → (find job_id (pushes (init c) h) ≡ find_back job_id (take c (reverse h)))
        × (find_u32 id32 (pushes (init c) h) ≡ find_back_u32 id32 (take c (reverse h)))
        × (latest (pushes (init c) h) ≡ back (take c (reverse h)))
        × (size (pushes (init c) h) ≡ min (length h) c)
  unfolding find find_u32 latest size
  window-refines c h job_id id32 pos =
      let e = reverse-pushes c h pos in
      (
        ap (find_back job_id) e,
        ap (find_back_u32 id32) e,
        ap back e,
        ap length (Holds.kept (window-Holds c h pos)) ∙ length-last c h,
      )

  reverse-push :
      (k : Text) (v : T) (w : JobWindow T)
      → (rest : History T) × (reverse (push k v w).items ≡ (k, v) ∷ rest)
  unfolding push
  reverse-push k v w = (reverse kept, reverse-append kept ((k, v) ∷ []))
    where
      kept : History T
      kept = if length w.items == w.capacity then drop 1 w.items else w.items

  -- A job is found by its id, and is the latest, right after it was pushed.
  pub find-push :
      (k : Text) (v : T) (w : JobWindow T)
      → (find k (push k v w) ≡ some v) × (latest (push k v w) ≡ some v)
  unfolding find find_back latest
  find-push k v w = let (rest, e) = reverse-push k v w in (rw (e, text_eq_refl k) refl, rw e refl)
