-- ===== src/JobWindow/History.antt =====
-- The window against the history of its pushes: it holds the last `capacity` of them.
use yumtech_umbrel_apps.Prelude.{
  ℕ, zero, suc, ◌+◌, ◌-◌, ◌≤◌, ◌<◌, min, ◌≡◌, refl, sym, ap, ◌∙◌, inl, inr, ◌≢◌, List, [], ◌∷◌,
  ◌++◌, append_assoc, append-nil, length, drop, length-append, length-drop, ◌==◌, ==_iff,
  Bool-cases, if◌then◌else◌, arith,
}
use yumtech_umbrel_apps.Hex.{Text}
use yumtech_umbrel_apps.JobWindow.{JobWindow, init, push}

module _ {ℓ} {A : Type ℓ} where
  drop_one : (k : ℕ) (xs : List A) → drop 1 (drop k xs) ≡ drop (suc k) xs
  drop_one zero xs = refl
  drop_one (suc k) [] = refl
  drop_one (suc k) (x ∷ xs) = drop_one k xs

  drop-append : (k : ℕ) (xs ys : List A) → k ≤ length xs → drop k (xs ++ ys) ≡ drop k xs ++ ys
  drop-append zero xs ys h = refl
  drop-append (suc k) [] ys h = elim h [ ]
  drop-append (suc k) (x ∷ xs) ys h = drop-append k xs ys (omega arith)

  -- The last `c` elements.
  abbrev pub last : ℕ → List A → List A
  last c h = drop (length h - c) h

  pub length-last : (c : ℕ) (h : List A) → length (last c h) ≡ min (length h) c
  length-last c h = omega (arith, length-drop (length h - c) h)

  last-grow :
      (c k : ℕ) (h : List A) (x : A)
      → length h + 1 - c ≡ k
      → k ≤ length h
      → last c (h ++ (x ∷ [])) ≡ drop k h ++ (x ∷ [])
  last-grow c k h x e b =
      ap (λ j. drop j (h ++ (x ∷ []))) {y = k} (omega (arith, length-append h (x ∷ [])))
      ∙ drop-append k h (x ∷ []) b

  -- One more element: the oldest goes exactly when `c` are held.
  last-append :
      (c : ℕ) (h : List A) (x : A)
      → 0 < c
      → (if length (last c h) == c then drop 1 (last c h) else last c h) ++ (x ∷ [])
        ≡ last c (h ++ (x ∷ []))
  last-append c h x pos = elim (Bool-cases (length (last c h) == c)) [
    | inl full ↦
        let n : min (length h) c ≡ c = rw length-last at ((==_iff (length (last c h)) c).0 full) in
        rw (full, drop_one (length h - c) h)
          (sym (last-grow c (suc (length h - c)) h x (omega arith) (omega arith)))
    | inr room ↦
        let n : min (length h) c ≢ c =
          λ e. cc (room, (==_iff (length (last c h)) c).1 (length-last c h ∙ e)) in
        rw room (sym (last-grow c (length h - c) h x (omega arith) (omega arith)))
  ]

-- What was pushed, oldest first.
abbrev pub History {ℓ} : Type ℓ → Type ℓ
History T = List (Text × T)

module _ {ℓ} {T : Type ℓ} where
  unfoldable pub pushes : JobWindow T → History T → JobWindow T
  pushes w [] = w
  pushes w ((k, v) ∷ h) = pushes (push k v w) h

  -- A window of capacity `c` after the pushes `h`.
  pub record Holds (c : ℕ) (h : History T) (w : JobWindow T) : Type ℓ where
    pub kept : w.items ≡ last c h
    pub cap : w.capacity ≡ c

  push-Holds :
      (c : ℕ) (h : History T) (k : Text) (v : T) (w : JobWindow T)
      → 0 < c
      → Holds c h w
      → Holds c (h ++ ((k, v) ∷ [])) (push k v w)
  unfolding push
  push-Holds c h k v w pos i = record {
    kept = rw (i.kept, i.cap) (last-append c h (k, v) pos);
    cap = i.cap;
  }

  pushes-Holds :
      (c : ℕ) (h : History T) (w : JobWindow T) (more : History T)
      → 0 < c
      → Holds c h w
      → Holds c (h ++ more) (pushes w more)
  unfolding pushes
  pushes-Holds c h w [] pos i = rw append-nil i
  pushes-Holds c h w ((k, v) ∷ more) pos i =
      rw (append_assoc h ((k, v) ∷ []) more) at
        (pushes-Holds c (h ++ ((k, v) ∷ [])) (push k v w) more pos (push-Holds c h k v w pos i))

  pub window-Holds : (c : ℕ) (h : History T) → 0 < c → Holds c h (pushes (init c) h)
  unfolding init
  window-Holds c h pos =
      pushes-Holds c [] (init c) h pos
        (record { kept = ap (λ j. drop j []) {x = 0} {y = 0 - c} (omega arith); cap = refl })
