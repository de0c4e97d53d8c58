-- ===== src/Blacklist/Words.antt =====
-- Which workers are blocked: a word of the table that occurs in the worker's name, whatever the case
-- of its letters and whatever stands between them.
use yumtech_umbrel_apps.Prelude.{
  ℕ, ◌≡◌, refl, sym, ap, ap₂, ◌∙◌, ◌↔◌, inl, inr, ◌≢◌, true, false, List, [], ◌∷◌, ◌++◌, map, some,
  length, ◌==◌, ==_iff, Bool-cases, ==_refl, arith,
}
use yumtech_umbrel_apps.Prelude.Texts.{Text}
use yumtech_umbrel_apps.Address.{to_lower}
use yumtech_umbrel_apps.Blacklist.{
  Blacklist, Tables, is_alnum, normalize, starts_with, contains, add_word, read_words, reload,
  any_word, worker_blocked, worker_is_free,
}

-- `w` occurs in `n`.
abbrev Occurs : Text → Text → Type 0
Occurs w n = (front : Text) × (back : Text) × (n ≡ front ++ (w ++ back))

starts_with→eq : (n w : Text) → starts_with n w ≡ true → (back : Text) × (n ≡ w ++ back)
unfolding starts_with
starts_with→eq n [] h = (n, refl)
starts_with→eq [] (y ∷ w) h = absurd (ground arith)
starts_with→eq (x ∷ n) (y ∷ w) h =
    let (back, e) = starts_with→eq n w (ground arith) in
    (back, ap₂ (◌∷◌) ((==_iff x y).0 (ground arith)) e)

starts_with-append : (w back : Text) → starts_with (w ++ back) w ≡ true
unfolding starts_with
starts_with-append [] back = refl
starts_with-append (y ∷ w) back = rw (==_refl y) (starts_with-append w back)

contains→Occurs : (n w : Text) → contains n w ≡ true → Occurs w n
unfolding contains starts_with
contains→Occurs [] w h = let (back, e) = starts_with→eq [] w h in ([], back, e)
contains→Occurs (x ∷ n) w h = elim (Bool-cases (starts_with (x ∷ n) w)) [
  | inl here ↦ let (back, e) = starts_with→eq (x ∷ n) w here in ([], back, e)
  | inr on ↦
      let (front, back, e) = contains→Occurs n w (ground arith) in
      (x ∷ front, back, ap (λ t. x ∷ t) e)
]

contains-append : (front w back : Text) → contains (front ++ (w ++ back)) w ≡ true
unfolding contains
contains-append [] w back = begins (w ++ back) (starts_with-append w back)
  where
    begins : (n : Text) → starts_with n w ≡ true → contains n w ≡ true
    begins [] h = h
    begins (x ∷ n) h = rw h refl
contains-append (x ∷ front) w back = rw (contains-append front w back) (ground arith)

-- A row of the table whose first column is `word`.
pub data Listed (word : Text) : List (List Text) → Type 0 where
  here : {row : List Text} {rows : List (List Text)} → Listed word ((word ∷ row) ∷ rows)
  there : {row : List Text} {rows : List (List Text)} → Listed word rows → Listed word (row ∷ rows)

-- A word of the table is found in `n`.
abbrev Found : Text → List (List Text) → Type 0
Found n rows = (word : Text) × Listed word rows × (normalize word ≢ []) × Occurs (normalize word) n

added→Found :
    (n t : Text) (row : List Text) (rows : List (List Text)) (k : Text)
    → normalize t ≡ k
    → any_word n (add_word k (read_words rows)) ≡ true
    → (any_word n (read_words rows) ≡ true → Found n rows)
    → Found n ((t ∷ row) ∷ rows)
unfolding add_word any_word
added→Found n t row rows [] e h next = let (w, l, k, o) = next h in (w, there l, k, o)
added→Found n t row rows (c ∷ k) e h next = elim (Bool-cases (contains n (c ∷ k))) [
  | inl found ↦ (t, here, (λ z. cc (e, z)), rw e (contains→Occurs n (c ∷ k) found))
  | inr not' ↦ let (w, l, k, o) = next (ground arith) in (w, there l, k, o)
]

read_words→Found :
    (n : Text) (rows : List (List Text)) → any_word n (read_words rows) ≡ true → Found n rows
unfolding read_words
read_words→Found n [] h = unfold any_word in absurd (ground arith)
read_words→Found n ([] ∷ rows) h =
    let (w, l, k, o) = read_words→Found n rows h in (w, there l, k, o)
read_words→Found n ((t ∷ row) ∷ rows) h =
    added→Found n t row rows (normalize t) refl h (read_words→Found n rows)

add_word-later :
    (n k : Text) (ws : List Text) → any_word n ws ≡ true → any_word n (add_word k ws) ≡ true
unfolding add_word any_word
add_word-later n [] ws h = h
add_word-later n (c ∷ k) ws h = ground arith

add_word-now :
    (n k : Text) (ws : List Text) → k ≢ [] → Occurs k n → any_word n (add_word k ws) ≡ true
unfolding add_word any_word
add_word-now n [] ws h o = absurd (h refl)
add_word-now n (c ∷ k) ws h (front, back, e) = rw (e, contains-append front (c ∷ k) back) refl

Found→read_words :
    (n word : Text) (rows : List (List Text))
    → Listed word rows
    → normalize word ≢ []
    → Occurs (normalize word) n
    → any_word n (read_words rows) ≡ true
unfolding read_words
Found→read_words n word [] l k o = elim l [ ]
Found→read_words n word ((w ∷ row) ∷ rows) here k o =
    add_word-now n (normalize word) (read_words rows) k o
Found→read_words n word ([] ∷ rows) (there l) k o = Found→read_words n word rows l k o
Found→read_words n word ((w ∷ row) ∷ rows) (there l) k o =
    add_word-later n (normalize w) (read_words rows) (Found→read_words n word rows l k o)

nonempty : (front k back : Text) → k ≢ [] → (length (front ++ (k ++ back)) == 0) ≡ false
nonempty [] [] back h = absurd (h refl)
nonempty [] (c ∷ k) back h = ground arith
nonempty (x ∷ front) k back h = ground arith

-- Behind a reload that the database answered, a worker is blocked exactly when the table has a word
-- that, of letters and digits in lower case, is not empty and occurs in the worker's name so taken.
pub worker_blocked-reload :
    (worker : Text) (t : Tables) (b : Blacklist)
    → (worker_blocked worker (reload (some t) b) ≡ true) ↔ (
        (word : Text) × Listed word t.workers_blacklist
        × (normalize word ≢ [])
        × ((front : Text) × (back : Text) × (normalize worker ≡ front ++ (normalize word ++ back))))
unfolding worker_blocked reload
worker_blocked-reload worker t b = (blocked, found)
  where
    n : Text
    n = normalize worker

    blocked :
        worker_blocked worker (reload (some t) b) ≡ true
        → Found (normalize worker) t.workers_blacklist
    blocked h = elim (Bool-cases (length n == 0)) [
      | inl e ↦ absurd (ground arith)
      | inr e ↦ read_words→Found n t.workers_blacklist (rw e at h)
    ]

    found :
        Found (normalize worker) t.workers_blacklist
        → worker_blocked worker (reload (some t) b) ≡ true
    found (word, l, k, (front, back, e)) =
        rw (ap (λ t. length t == 0) e ∙ nonempty front (normalize word) back k)
          (Found→read_words n word t.workers_blacklist l k (front, back, e))

normalize-append : (s t : Text) → normalize (s ++ t) ≡ normalize s ++ normalize t
unfolding normalize
normalize-append [] t = refl
normalize-append (c ∷ s) t = elim (Bool-cases (is_alnum c)) [
  | inl yes' ↦ rw yes' (ap (λ r. to_lower c ∷ r) (normalize-append s t))
  | inr no' ↦ rw no' (normalize-append s t)
]

to_lower-lower :
    (c : ℕ) → (is_alnum (to_lower c) ≡ is_alnum c) × (to_lower (to_lower c) ≡ to_lower c)
unfolding is_alnum to_lower
to_lower-lower c = (ground arith, ground arith)

normalize-lower : (s : Text) → normalize (map to_lower s) ≡ normalize s
unfolding normalize
normalize-lower [] = refl
normalize-lower (c ∷ s) = rw ((to_lower-lower c).0, (to_lower-lower c).1, normalize-lower s) refl

-- A character that is no letter and no digit changes nothing wherever it is put, nor does the case of
-- letters.
pub worker_blocked-disguise :
    (front : Text) (c : ℕ) (back : Text) (b : Blacklist)
    → is_alnum c ≡ false
    → (worker_blocked (front ++ (c ∷ back)) b ≡ worker_blocked (front ++ back) b)
      × (worker_is_free (front ++ (c ∷ back)) ≡ worker_is_free (front ++ back))
      × (worker_blocked (map to_lower front) b ≡ worker_blocked front b)
unfolding worker_blocked worker_is_free
worker_blocked-disguise front c back b h =
    (rw same refl, rw same refl, rw (normalize-lower front) refl)
  where
    skipped : normalize (c ∷ back) ≡ normalize back
    skipped = unfold normalize in rw h refl

    same : normalize (front ++ (c ∷ back)) ≡ normalize (front ++ back)
    same =
        normalize-append front (c ∷ back)
        ∙ ap (λ t. normalize front ++ t) skipped
        ∙ sym (normalize-append front back)
