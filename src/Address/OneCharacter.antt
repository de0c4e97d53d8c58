-- ===== src/Address/OneCharacter.antt =====
-- A witness address with one character changed behind its separator.
use yumtech_umbrel_apps.Prelude.{
  ℕ, zero, suc, ◌+◌, ◌<◌, ◌≤◌, ◌≡◌, refl, sym, subst, ap, ap₂, ◌∙◌, inl, inr, [], ◌∷◌, ◌++◌,
  append_assoc, Option, none, some, length, take, drop, get_or, All, ◌==◌, ==_iff, Bool-cases,
  Option-cases, arith,
}
use yumtech_umbrel_apps.Prelude.Texts.{Text, text_eq}
use yumtech_umbrel_apps.Hex.Reading.{some_inj}
use yumtech_umbrel_apps.Address.{Bytes, expected}
use yumtech_umbrel_apps.Address.Results.{expected_inj, >>=-expected}
use yumtech_umbrel_apps.Address.Base58.{index_of}
use yumtech_umbrel_apps.Address.BigNumber.{index_of-below}
use yumtech_umbrel_apps.Address.Bech32.{
  bech32_charset, symbols, encoding_of, strip_checksum, polymod_loop, bech32_polymod,
  bech32_hrp_expand, bech32_parts,
}
use yumtech_umbrel_apps.Address.Checksum.{polymod_loop-one}

-- The place of a character tells which it is.
index_of-character : (c : ℕ) (xs : Text) (i : ℕ) → index_of c xs ≡ some i → get_or xs i 0 ≡ c
unfolding index_of
index_of-character c [] i e = cc
index_of-character c (x ∷ xs) i e = elim (Bool-cases (x == c)) [
  | inl here ↦
      subst (λ k. get_or (x ∷ xs) k 0 ≡ c) (some_inj _ _ (rw here at e)) ((==_iff x c).0 here)
  | inr on ↦ elim (Option-cases (index_of c xs)) [
    | inl absent ↦ absurd (ground arith)
    | inr (j, found) ↦
        subst (λ k. get_or (x ∷ xs) k 0 ≡ c) (some_inj _ _ (rw (on, found, index_of) at e))
          (index_of-character c xs j found)
  ]
]

symbols_cons :
    (c : ℕ) (s : Text) (vs : Bytes)
    → symbols (c ∷ s) ≡ expected vs
    → (i : ℕ) × (ws : Bytes) × (index_of c bech32_charset ≡ some i)
      × (symbols s ≡ expected ws)
      × (vs ≡ i ∷ ws)
unfolding symbols
symbols_cons c s vs e = elim (Option-cases (index_of c bech32_charset)) [
  | inl absent ↦ absurd (ground arith)
  | inr (i, found) ↦
      let (ws, read, rest) =
        >>=-expected (symbols s) (λ ws. expected (i ∷ ws)) vs (rw (found, symbols) at e) in
      (i, ws, found, read, sym (expected_inj _ _ rest))
]

symbols-below : (s : Text) (vs : Bytes) → symbols s ≡ expected vs → All (λ v. v < 32) vs
symbols-below [] vs e = unfold symbols in subst (All (λ v. v < 32)) (expected_inj [] vs e) tt
symbols-below (c ∷ s) vs e =
    let (i, ws, found, read, same) = symbols_cons c s vs e in
    rw same (index_of-below c bech32_charset i found, symbols-below s ws read)

symbols_more :
    (c : ℕ) (s : Text) (i : ℕ) (vs : Bytes)
    → index_of c bech32_charset ≡ some i
    → symbols s ≡ expected vs
    → symbols (c ∷ s) ≡ expected (i ∷ vs)
unfolding symbols
symbols_more c s i vs e r = rw (e, symbols) (rw r refl)

-- The symbols around one character.
symbols_around :
    (front : Text) (c : ℕ) (back : Text) (vs : Bytes)
    → symbols (front ++ (c ∷ back)) ≡ expected vs
    → (us : Bytes) × (i : ℕ) × (ws : Bytes) × (symbols front ≡ expected us)
      × (index_of c bech32_charset ≡ some i)
      × (symbols back ≡ expected ws)
      × (vs ≡ us ++ (i ∷ ws))
symbols_around [] c back vs e =
    let (i, ws, found, read, same) = symbols_cons c back vs e in
    ([], i, ws, (unfold symbols in refl), found, read, same)
symbols_around (x ∷ front) c back vs e =
    let (j, xs, fx, rx, sx) = symbols_cons x (front ++ (c ∷ back)) vs e in
    let (us, i, ws, ru, found, rw', same) = symbols_around front c back xs rx in
    (j ∷ us, i, ws, symbols_more x front j us fx ru, found, rw', sx ∙ ap (λ t. j ∷ t) same)

parts_inv :
    (hrp lower : Text) (pos enc : ℕ) (vs : Bytes)
    → bech32_parts hrp lower pos ≡ expected (enc, vs)
    → (values : Bytes) × (symbols (drop (pos + 1) lower) ≡ expected values)
      × (encoding_of (bech32_polymod (bech32_hrp_expand (take pos lower) ++ values)) ≡ some enc)
unfolding bech32_parts
parts_inv hrp lower pos enc vs e = elim (Bool-cases (text_eq (take pos lower) hrp)) [
  | inr other ↦ absurd (ground arith)
  | inl same ↦
      let (values, read, rest) =
        >>=-expected (symbols (drop (pos + 1) lower))
          (λ values. strip_checksum (code values) values) (enc, vs) (rw same at e) in
      (values, read, encoded (code values) values rest)
]
  where
    code : Bytes → Option ℕ
    code values = encoding_of (bech32_polymod (bech32_hrp_expand (take pos lower) ++ values))

    encoded :
        (k : Option ℕ) (values : Bytes)
        → strip_checksum k values ≡ expected (enc, vs)
        → k ≡ some enc
    encoded none values e = unfold strip_checksum in absurd (ground arith)
    encoded (some k) values e =
        unfold strip_checksum in ap (λ (q : ℕ × Bytes). some q.0) (expected_inj _ _ e)

encoding_of-one : (a b enc : ℕ) → encoding_of a ≡ some enc → encoding_of b ≡ some enc → a ≡ b
unfolding encoding_of
encoding_of-one a b enc e f = ground arith

take-front : (n : ℕ) (xs ys : Text) → n ≤ length xs → take n (xs ++ ys) ≡ take n xs
take-front zero xs ys h = refl
take-front (suc n) [] ys h = absurd (omega arith)
take-front (suc n) (x ∷ xs) ys h = ap (λ t. x ∷ t) (take-front n xs ys (omega arith))

drop-front : (n : ℕ) (xs ys : Text) → n ≤ length xs → drop n (xs ++ ys) ≡ drop n xs ++ ys
drop-front zero xs ys h = refl
drop-front (suc n) [] ys h = absurd (omega arith)
drop-front (suc n) (x ∷ xs) ys h = drop-front n xs ys (omega arith)

-- What an accepted text tells of a character behind the separator.
character_inv :
    (hrp front : Text) (c : ℕ) (back : Text) (pos enc : ℕ) (vs : Bytes)
    → pos < length front
    → bech32_parts hrp (front ++ (c ∷ back)) pos ≡ expected (enc, vs)
    → (us : Bytes) × (i : ℕ) × (xs : Bytes) × (symbols (drop (pos + 1) front) ≡ expected us)
      × (index_of c bech32_charset ≡ some i)
      × (symbols back ≡ expected xs)
      × (encoding_of (bech32_polymod ((bech32_hrp_expand (take pos front) ++ us) ++ (i ∷ xs)))
          ≡ some enc)
character_inv hrp front c back pos enc vs h e =
    let (values, read, code) = parts_inv hrp (front ++ (c ∷ back)) pos enc vs e in
    let (us, i, xs, ru, fi, rx, same) =
      symbols_around (drop (pos + 1) front) c back values
        (ap symbols (sym (drop-front (pos + 1) front (c ∷ back) (omega (arith, h)))) ∙ read) in
    (
      us,
      i,
      xs,
      ru,
      fi,
      rx,
      ap (λ t. encoding_of (bech32_polymod t))
            (append_assoc (bech32_hrp_expand (take pos front)) us (i ∷ xs)
              ∙ ap₂ (λ p t. bech32_hrp_expand p ++ t)
                  (sym (take-front pos front (c ∷ back) (omega (arith, h)))) (sym same))
          ∙ code,
    )

same_character :
    (hrp front : Text) (c d : ℕ) (back : Text) (pos enc : ℕ) (vs ws : Bytes)
    → pos < length front
    → bech32_parts hrp (front ++ (c ∷ back)) pos ≡ expected (enc, vs)
    → bech32_parts hrp (front ++ (d ∷ back)) pos ≡ expected (enc, ws)
    → c ≡ d
unfolding bech32_polymod
same_character hrp front c d back pos enc vs ws h e f =
    let (us, i, xs, ru, fi, rx, code) = character_inv hrp front c back pos enc vs h e in
    let (us', j, xs', ru', fj, rx', code') = character_inv hrp front d back pos enc ws h f in
    let eu : us ≡ us' = expected_inj us us' (sym ru ∙ ru') in
    let ex : xs ≡ xs' = expected_inj xs xs' (sym rx ∙ rx') in
    let pre = bech32_hrp_expand (take pos front) in
    let sums : polymod_loop 1 ((pre ++ us) ++ (i ∷ xs)) ≡ polymod_loop 1 ((pre ++ us) ++ (j ∷ xs)) =
      encoding_of-one _ _ enc code code'
      ∙ sym (ap₂ (λ u x. polymod_loop 1 ((pre ++ u) ++ (j ∷ x))) eu ex) in
    let same =
      polymod_loop-one (pre ++ us) i j xs 1 (index_of-below c bech32_charset i fi)
        (index_of-below d bech32_charset j fj) (symbols-below back xs rx) sums in
    sym (index_of-character c bech32_charset i fi)
    ∙ ap (λ k. get_or bech32_charset k 0) same
    ∙ index_of-character d bech32_charset j fj

-- A text that is accepted is not accepted for the same encoding once one character behind the
-- separator is another: the checksum finds the change, whatever data would be read.
pub bech32_parts-one_character :
    (hrp front : Text) (c d : ℕ) (back : Text) (pos enc : ℕ) (vs ws : Bytes)
    → pos < length front
    → ¬ c ≡ d
    → bech32_parts hrp (front ++ (c ∷ back)) pos ≡ expected (enc, vs)
    → ¬ bech32_parts hrp (front ++ (d ∷ back)) pos ≡ expected (enc, ws)
bech32_parts-one_character hrp front c d back pos enc vs ws h other e f =
    other (same_character hrp front c d back pos enc vs ws h e f)
