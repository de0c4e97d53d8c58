-- ===== src/Session/Passwords.antt =====
-- What the password of `mining.authorize` asks for: the difficulty and the Dogecoin address, of
-- `handle_authorize` in yumtech/mkpool-src/src/client_session.cpp. Letters are those of the C locale.
use mathlib.Core.List.{reverse}
use yumtech_umbrel_apps.Prelude.{
  ℕ, suc, ◌+◌, ◌&&◌, ◌||◌, Bool, [], ◌∷◌, Option, none, some, map, drop, leb, ◌==◌, if◌then◌else◌,
}
use yumtech_umbrel_apps.Prelude.Texts.{Text, codes}
use yumtech_umbrel_apps.Address.{to_lower}
use yumtech_umbrel_apps.Blacklist.{starts_with}
use yumtech_umbrel_apps.Reals.{Reals}
use yumtech_umbrel_apps.Vardiff.{clamp}
use yumtech_umbrel_apps.Session.{Chain, is_zcash, uses_scrypt}
use yumtech_umbrel_apps.Session.Coinbase.{is_empty}

-- `find` of a text that is not empty.
unfoldable pub find_at : Text → Text → Option ℕ
unfolding starts_with
find_at needle [] = none
find_at needle (c ∷ t) =
    let later = find_at needle t in
    if starts_with (c ∷ t) needle
    then some 0
    else (elim later [ none ↦ none | some i ↦ some (suc i) ])

-- The position behind "diff=", or behind "d=".
unfoldable pub difficulty_at : Text → Option ℕ
unfolding find_at
difficulty_at pwd_lower = elim (find_at (codes "diff=") pwd_lower) [
  | some i ↦ some (i + 5)
  | none ↦ (elim (find_at (codes "d=") pwd_lower) [ none ↦ none | some i ↦ some (i + 2) ])
]

abbrev is_amount : ℕ → Bool
is_amount c =
    leb b'0' c && leb c b'9'
    || (c == b'.' || (c == b'k' || (c == b'm' || (c == b'g' || c == b't'))))

-- The characters of a number.
unfoldable pub num_str : Text → Text
num_str [] = []
num_str (c ∷ t) = let rest = num_str t in if is_amount c then c ∷ rest else []

-- The number without the letter behind it, and what the letter means. The text is from its back.
unfoldable pub unscaled : Text → Text × ℕ
unscaled [] = ([], 1)
unscaled (c ∷ t) =
    if c == b'k'
    then (reverse t, 1000)
    else if c == b'm'
    then (reverse t, 1000000)
    else if c == b'g'
    then (reverse t, 1000000000)
    else if c == b't'
    then (reverse t, 1000000000000)
    else (reverse (c ∷ t), 1)

abbrev is_blank : ℕ → Bool
is_blank c = c == b' ' || c == 9

unfoldable pub skip_blanks : Text → Text
skip_blanks [] = []
skip_blanks (c ∷ t) = let rest = skip_blanks t in if is_blank c then rest else c ∷ t

-- Up to one of the characters that end an address.
unfoldable pub until_end : Text → Text
until_end [] = []
until_end (c ∷ t) =
    let rest = until_end t in if c == b',' || (c == b';' || is_blank c) then [] else c ∷ rest

-- The Dogecoin address of a password, or the empty text.
unfoldable pub doge_of : Text → Text
unfolding find_at skip_blanks until_end
doge_of password = elim (find_at (codes "doge=") (map to_lower password)) [
  | none ↦ []
  | some i ↦ until_end (skip_blanks (drop (i + 5) password))
]

module _ {D : Type 0} (real : Reals D) where
  -- The bounds of the chain.
  unfoldable pub bounded_difficulty : Chain → D → D
  bounded_difficulty chain val =
      if is_zcash chain
      then real.div (clamp real val (real.of_nat 8192) (real.of_nat 524288)) (real.of_nat 8192)
      else if uses_scrypt chain
      then clamp real val (real.of_nat 1024) (real.of_nat 10000000)
      else clamp real val (real.of_nat 1024) (real.of_nat 1000000)

  -- A number that is finite and positive counts.
  unfoldable pub accepted_difficulty : Chain → D → Option D
  unfolding bounded_difficulty
  accepted_difficulty chain val =
      if real.is_finite val && real.lt (real.of_nat 0) val
      then some (bounded_difficulty chain val)
      else none

  unfoldable pub amount_of : Chain → Text → Option D
  unfolding unscaled accepted_difficulty
  amount_of chain num =
      let n = unscaled (reverse num) in
      if is_empty num then none else (elim (real.stod n.0) [
        | none ↦ none
        | some v ↦ accepted_difficulty chain (real.mul v (real.of_nat n.1))
      ])

  -- The difficulty that a password asks for.
  unfoldable pub custom_difficulty : Chain → Text → Option D
  unfolding difficulty_at num_str amount_of
  custom_difficulty chain password =
      let pwd_lower = map to_lower password in
      elim (difficulty_at pwd_lower) [
        | none ↦ none
        | some pos ↦ amount_of chain (num_str (drop pos pwd_lower))
      ]
