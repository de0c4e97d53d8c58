-- ===== src/StratumProtocol.antt =====
-- Version rolling of Stratum V1: yumtech/mkpool-src/src/stratum_protocol.cpp and ConfigureResult of
-- stratum_protocol.hpp. JSON values are those of nlohmann::json, a parameter.
use yumtech_umbrel_apps.Prelude.{
  ℕ, ◌-◌, ◌%◌, ◌^◌, bit_and, Bool, true, false, ◌==◌, ◌||◌, ◌&&◌, List, [], ◌∷◌, Option, none, some,
  ltb, leb, if◌then◌else◌,
}
use yumtech_umbrel_apps.Prelude.Texts.{Text, text_eq}
use yumtech_umbrel_apps.Hex.Integers.{from_chars}
pub mod Versions
pub mod Negotiation

-- `~mask` of a `uint32_t`.
abbrev pub complement : ℕ → ℕ
complement mask = 2 ^ 32 - 1 - mask

unfoldable pub validate_version : ℕ → ℕ → ℕ → Bool
validate_version submitted templ mask =
    bit_and submitted (complement mask) == bit_and templ (complement mask)

-- What the code uses of JSON values: the elements of an array, the members of an object, the text of
-- a string and the number of a number, each for a value of that kind only.
pub record Json (J N : Type 0) : Type 0 where
  pub elements : J → Option (List J)
  pub members : J → Option (Text → Option J)
  pub text : J → Option Text
  pub number : J → Option N
  pub no_number : N

pub record ConfigureResult (N : Type 0) : Type 0 where
  pub version_mask : ℕ
  pub version_rolling : Bool
  pub version_rolling_requested : Bool
  pub minimum_difficulty : Bool
  pub suggested_min_difficulty : N
  pub subscribe_extranonce : Bool

-- `isspace`.
abbrev pub is_space : ℕ → Bool
is_space c = c == 32 || leb 9 c && leb c 13

-- The digits of `std::stoul`, behind a prefix `0x` if digits follow it.
unfoldable pub magnitude : Text → Option ℕ
magnitude [] = from_chars []
magnitude (a ∷ []) = from_chars (a ∷ [])
magnitude (a ∷ b ∷ s) =
    if a == b'0' && (b == b'x' || b == b'X')
    then (elim (from_chars s) [ some v ↦ some v | none ↦ some 0 ])
    else from_chars (a ∷ b ∷ s)

-- The range of an `unsigned long`; beyond it `std::stoul` throws.
unfoldable pub in_range : Option ℕ → Option ℕ
in_range none = none
in_range (some v) = if ltb v (2 ^ 64) then some v else none

unfoldable pub negated : Option ℕ → Option ℕ
negated none = none
negated (some v) = some ((2 ^ 64 - v) % 2 ^ 64)

-- `std::stoul` in base 16.
unfoldable pub stoul : Text → Option ℕ
unfolding magnitude in_range negated
stoul [] = none
stoul (c ∷ s) =
    let rest = stoul s in
    if is_space c
    then rest
    else if c == b'-'
    then negated (in_range (magnitude s))
    else if c == b'+'
    then in_range (magnitude s)
    else in_range (magnitude (c ∷ s))

abbrev pub version_rolling_name : Text
version_rolling_name =
    b'v' ∷ b'e' ∷ b'r' ∷ b's' ∷ b'i' ∷ b'o' ∷ b'n' ∷ b'-' ∷ b'r' ∷ b'o' ∷ b'l' ∷ b'l' ∷ b'i' ∷ b'n'
    ∷ b'g' ∷ []

abbrev pub version_rolling_mask : Text
version_rolling_mask =
    b'v' ∷ b'e' ∷ b'r' ∷ b's' ∷ b'i' ∷ b'o' ∷ b'n' ∷ b'-' ∷ b'r' ∷ b'o' ∷ b'l' ∷ b'l' ∷ b'i' ∷ b'n'
    ∷ b'g' ∷ b'.' ∷ b'm' ∷ b'a' ∷ b's' ∷ b'k' ∷ []

abbrev pub minimum_difficulty_name : Text
minimum_difficulty_name =
    b'm' ∷ b'i' ∷ b'n' ∷ b'i' ∷ b'm' ∷ b'u' ∷ b'm' ∷ b'-' ∷ b'd' ∷ b'i' ∷ b'f' ∷ b'f' ∷ b'i' ∷ b'c'
    ∷ b'u' ∷ b'l' ∷ b't' ∷ b'y' ∷ []

abbrev pub minimum_difficulty_value : Text
minimum_difficulty_value =
    b'm' ∷ b'i' ∷ b'n' ∷ b'i' ∷ b'm' ∷ b'u' ∷ b'm' ∷ b'-' ∷ b'd' ∷ b'i' ∷ b'f' ∷ b'f' ∷ b'i' ∷ b'c'
    ∷ b'u' ∷ b'l' ∷ b't' ∷ b'y' ∷ b'.' ∷ b'v' ∷ b'a' ∷ b'l' ∷ b'u' ∷ b'e' ∷ []

abbrev pub subscribe_extranonce_name : Text
subscribe_extranonce_name =
    b's' ∷ b'u' ∷ b'b' ∷ b's' ∷ b'c' ∷ b'r' ∷ b'i' ∷ b'b' ∷ b'e' ∷ b'-' ∷ b'e' ∷ b'x' ∷ b't' ∷ b'r'
    ∷ b'a' ∷ b'n' ∷ b'o' ∷ b'n' ∷ b'c' ∷ b'e' ∷ []

module _ {J N : Type 0} (json : Json J N) where
  unfoldable pub has_feature : List J → Text → Bool
  has_feature [] name = false
  has_feature (f ∷ fs) name =
      (elim (json.text f) [ some t ↦ text_eq t name | none ↦ false ]) || has_feature fs name

  -- `miner_mask`, from the text that was found.
  unfoldable pub mask_of : Option J → ℕ
  mask_of none = 2 ^ 32 - 1
  mask_of (some v) = elim (json.text v) [
    | none ↦ 2 ^ 32 - 1
    | some t ↦ (elim (stoul t) [ none ↦ 0 | some m ↦ m % 2 ^ 32 ])
  ]

  unfoldable pub difficulty_of : Option J → N
  difficulty_of none = json.no_number
  difficulty_of (some v) = elim (json.number v) [ none ↦ json.no_number | some n ↦ n ]

  -- `ConfigureResult r;`.
  abbrev pub nothing_granted : ConfigureResult N
  nothing_granted = record {
    version_mask = 0;
    version_rolling = false;
    version_rolling_requested = false;
    minimum_difficulty = false;
    suggested_min_difficulty = json.no_number;
    subscribe_extranonce = false;
  }

  -- The block of "version-rolling".
  unfoldable pub negotiate_versions : List J → (Text → Option J) → ℕ → ConfigureResult N
  unfolding has_feature mask_of
  negotiate_versions features extra pool =
      let mask = bit_and (mask_of (extra version_rolling_mask)) pool in
      if has_feature features version_rolling_name
      then (if mask == 0
          then record nothing_granted { version_rolling_requested = true }
          else record nothing_granted {
            version_rolling_requested = true;
            version_rolling = true;
            version_mask = mask;
          })
      else nothing_granted

  -- The blocks behind it.
  unfoldable pub negotiate_rest : List J → (Text → Option J) → ConfigureResult N → ConfigureResult N
  unfolding has_feature difficulty_of
  negotiate_rest features extra r =
      let r1 =
        if has_feature features minimum_difficulty_name
        then record r {
          minimum_difficulty = true;
          suggested_min_difficulty = difficulty_of (extra minimum_difficulty_value);
        }
        else r in
      if has_feature features subscribe_extranonce_name
      then record r1 { subscribe_extranonce = true }
      else r1

  -- The elements of `params`: fewer than two grant nothing, and those behind the second are ignored.
  unfoldable pub negotiate_params : List J → ℕ → ConfigureResult N
  unfolding negotiate_versions negotiate_rest
  negotiate_params [] pool = nothing_granted
  negotiate_params (a ∷ []) pool = nothing_granted
  negotiate_params (a ∷ b ∷ more) pool = elim (json.elements a) [
    | none ↦ nothing_granted
    | some features ↦ (elim (json.members b) [
      | none ↦ nothing_granted
      | some extra ↦ negotiate_rest features extra (negotiate_versions features extra pool)
    ])
  ]

  -- No access throws behind its check of the kind, but for `std::stoul`, which is caught inside.
  unfoldable pub negotiate_configure : J → ℕ → ConfigureResult N
  unfolding negotiate_params
  negotiate_configure params pool = elim (json.elements params) [
    | none ↦ nothing_granted
    | some items ↦ negotiate_params items pool
  ]
