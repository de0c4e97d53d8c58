-- ===== src/Tests/Versions.antt =====
-- Version rolling at concrete inputs.
use yumtech_umbrel_apps.Prelude.{
  ℕ, ◌≡◌, refl, true, List, [], ◌∷◌, Option, none, some, if◌then◌else◌, arith,
}
use yumtech_umbrel_apps.Prelude.Texts.{Text, text_eq}
use yumtech_umbrel_apps.Hex.{hex_nibble}
use yumtech_umbrel_apps.Hex.Integers.{from_chars}
use yumtech_umbrel_apps.Prelude.And.{bit}
use yumtech_umbrel_apps.StratumProtocol.{
  validate_version, Json, negotiate_configure, version_rolling_name, version_rolling_mask, stoul,
}
use yumtech_umbrel_apps.StratumProtocol.Negotiation.{negotiate_configure-versions}

-- The values of the parameters `[["version-rolling"], {"version-rolling.mask": "1fffe000"}]`.
data Sample : Type 0 where
  whole : Sample
  features : Sample
  rolling : Sample
  options : Sample
  mask_text : Sample

abbrev sample_elements : Sample → Option (List Sample)
sample_elements whole = some (features ∷ options ∷ [])
sample_elements features = some (rolling ∷ [])
sample_elements rolling = none
sample_elements options = none
sample_elements mask_text = none

abbrev sample_members : Sample → Option (Text → Option Sample)
sample_members options = some (λ k. if text_eq k version_rolling_mask then some mask_text else none)
sample_members whole = none
sample_members features = none
sample_members rolling = none
sample_members mask_text = none

abbrev sample_text : Sample → Option Text
sample_text rolling = some version_rolling_name
sample_text mask_text = some (b'1' ∷ b'f' ∷ b'f' ∷ b'f' ∷ b'e' ∷ b'0' ∷ b'0' ∷ b'0' ∷ [])
sample_text whole = none
sample_text features = none
sample_text options = none

abbrev sample_json : Json Sample ℕ
sample_json = record {
  elements = sample_elements;
  members = sample_members;
  text = sample_text;
  number = λ v. none;
  no_number = 0;
}

granted : (negotiate_configure sample_json whole 0x1fffe000).version_mask ≡ 0x1fffe000
unfolding negotiate_configure stoul text_eq from_chars hex_nibble
granted = refl

nothing_of_a_text : (negotiate_configure sample_json mask_text 0x1fffe000).version_mask ≡ 0
unfolding negotiate_configure
nothing_of_a_text = refl

rolled :
    validate_version 0x20006000 0x20000000
      (negotiate_configure sample_json whole 0x1fffe000).version_mask
    ≡ true
unfolding negotiate_configure stoul text_eq from_chars hex_nibble validate_version
rolled = refl

outside_of_the_mask : bit 29 0x1fffe000 ≡ 0
unfolding bit
outside_of_the_mask = refl

negotiate_configure-versions_example : bit 29 0x20006000 ≡ bit 29 0x20000000
negotiate_configure-versions_example =
    negotiate_configure-versions sample_json whole 0x1fffe000 0x20006000 0x20000000 29 (omega arith)
      (omega arith) (omega arith) outside_of_the_mask rolled
