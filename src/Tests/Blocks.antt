-- ===== src/Tests/Blocks.antt =====
-- Pushes, reversals and targets at concrete inputs.
use yumtech_umbrel_apps.Prelude.{
  ℕ, ◌-◌, ◌*◌, ◌/◌, ◌^◌, ◌≤◌, ◌≡◌, List, [], ◌∷◌, some, length, ltb, if◌then◌else◌, arith,
}
use yumtech_umbrel_apps.Hex.{hex_to_bytes}
use yumtech_umbrel_apps.Address.Regroup.{number}
use yumtech_umbrel_apps.Block.{Bytes, expand_target, encode_bip34_height}
use yumtech_umbrel_apps.Block.Pushes.{le_number, encode_bip34_height-read}
use yumtech_umbrel_apps.Block.Target.{expand_target-number}

abbrev tag : Bytes
tag = b'h' ∷ b'i' ∷ []

encode_bip34_height-read_example :
    (s : List ℕ) × (bs : Bytes) × (encode_bip34_height 840000 ≡ some s)
    × (hex_to_bytes s ≡ some (length bs ∷ bs))
    × (le_number bs ≡ 840000)
    × (length bs ≤ 4)
encode_bip34_height-read_example = encode_bip34_height-read 840000 (omega arith)

expand_target-number_example :
    number 256 (expand_target 0x1d 0xffff)
    ≡ (if ltb 0x1d 3 then 0xffff / 2 ^ ((3 - 0x1d) * 8) else 0xffff * 256 ^ (0x1d - 3))
expand_target-number_example = expand_target-number 0x1d 0xffff (omega arith) (omega arith)
