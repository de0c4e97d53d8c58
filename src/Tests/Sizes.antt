-- ===== src/Tests/Sizes.antt =====
-- Compact sizes at concrete inputs.
use yumtech_umbrel_apps.Prelude.{◌+◌, ◌≡◌, [], ◌∷◌, ◌++◌, some, length, arith}
use yumtech_umbrel_apps.Hex.{hex_to_bytes, encode_varint}
use yumtech_umbrel_apps.Zcash.{Bytes, read_compact, write_compact}
use yumtech_umbrel_apps.Zcash.Compact.{read_compact-write_compact, encode_varint-write_compact}

abbrev front : Bytes
front = 9 ∷ []

read_compact-write_compact_example :
    read_compact (front ++ (write_compact 70000 ++ front)) (length front)
    ≡ some (70000, length front + length (write_compact 70000))
read_compact-write_compact_example = read_compact-write_compact front front 70000 (omega arith)

encode_varint-write_compact_example : hex_to_bytes (encode_varint 300) ≡ some (write_compact 300)
encode_varint-write_compact_example = encode_varint-write_compact 300 (omega arith)
