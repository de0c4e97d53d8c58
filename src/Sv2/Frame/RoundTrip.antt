-- ===== src/Sv2/Frame/RoundTrip.antt =====
-- What a receiver reads from a frame that `wrap_message` built.
use native.Mathlib.Nat.{mod-eq_of_lt}
use yumtech_umbrel_apps.Prelude.{
  ℕ, ◌+◌, ◌^◌, ◌<◌, bit_or, ◌≡◌, refl, [], ◌++◌, length, append_assoc, if◌then◌else◌, arith,
}
use yumtech_umbrel_apps.Prelude.Bits.{bit_or_add}
use yumtech_umbrel_apps.Sv2.Writer.{Bytes, IsU16, IsU24, write_u8, write_u16, write_u24}
use yumtech_umbrel_apps.Sv2.Reader.{ok}
use yumtech_umbrel_apps.Sv2.Decodes.{Codes, bind-Codes, pure-Codes, Codes-run}
use yumtech_umbrel_apps.Sv2.Numbers.{u8-Codes, u16-Codes, u24-Codes}
use yumtech_umbrel_apps.Sv2.Frame.{
  Header, is_channel_msg, serialize_header, deserialize_header, header_of, wrap_message,
}

pub header-Codes :
    (h : Header)
    → IsU16 h.extension_type
    → IsU24 h.msg_length
    → Codes deserialize_header (serialize_header h) h
unfolding deserialize_header serialize_header
header-Codes h e l =
    bind-Codes _ (u16-Codes h.extension_type e)
      (bind-Codes _ (u8-Codes h.msg_type) (bind-Codes _ (u24-Codes h.msg_length l) (pure-Codes h)))

-- The type of a frame, with the channel bit set for the channel messages.
pub extension_of : ℕ → ℕ → ℕ
extension_of ext msg_type = if is_channel_msg msg_type then ext + 2 ^ 15 else ext

-- The header that a receiver is to see.
abbrev pub framed : ℕ → ℕ → Bytes → Header
framed ext msg_type payload = record {
  extension_type = extension_of ext msg_type;
  msg_type = msg_type;
  msg_length = length payload;
}

header_of_lem :
    (ext msg_type : ℕ) (payload : Bytes)
    → ext < 2 ^ 15
    → IsU24 (length payload)
    → header_of ext msg_type payload ≡ framed ext msg_type payload
unfolding header_of extension_of
header_of_lem ext msg_type payload he hl =
    let e : bit_or ext 0x8000 ≡ ext + 2 ^ 15 = bit_or_add 15 ext 1 he in
    rw (e, mod-eq_of_lt {n = length payload} {m = 2 ^ 32} (omega arith))

-- The header is six bytes.
length-serialize_header : (h : Header) → length (serialize_header h []) ≡ 6
unfolding serialize_header write_u8 write_u16 write_u24
length-serialize_header h = refl

pub extension_of-IsU16 : (ext msg_type : ℕ) → ext < 2 ^ 15 → IsU16 (extension_of ext msg_type)
unfolding extension_of
extension_of-IsU16 ext msg_type h = ground arith

-- For an extension type below the channel bit and a payload below 2^24 bytes, the header that is read
-- from the start of a frame is the one that the frame was made with, the channel bit included, and
-- six bytes are read.
pub deserialize_header-wrap_message :
    (ext msg_type : ℕ) (payload rest : Bytes)
    → ext < 2 ^ 15
    → IsU24 (length payload)
    → deserialize_header (record { bytes = wrap_message ext msg_type payload ++ rest; pos = 0 })
      ≡ ok (
        framed ext msg_type payload,
        record { bytes = wrap_message ext msg_type payload ++ rest; pos = 6 },
      )
unfolding wrap_message
deserialize_header-wrap_message ext msg_type payload rest he hl =
    rw (header_of_lem ext msg_type payload he hl, append_assoc)
      (rw length-serialize_header at (
        Codes-run
          (header-Codes (framed ext msg_type payload) (extension_of-IsU16 ext msg_type he) hl)
          (payload ++ rest)))

-- A frame is its header with the payload behind it.
pub wrap_message_lem :
    (ext msg_type : ℕ) (payload : Bytes)
    → ext < 2 ^ 15
    → IsU24 (length payload)
    → wrap_message ext msg_type payload
      ≡ serialize_header (framed ext msg_type payload) [] ++ payload
unfolding wrap_message
wrap_message_lem ext msg_type payload he hl = rw (header_of_lem ext msg_type payload he hl)
