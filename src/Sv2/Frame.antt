-- ===== src/Sv2/Frame.antt =====
-- Message types, the frame header and `wrap_message` of
-- yumtech/mkpool-src/src/sv2_messages.hpp.
pub mod RoundTrip
use yumtech_umbrel_apps.Prelude.{
  ℕ, ◌-◌, ◌%◌, ◌^◌, bit_or, Bool, ◌||◌, ◌++◌, [], length, leb, ◌==◌, if◌then◌else◌,
}
use yumtech_umbrel_apps.Sv2.Writer.{Bytes, Writer, write_u8, write_u16, write_u24}
use yumtech_umbrel_apps.Sv2.Reader.{M, pure, ◌>>=◌, read_u8, read_u16, read_u24}

abbrev pub ext_common : ℕ
ext_common = 0x0000

abbrev pub msg_new_mining_job : ℕ
msg_new_mining_job = 0x15

abbrev pub msg_update_channel : ℕ
msg_update_channel = 0x16

abbrev pub msg_update_channel_error : ℕ
msg_update_channel_error = 0x17

abbrev pub msg_close_channel : ℕ
msg_close_channel = 0x18

abbrev pub msg_set_extranonce_prefix : ℕ
msg_set_extranonce_prefix = 0x19

abbrev pub msg_submit_shares_standard : ℕ
msg_submit_shares_standard = 0x1a

abbrev pub msg_submit_shares_extended : ℕ
msg_submit_shares_extended = 0x1b

abbrev pub msg_submit_shares_success : ℕ
msg_submit_shares_success = 0x1c

abbrev pub msg_submit_shares_error : ℕ
msg_submit_shares_error = 0x1d

abbrev pub msg_new_extended_mining_job : ℕ
msg_new_extended_mining_job = 0x1f

abbrev pub msg_set_new_prev_hash : ℕ
msg_set_new_prev_hash = 0x20

abbrev pub msg_set_target : ℕ
msg_set_target = 0x21

abbrev pub channel_msg_bit : ℕ
channel_msg_bit = 0x8000

unfoldable pub is_channel_msg : ℕ → Bool
is_channel_msg t =
    t == msg_update_channel
    || t == msg_update_channel_error
    || t == msg_close_channel
    || t == msg_set_extranonce_prefix
    || t == msg_submit_shares_standard
    || t == msg_submit_shares_extended
    || t == msg_submit_shares_success
    || t == msg_submit_shares_error
    || t == msg_new_mining_job
    || t == msg_new_extended_mining_job
    || t == msg_set_new_prev_hash
    || t == msg_set_target

abbrev pub max_msg_length : ℕ
max_msg_length = 65535 - 16

unfoldable pub frame_length_ok : ℕ → Bool
frame_length_ok msg_length = leb msg_length max_msg_length

pub record Header : Type 0 where
  pub extension_type : ℕ
  pub msg_type : ℕ
  pub msg_length : ℕ

unfoldable pub serialize_header : Header → Writer → Writer
serialize_header h w =
    let w1 = write_u16 w h.extension_type in
    let w2 = write_u8 w1 h.msg_type in write_u24 w2 h.msg_length

unfoldable pub deserialize_header : M Header
deserialize_header = do
  extension_type ← read_u16
  msg_type ← read_u8
  msg_length ← read_u24
  pure (record { extension_type = extension_type; msg_type = msg_type; msg_length = msg_length })

-- The header that `wrap_message` builds; the size is cast to `uint32_t`.
unfoldable pub header_of : ℕ → ℕ → Bytes → Header
header_of ext_type msg_type payload = record {
  extension_type = if is_channel_msg msg_type then bit_or ext_type channel_msg_bit else ext_type;
  msg_type = msg_type;
  msg_length = length payload % 2 ^ 32;
}

unfoldable pub wrap_message : ℕ → ℕ → Bytes → Bytes
wrap_message ext_type msg_type payload =
    serialize_header (header_of ext_type msg_type payload) [] ++ payload
