-- ===== src/Tests/Wire.antt =====
-- The Stratum V2 messages and frames at concrete inputs.
use yumtech_umbrel_apps.Prelude.{◌<◌, ◌^◌, ◌≤◌, ◌≡◌, refl, [], ◌∷◌, ◌++◌, length, replicate, arith}
use yumtech_umbrel_apps.Sv2.Writer.{write_u32, write_str0_255, write_u8, write_u256}
use yumtech_umbrel_apps.Sv2.Reader.{Reader, Error, ok, err}
use yumtech_umbrel_apps.Sv2.Stable.{extend}
use yumtech_umbrel_apps.Sv2.Frame.{deserialize_header, wrap_message}
use yumtech_umbrel_apps.Sv2.Frame.RoundTrip.{framed, deserialize_header-wrap_message}
use yumtech_umbrel_apps.Sv2.Client.{CloseChannel}
use yumtech_umbrel_apps.Sv2.Client.Layout.{layout_close_channel, FitsCloseChannel}
use yumtech_umbrel_apps.Sv2.Client.Messages.{
  deserialize, layout, start, close_channel, deserialize-layout, deserialize-extend,
  deserialize-truncated,
}
use yumtech_umbrel_apps.Sv2.Server.{SetTarget, serialize_set_target}
use yumtech_umbrel_apps.Sv2.Server.Replies.{FitsSetTarget}
use yumtech_umbrel_apps.Sv2.Server.Messages.{
  serialize, set_target, peer_frame, peer_frame-wrap_message,
}

abbrev closing : CloseChannel
closing = record { channel_id = 258; reason_code = b'b' ∷ b'y' ∷ b'e' ∷ [] }

closing-Fits : FitsCloseChannel closing
closing-Fits = record { channel_id_fits = omega arith; reason_code_fits = omega arith }

closing_bytes : layout close_channel closing [] ≡ 2 ∷ 1 ∷ 0 ∷ 0 ∷ 3 ∷ b'b' ∷ b'y' ∷ b'e' ∷ []
unfolding layout_close_channel write_u32 write_str0_255 write_u8
closing_bytes = refl

deserialize-layout_example :
    deserialize close_channel (start (layout close_channel closing [] ++ (7 ∷ [])))
    ≡ ok (
      closing,
      record {
        bytes = layout close_channel closing [] ++ (7 ∷ []);
        pos = length (layout close_channel closing []);
      },
    )
deserialize-layout_example = deserialize-layout close_channel closing (7 ∷ []) closing-Fits

abbrev closing_read : Reader
closing_read = record {
  bytes = layout close_channel closing [] ++ [];
  pos = length (layout close_channel closing []);
}

deserialize-extend_example :
    (closing_read.bytes ≡ (start (layout close_channel closing [] ++ [])).bytes)
    × (0 ≤ closing_read.pos)
    × (closing_read.pos ≤ length (layout close_channel closing [] ++ []))
    × (deserialize close_channel (extend (9 ∷ []) (start (layout close_channel closing [] ++ [])))
        ≡ ok (closing, extend (9 ∷ []) closing_read))
deserialize-extend_example =
    deserialize-extend close_channel (start (layout close_channel closing [] ++ [])) closing
      closing_read (9 ∷ []) (omega arith) (deserialize-layout close_channel closing [] closing-Fits)

deserialize-truncated_example :
    (e : Error) × (deserialize close_channel (start (2 ∷ 1 ∷ 0 ∷ 0 ∷ 3 ∷ b'b' ∷ b'y' ∷ [])) ≡ err e)
deserialize-truncated_example =
    deserialize-truncated close_channel closing (2 ∷ 1 ∷ 0 ∷ 0 ∷ 3 ∷ b'b' ∷ b'y' ∷ []) b'e' []
      closing-Fits closing_bytes

abbrev target : SetTarget
target = record { channel_id = 5; maximum_target = replicate 32 255 }

target-Fits : FitsSetTarget target
target-Fits = record { channel_id_fits = omega arith; maximum_target_fits = refl }

target_small : length (serialize set_target target []) < 2 ^ 24
unfolding serialize_set_target write_u32 write_u256
target_small = omega arith

peer_frame-wrap_message_example :
    let frame = wrap_message 0 0x21 (serialize set_target target []) in
    peer_frame set_target (record { bytes = frame ++ (1 ∷ []); pos = 0 })
    ≡ ok (
      (framed 0 0x21 (serialize set_target target []), target),
      record { bytes = frame ++ (1 ∷ []); pos = length frame },
    )
peer_frame-wrap_message_example =
    peer_frame-wrap_message set_target target 0 0x21 (1 ∷ []) target-Fits (omega arith) target_small

deserialize_header-wrap_message_example :
    deserialize_header (record { bytes = wrap_message 1 0x1b (8 ∷ 9 ∷ []) ++ (4 ∷ []); pos = 0 })
    ≡ ok (
      framed 1 0x1b (8 ∷ 9 ∷ []),
      record { bytes = wrap_message 1 0x1b (8 ∷ 9 ∷ []) ++ (4 ∷ []); pos = 6 },
    )
deserialize_header-wrap_message_example =
    deserialize_header-wrap_message 1 0x1b (8 ∷ 9 ∷ []) (4 ∷ []) (omega arith) (omega arith)
