-- ===== src/Sv2/Client/Layout.antt =====
-- The wire layout of the messages that set up a connection and its channels, field by field in the
-- order of the Stratum V2 specification, and `deserialize` against it.
use yumtech_umbrel_apps.Prelude.{length, ◌≤◌}
use yumtech_umbrel_apps.Sv2.Writer.{
  Writer, IsU16, IsU32, IsU256, write_f32, write_str0_255, write_u16, write_u256, write_u32,
  write_u8,
}
use yumtech_umbrel_apps.Sv2.Decodes.{Codes, bind-Codes, pure-Codes}
use yumtech_umbrel_apps.Sv2.Numbers.{u8-Codes, u16-Codes, u32-Codes, f32-Codes}
use yumtech_umbrel_apps.Sv2.Blobs.{u256-Codes, str0_255-Codes_fits}
use yumtech_umbrel_apps.Sv2.Client.{
  SetupConnection, deserialize_setup_connection, OpenStandardMiningChannel,
  deserialize_open_standard_mining_channel, OpenExtendedMiningChannel,
  deserialize_open_extended_mining_channel, UpdateChannel, deserialize_update_channel, CloseChannel,
  deserialize_close_channel,
}

unfoldable pub layout_setup_connection : SetupConnection → Writer → Writer
layout_setup_connection m w =
    let w1 = write_u8 w m.protocol in
    let w2 = write_u16 w1 m.min_version in
    let w3 = write_u16 w2 m.max_version in
    let w4 = write_u32 w3 m.flags in
    let w5 = write_str0_255 w4 m.endpoint_host in
    let w6 = write_u16 w5 m.endpoint_port in
    let w7 = write_str0_255 w6 m.vendor in
    let w8 = write_str0_255 w7 m.hardware_version in
    let w9 = write_str0_255 w8 m.firmware in write_str0_255 w9 m.device_id

-- The fields fit their types on the wire.
pub record FitsSetupConnection (m : SetupConnection) : Type 0 where
  pub min_version_fits : IsU16 m.min_version
  pub max_version_fits : IsU16 m.max_version
  pub flags_fits : IsU32 m.flags
  pub endpoint_host_fits : length m.endpoint_host ≤ 255
  pub endpoint_port_fits : IsU16 m.endpoint_port
  pub vendor_fits : length m.vendor ≤ 255
  pub hardware_version_fits : length m.hardware_version ≤ 255
  pub firmware_fits : length m.firmware ≤ 255
  pub device_id_fits : length m.device_id ≤ 255

pub setup_connection-Codes :
    (m : SetupConnection)
    → FitsSetupConnection m
    → Codes deserialize_setup_connection (layout_setup_connection m) m
unfolding deserialize_setup_connection layout_setup_connection
setup_connection-Codes m h = bind-Codes _ (u8-Codes m.protocol) (
    bind-Codes _ (u16-Codes m.min_version h.min_version_fits) (
      bind-Codes _ (u16-Codes m.max_version h.max_version_fits) (
        bind-Codes _ (u32-Codes m.flags h.flags_fits) (
          bind-Codes _ (str0_255-Codes_fits m.endpoint_host h.endpoint_host_fits) (
            bind-Codes _ (u16-Codes m.endpoint_port h.endpoint_port_fits) (
              bind-Codes _ (str0_255-Codes_fits m.vendor h.vendor_fits) (
                bind-Codes _ (str0_255-Codes_fits m.hardware_version h.hardware_version_fits) (
                  bind-Codes _ (str0_255-Codes_fits m.firmware h.firmware_fits) (
                    bind-Codes _ (str0_255-Codes_fits m.device_id h.device_id_fits)
                      (pure-Codes m))))))))))

unfoldable pub layout_open_standard_mining_channel : OpenStandardMiningChannel → Writer → Writer
layout_open_standard_mining_channel m w =
    let w1 = write_u32 w m.request_id in
    let w2 = write_str0_255 w1 m.user_identity in
    let w3 = write_f32 w2 m.nominal_hash_rate in write_u256 w3 m.max_target

-- The fields fit their types on the wire.
pub record FitsOpenStandardMiningChannel (m : OpenStandardMiningChannel) : Type 0 where
  pub request_id_fits : IsU32 m.request_id
  pub user_identity_fits : length m.user_identity ≤ 255
  pub nominal_hash_rate_fits : IsU32 m.nominal_hash_rate
  pub max_target_fits : IsU256 m.max_target

pub open_standard_mining_channel-Codes :
    (m : OpenStandardMiningChannel)
    → FitsOpenStandardMiningChannel m
    → Codes deserialize_open_standard_mining_channel (layout_open_standard_mining_channel m) m
unfolding deserialize_open_standard_mining_channel layout_open_standard_mining_channel
open_standard_mining_channel-Codes m h = bind-Codes _ (u32-Codes m.request_id h.request_id_fits) (
    bind-Codes _ (str0_255-Codes_fits m.user_identity h.user_identity_fits) (
      bind-Codes _ (f32-Codes m.nominal_hash_rate h.nominal_hash_rate_fits)
        (bind-Codes _ (u256-Codes m.max_target h.max_target_fits) (pure-Codes m))))

unfoldable pub layout_open_extended_mining_channel : OpenExtendedMiningChannel → Writer → Writer
layout_open_extended_mining_channel m w =
    let w1 = write_u32 w m.request_id in
    let w2 = write_str0_255 w1 m.user_identity in
    let w3 = write_f32 w2 m.nominal_hash_rate in
    let w4 = write_u256 w3 m.max_target in write_u16 w4 m.min_extranonce_size

-- The fields fit their types on the wire.
pub record FitsOpenExtendedMiningChannel (m : OpenExtendedMiningChannel) : Type 0 where
  pub request_id_fits : IsU32 m.request_id
  pub user_identity_fits : length m.user_identity ≤ 255
  pub nominal_hash_rate_fits : IsU32 m.nominal_hash_rate
  pub max_target_fits : IsU256 m.max_target
  pub min_extranonce_size_fits : IsU16 m.min_extranonce_size

pub open_extended_mining_channel-Codes :
    (m : OpenExtendedMiningChannel)
    → FitsOpenExtendedMiningChannel m
    → Codes deserialize_open_extended_mining_channel (layout_open_extended_mining_channel m) m
unfolding deserialize_open_extended_mining_channel layout_open_extended_mining_channel
open_extended_mining_channel-Codes m h = bind-Codes _ (u32-Codes m.request_id h.request_id_fits) (
    bind-Codes _ (str0_255-Codes_fits m.user_identity h.user_identity_fits) (
      bind-Codes _ (f32-Codes m.nominal_hash_rate h.nominal_hash_rate_fits) (
        bind-Codes _ (u256-Codes m.max_target h.max_target_fits) (
          bind-Codes _ (u16-Codes m.min_extranonce_size h.min_extranonce_size_fits)
            (pure-Codes m)))))

unfoldable pub layout_update_channel : UpdateChannel → Writer → Writer
layout_update_channel m w =
    let w1 = write_u32 w m.channel_id in
    let w2 = write_f32 w1 m.nominal_hash_rate in write_u256 w2 m.maximum_target

-- The fields fit their types on the wire.
pub record FitsUpdateChannel (m : UpdateChannel) : Type 0 where
  pub channel_id_fits : IsU32 m.channel_id
  pub nominal_hash_rate_fits : IsU32 m.nominal_hash_rate
  pub maximum_target_fits : IsU256 m.maximum_target

pub update_channel-Codes :
    (m : UpdateChannel)
    → FitsUpdateChannel m
    → Codes deserialize_update_channel (layout_update_channel m) m
unfolding deserialize_update_channel layout_update_channel
update_channel-Codes m h = bind-Codes _ (u32-Codes m.channel_id h.channel_id_fits) (
    bind-Codes _ (f32-Codes m.nominal_hash_rate h.nominal_hash_rate_fits)
      (bind-Codes _ (u256-Codes m.maximum_target h.maximum_target_fits) (pure-Codes m)))

unfoldable pub layout_close_channel : CloseChannel → Writer → Writer
layout_close_channel m w = let w1 = write_u32 w m.channel_id in write_str0_255 w1 m.reason_code

-- The fields fit their types on the wire.
pub record FitsCloseChannel (m : CloseChannel) : Type 0 where
  pub channel_id_fits : IsU32 m.channel_id
  pub reason_code_fits : length m.reason_code ≤ 255

pub close_channel-Codes :
    (m : CloseChannel)
    → FitsCloseChannel m
    → Codes deserialize_close_channel (layout_close_channel m) m
unfolding deserialize_close_channel layout_close_channel
close_channel-Codes m h =
    bind-Codes _ (u32-Codes m.channel_id h.channel_id_fits)
      (bind-Codes _ (str0_255-Codes_fits m.reason_code h.reason_code_fits) (pure-Codes m))
