-- ===== src/Sv2/Server.antt =====
-- The messages that the pool sends, and how it writes them: the structs of
-- yumtech/mkpool-src/src/sv2_messages.hpp with a method `serialize`.
pub mod Peer
pub mod Replies
pub mod Messages
use yumtech_umbrel_apps.Prelude.{ℕ, Bool, Option, List, length, ◌≤◌, All}
use yumtech_umbrel_apps.Sv2.Writer.{
  Bytes, Writer, IsU16, IsU24, IsU32, IsU64, IsU256, write_b0_255, write_b0_32, write_b0_64k,
  write_bool, write_f32, write_option_u32, write_seq0_255_u256, write_str0_255, write_u16,
  write_u24, write_u256, write_u32, write_u64, write_u8,
}

pub record SetupConnectionSuccess : Type 0 where
  pub used_version : ℕ
  pub flags : ℕ

unfoldable pub serialize_setup_connection_success : SetupConnectionSuccess → Writer → Writer
serialize_setup_connection_success m w = let w1 = write_u16 w m.used_version in write_u32 w1 m.flags

pub record SetupConnectionError : Type 0 where
  pub error_code : Bytes
  pub flags : ℕ

unfoldable pub serialize_setup_connection_error : SetupConnectionError → Writer → Writer
serialize_setup_connection_error m w =
    let w1 = write_str0_255 w m.error_code in write_u32 w1 m.flags

pub record OpenStandardMiningChannelSuccess : Type 0 where
  pub request_id : ℕ
  pub channel_id : ℕ
  pub target : Bytes
  pub extranonce_prefix : Bytes
  pub group_channel_id : ℕ

unfoldable pub serialize_open_standard_mining_channel_success :
    OpenStandardMiningChannelSuccess → Writer → Writer
serialize_open_standard_mining_channel_success m w =
    let w1 = write_u32 w m.request_id in
    let w2 = write_u32 w1 m.channel_id in
    let w3 = write_u256 w2 m.target in
    let w4 = write_b0_32 w3 m.extranonce_prefix in write_u32 w4 m.group_channel_id

pub record OpenMiningChannelError : Type 0 where
  pub request_id : ℕ
  pub error_code : Bytes

unfoldable pub serialize_open_mining_channel_error : OpenMiningChannelError → Writer → Writer
serialize_open_mining_channel_error m w =
    let w1 = write_u32 w m.request_id in write_str0_255 w1 m.error_code

pub record OpenExtendedMiningChannelSuccess : Type 0 where
  pub request_id : ℕ
  pub channel_id : ℕ
  pub target : Bytes
  pub extranonce_size : ℕ
  pub extranonce_prefix : Bytes
  pub group_channel_id : ℕ

unfoldable pub serialize_open_extended_mining_channel_success :
    OpenExtendedMiningChannelSuccess → Writer → Writer
serialize_open_extended_mining_channel_success m w =
    let w1 = write_u32 w m.request_id in
    let w2 = write_u32 w1 m.channel_id in
    let w3 = write_u256 w2 m.target in
    let w4 = write_u16 w3 m.extranonce_size in
    let w5 = write_b0_32 w4 m.extranonce_prefix in write_u32 w5 m.group_channel_id

pub record NewExtendedMiningJob : Type 0 where
  pub channel_id : ℕ
  pub job_id : ℕ
  pub min_ntime : Option ℕ
  pub version : ℕ
  pub version_rolling_allowed : Bool
  pub merkle_path : List Bytes
  pub coinbase_tx_prefix : Bytes
  pub coinbase_tx_suffix : Bytes

unfoldable pub serialize_new_extended_mining_job : NewExtendedMiningJob → Writer → Writer
serialize_new_extended_mining_job m w =
    let w1 = write_u32 w m.channel_id in
    let w2 = write_u32 w1 m.job_id in
    let w3 = write_option_u32 w2 m.min_ntime in
    let w4 = write_u32 w3 m.version in
    let w5 = write_bool w4 m.version_rolling_allowed in
    let w6 = write_seq0_255_u256 w5 m.merkle_path in
    let w7 = write_b0_64k w6 m.coinbase_tx_prefix in write_b0_64k w7 m.coinbase_tx_suffix

pub record NewMiningJob : Type 0 where
  pub channel_id : ℕ
  pub job_id : ℕ
  pub min_ntime : Option ℕ
  pub version : ℕ
  pub merkle_root : Bytes

unfoldable pub serialize_new_mining_job : NewMiningJob → Writer → Writer
serialize_new_mining_job m w =
    let w1 = write_u32 w m.channel_id in
    let w2 = write_u32 w1 m.job_id in
    let w3 = write_option_u32 w2 m.min_ntime in
    let w4 = write_u32 w3 m.version in write_b0_32 w4 m.merkle_root

pub record SubmitSharesSuccess : Type 0 where
  pub channel_id : ℕ
  pub last_sequence_number : ℕ
  pub new_submits_accepted_count : ℕ
  pub new_shares_sum : ℕ

unfoldable pub serialize_submit_shares_success : SubmitSharesSuccess → Writer → Writer
serialize_submit_shares_success m w =
    let w1 = write_u32 w m.channel_id in
    let w2 = write_u32 w1 m.last_sequence_number in
    let w3 = write_u32 w2 m.new_submits_accepted_count in write_u64 w3 m.new_shares_sum

pub record SubmitSharesError : Type 0 where
  pub channel_id : ℕ
  pub sequence_number : ℕ
  pub error_code : Bytes

unfoldable pub serialize_submit_shares_error : SubmitSharesError → Writer → Writer
serialize_submit_shares_error m w =
    let w1 = write_u32 w m.channel_id in
    let w2 = write_u32 w1 m.sequence_number in write_str0_255 w2 m.error_code

pub record SetTarget : Type 0 where
  pub channel_id : ℕ
  pub maximum_target : Bytes

unfoldable pub serialize_set_target : SetTarget → Writer → Writer
serialize_set_target m w = let w1 = write_u32 w m.channel_id in write_u256 w1 m.maximum_target

pub record SetNewPrevHash : Type 0 where
  pub channel_id : ℕ
  pub job_id : ℕ
  pub prev_hash : Bytes
  pub min_ntime : ℕ
  pub nbits : ℕ

unfoldable pub serialize_set_new_prev_hash : SetNewPrevHash → Writer → Writer
serialize_set_new_prev_hash m w =
    let w1 = write_u32 w m.channel_id in
    let w2 = write_u32 w1 m.job_id in
    let w3 = write_u256 w2 m.prev_hash in let w4 = write_u32 w3 m.min_ntime in write_u32 w4 m.nbits

pub record SetCustomMiningJobSuccess : Type 0 where
  pub channel_id : ℕ
  pub request_id : ℕ
  pub job_id : ℕ

unfoldable pub serialize_set_custom_mining_job_success : SetCustomMiningJobSuccess → Writer → Writer
serialize_set_custom_mining_job_success m w =
    let w1 = write_u32 w m.channel_id in let w2 = write_u32 w1 m.request_id in write_u32 w2 m.job_id

pub record SetCustomMiningJobError : Type 0 where
  pub channel_id : ℕ
  pub request_id : ℕ
  pub error_code : Bytes

unfoldable pub serialize_set_custom_mining_job_error : SetCustomMiningJobError → Writer → Writer
serialize_set_custom_mining_job_error m w =
    let w1 = write_u32 w m.channel_id in
    let w2 = write_u32 w1 m.request_id in write_str0_255 w2 m.error_code
