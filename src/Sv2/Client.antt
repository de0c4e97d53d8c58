-- ===== src/Sv2/Client.antt =====
-- The messages that a Stratum V2 client sends, and how the pool reads them: the structs of
-- yumtech/mkpool-src/src/sv2_messages.hpp with a method `deserialize`. A `float` is its bit pattern.
pub mod Layout
pub mod Shares
pub mod Messages
use yumtech_umbrel_apps.Prelude.{ℕ, Bool, Option, List, length, ◌≤◌, All}
use yumtech_umbrel_apps.Sv2.Writer.{
  Bytes, Writer, IsU16, IsU24, IsU32, IsU64, IsU256, write_b0_255, write_b0_32, write_b0_64k,
  write_bool, write_f32, write_option_u32, write_seq0_255_u256, write_str0_255, write_u16,
  write_u24, write_u256, write_u32, write_u64, write_u8,
}
use yumtech_umbrel_apps.Sv2.Reader.{
  M, pure, ◌>>=◌, read_b0_255, read_b0_32, read_b0_64k, read_bool, read_f32, read_option_u32,
  read_seq0_255_u256, read_str0_255, read_u16, read_u24, read_u256, read_u32, read_u64, read_u8,
}

pub record SetupConnection : Type 0 where
  pub protocol : ℕ
  pub min_version : ℕ
  pub max_version : ℕ
  pub flags : ℕ
  pub endpoint_host : Bytes
  pub endpoint_port : ℕ
  pub vendor : Bytes
  pub hardware_version : Bytes
  pub firmware : Bytes
  pub device_id : Bytes

unfoldable pub deserialize_setup_connection : M SetupConnection
deserialize_setup_connection = do
  protocol ← read_u8
  min_version ← read_u16
  max_version ← read_u16
  flags ← read_u32
  endpoint_host ← read_str0_255
  endpoint_port ← read_u16
  vendor ← read_str0_255
  hardware_version ← read_str0_255
  firmware ← read_str0_255
  device_id ← read_str0_255
  pure (record {
    protocol = protocol;
    min_version = min_version;
    max_version = max_version;
    flags = flags;
    endpoint_host = endpoint_host;
    endpoint_port = endpoint_port;
    vendor = vendor;
    hardware_version = hardware_version;
    firmware = firmware;
    device_id = device_id;
  })

pub record OpenStandardMiningChannel : Type 0 where
  pub request_id : ℕ
  pub user_identity : Bytes
  pub nominal_hash_rate : ℕ
  pub max_target : Bytes

unfoldable pub deserialize_open_standard_mining_channel : M OpenStandardMiningChannel
deserialize_open_standard_mining_channel = do
  request_id ← read_u32
  user_identity ← read_str0_255
  nominal_hash_rate ← read_f32
  max_target ← read_u256
  pure (record {
    request_id = request_id;
    user_identity = user_identity;
    nominal_hash_rate = nominal_hash_rate;
    max_target = max_target;
  })

pub record OpenExtendedMiningChannel : Type 0 where
  pub request_id : ℕ
  pub user_identity : Bytes
  pub nominal_hash_rate : ℕ
  pub max_target : Bytes
  pub min_extranonce_size : ℕ

unfoldable pub deserialize_open_extended_mining_channel : M OpenExtendedMiningChannel
deserialize_open_extended_mining_channel = do
  request_id ← read_u32
  user_identity ← read_str0_255
  nominal_hash_rate ← read_f32
  max_target ← read_u256
  min_extranonce_size ← read_u16
  pure (record {
    request_id = request_id;
    user_identity = user_identity;
    nominal_hash_rate = nominal_hash_rate;
    max_target = max_target;
    min_extranonce_size = min_extranonce_size;
  })

pub record UpdateChannel : Type 0 where
  pub channel_id : ℕ
  pub nominal_hash_rate : ℕ
  pub maximum_target : Bytes

unfoldable pub deserialize_update_channel : M UpdateChannel
deserialize_update_channel = do
  channel_id ← read_u32
  nominal_hash_rate ← read_f32
  maximum_target ← read_u256
  pure (record {
    channel_id = channel_id;
    nominal_hash_rate = nominal_hash_rate;
    maximum_target = maximum_target;
  })

pub record CloseChannel : Type 0 where
  pub channel_id : ℕ
  pub reason_code : Bytes

unfoldable pub deserialize_close_channel : M CloseChannel
deserialize_close_channel = do
  channel_id ← read_u32
  reason_code ← read_str0_255
  pure (record { channel_id = channel_id; reason_code = reason_code })

pub record SubmitSharesStandard : Type 0 where
  pub channel_id : ℕ
  pub sequence_number : ℕ
  pub job_id : ℕ
  pub nonce : ℕ
  pub ntime : ℕ
  pub version : ℕ

unfoldable pub deserialize_submit_shares_standard : M SubmitSharesStandard
deserialize_submit_shares_standard = do
  channel_id ← read_u32
  sequence_number ← read_u32
  job_id ← read_u32
  nonce ← read_u32
  ntime ← read_u32
  version ← read_u32
  pure (record {
    channel_id = channel_id;
    sequence_number = sequence_number;
    job_id = job_id;
    nonce = nonce;
    ntime = ntime;
    version = version;
  })

pub record SubmitSharesExtended : Type 0 where
  pub channel_id : ℕ
  pub sequence_number : ℕ
  pub job_id : ℕ
  pub nonce : ℕ
  pub ntime : ℕ
  pub version : ℕ
  pub extranonce : Bytes

unfoldable pub deserialize_submit_shares_extended : M SubmitSharesExtended
deserialize_submit_shares_extended = do
  channel_id ← read_u32
  sequence_number ← read_u32
  job_id ← read_u32
  nonce ← read_u32
  ntime ← read_u32
  version ← read_u32
  extranonce ← read_b0_32
  pure (record {
    channel_id = channel_id;
    sequence_number = sequence_number;
    job_id = job_id;
    nonce = nonce;
    ntime = ntime;
    version = version;
    extranonce = extranonce;
  })

pub record SetCustomMiningJob : Type 0 where
  pub channel_id : ℕ
  pub request_id : ℕ
  pub mining_job_token : Bytes
  pub version : ℕ
  pub prev_hash : Bytes
  pub min_ntime : ℕ
  pub nbits : ℕ
  pub coinbase_tx_version : ℕ
  pub coinbase_prefix : Bytes
  pub coinbase_tx_input_n_sequence : ℕ
  pub coinbase_tx_outputs : Bytes
  pub coinbase_tx_locktime : ℕ
  pub merkle_path : List Bytes

unfoldable pub deserialize_set_custom_mining_job : M SetCustomMiningJob
deserialize_set_custom_mining_job = do
  channel_id ← read_u32
  request_id ← read_u32
  mining_job_token ← read_b0_255
  version ← read_u32
  prev_hash ← read_u256
  min_ntime ← read_u32
  nbits ← read_u32
  coinbase_tx_version ← read_u32
  coinbase_prefix ← read_b0_255
  coinbase_tx_input_n_sequence ← read_u32
  coinbase_tx_outputs ← read_b0_64k
  coinbase_tx_locktime ← read_u32
  merkle_path ← read_seq0_255_u256
  pure (record {
    channel_id = channel_id;
    request_id = request_id;
    mining_job_token = mining_job_token;
    version = version;
    prev_hash = prev_hash;
    min_ntime = min_ntime;
    nbits = nbits;
    coinbase_tx_version = coinbase_tx_version;
    coinbase_prefix = coinbase_prefix;
    coinbase_tx_input_n_sequence = coinbase_tx_input_n_sequence;
    coinbase_tx_outputs = coinbase_tx_outputs;
    coinbase_tx_locktime = coinbase_tx_locktime;
    merkle_path = merkle_path;
  })
