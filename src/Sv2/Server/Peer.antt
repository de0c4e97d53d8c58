-- ===== src/Sv2/Server/Peer.antt =====
-- How a peer reads the pool's messages about connections and channels, field by field in the order of the Stratum V2
-- specification, and `serialize` against it.
use yumtech_umbrel_apps.Prelude.{length, ◌≤◌, All}
use yumtech_umbrel_apps.Sv2.Writer.{IsU16, IsU32, IsU256}
use yumtech_umbrel_apps.Sv2.Reader.{
  M, pure, ◌>>=◌, read_b0_32, read_b0_64k, read_bool, read_option_u32, read_seq0_255_u256,
  read_str0_255, read_u16, read_u256, read_u32,
}
use yumtech_umbrel_apps.Sv2.Decodes.{Codes, bind-Codes, pure-Codes}
use yumtech_umbrel_apps.Sv2.Numbers.{bool-Codes, u16-Codes, u32-Codes}
use yumtech_umbrel_apps.Sv2.Blobs.{
  IsOptionU32, u256-Codes, str0_255-Codes_fits, b0_32-Codes_fits, b0_64k-Codes_fits,
  option_u32-Codes, seq0_255_u256-Codes,
}
use yumtech_umbrel_apps.Sv2.Server.{
  SetupConnectionSuccess, serialize_setup_connection_success, SetupConnectionError,
  serialize_setup_connection_error, OpenStandardMiningChannelSuccess,
  serialize_open_standard_mining_channel_success, OpenMiningChannelError,
  serialize_open_mining_channel_error, OpenExtendedMiningChannelSuccess,
  serialize_open_extended_mining_channel_success, NewExtendedMiningJob,
  serialize_new_extended_mining_job,
}

unfoldable pub peer_setup_connection_success : M SetupConnectionSuccess
peer_setup_connection_success = do
  used_version ← read_u16
  flags ← read_u32
  pure (record { used_version = used_version; flags = flags })

-- The fields fit their types on the wire.
pub record FitsSetupConnectionSuccess (m : SetupConnectionSuccess) : Type 0 where
  pub used_version_fits : IsU16 m.used_version
  pub flags_fits : IsU32 m.flags

pub setup_connection_success-Codes :
    (m : SetupConnectionSuccess)
    → FitsSetupConnectionSuccess m
    → Codes peer_setup_connection_success (serialize_setup_connection_success m) m
unfolding peer_setup_connection_success serialize_setup_connection_success
setup_connection_success-Codes m h =
    bind-Codes _ (u16-Codes m.used_version h.used_version_fits)
      (bind-Codes _ (u32-Codes m.flags h.flags_fits) (pure-Codes m))

unfoldable pub peer_setup_connection_error : M SetupConnectionError
peer_setup_connection_error = do
  error_code ← read_str0_255
  flags ← read_u32
  pure (record { error_code = error_code; flags = flags })

-- The fields fit their types on the wire.
pub record FitsSetupConnectionError (m : SetupConnectionError) : Type 0 where
  pub error_code_fits : length m.error_code ≤ 255
  pub flags_fits : IsU32 m.flags

pub setup_connection_error-Codes :
    (m : SetupConnectionError)
    → FitsSetupConnectionError m
    → Codes peer_setup_connection_error (serialize_setup_connection_error m) m
unfolding peer_setup_connection_error serialize_setup_connection_error
setup_connection_error-Codes m h =
    bind-Codes _ (str0_255-Codes_fits m.error_code h.error_code_fits)
      (bind-Codes _ (u32-Codes m.flags h.flags_fits) (pure-Codes m))

unfoldable pub peer_open_standard_mining_channel_success : M OpenStandardMiningChannelSuccess
peer_open_standard_mining_channel_success = do
  request_id ← read_u32
  channel_id ← read_u32
  target ← read_u256
  extranonce_prefix ← read_b0_32
  group_channel_id ← read_u32
  pure (record {
    request_id = request_id;
    channel_id = channel_id;
    target = target;
    extranonce_prefix = extranonce_prefix;
    group_channel_id = group_channel_id;
  })

-- The fields fit their types on the wire.
pub record FitsOpenStandardMiningChannelSuccess (m : OpenStandardMiningChannelSuccess)
    : Type 0 where
  pub request_id_fits : IsU32 m.request_id
  pub channel_id_fits : IsU32 m.channel_id
  pub target_fits : IsU256 m.target
  pub extranonce_prefix_fits : length m.extranonce_prefix ≤ 32
  pub group_channel_id_fits : IsU32 m.group_channel_id

pub open_standard_mining_channel_success-Codes :
    (m : OpenStandardMiningChannelSuccess)
    → FitsOpenStandardMiningChannelSuccess m
    → Codes peer_open_standard_mining_channel_success
        (serialize_open_standard_mining_channel_success m)
        m
unfolding peer_open_standard_mining_channel_success serialize_open_standard_mining_channel_success
open_standard_mining_channel_success-Codes m h =
    bind-Codes _ (u32-Codes m.request_id h.request_id_fits) (
      bind-Codes _ (u32-Codes m.channel_id h.channel_id_fits) (
        bind-Codes _ (u256-Codes m.target h.target_fits) (
          bind-Codes _ (b0_32-Codes_fits m.extranonce_prefix h.extranonce_prefix_fits)
            (bind-Codes _ (u32-Codes m.group_channel_id h.group_channel_id_fits) (pure-Codes m)))))

unfoldable pub peer_open_mining_channel_error : M OpenMiningChannelError
peer_open_mining_channel_error = do
  request_id ← read_u32
  error_code ← read_str0_255
  pure (record { request_id = request_id; error_code = error_code })

-- The fields fit their types on the wire.
pub record FitsOpenMiningChannelError (m : OpenMiningChannelError) : Type 0 where
  pub request_id_fits : IsU32 m.request_id
  pub error_code_fits : length m.error_code ≤ 255

pub open_mining_channel_error-Codes :
    (m : OpenMiningChannelError)
    → FitsOpenMiningChannelError m
    → Codes peer_open_mining_channel_error (serialize_open_mining_channel_error m) m
unfolding peer_open_mining_channel_error serialize_open_mining_channel_error
open_mining_channel_error-Codes m h =
    bind-Codes _ (u32-Codes m.request_id h.request_id_fits)
      (bind-Codes _ (str0_255-Codes_fits m.error_code h.error_code_fits) (pure-Codes m))

unfoldable pub peer_open_extended_mining_channel_success : M OpenExtendedMiningChannelSuccess
peer_open_extended_mining_channel_success = do
  request_id ← read_u32
  channel_id ← read_u32
  target ← read_u256
  extranonce_size ← read_u16
  extranonce_prefix ← read_b0_32
  group_channel_id ← read_u32
  pure (record {
    request_id = request_id;
    channel_id = channel_id;
    target = target;
    extranonce_size = extranonce_size;
    extranonce_prefix = extranonce_prefix;
    group_channel_id = group_channel_id;
  })

-- The fields fit their types on the wire.
pub record FitsOpenExtendedMiningChannelSuccess (m : OpenExtendedMiningChannelSuccess)
    : Type 0 where
  pub request_id_fits : IsU32 m.request_id
  pub channel_id_fits : IsU32 m.channel_id
  pub target_fits : IsU256 m.target
  pub extranonce_size_fits : IsU16 m.extranonce_size
  pub extranonce_prefix_fits : length m.extranonce_prefix ≤ 32
  pub group_channel_id_fits : IsU32 m.group_channel_id

pub open_extended_mining_channel_success-Codes :
    (m : OpenExtendedMiningChannelSuccess)
    → FitsOpenExtendedMiningChannelSuccess m
    → Codes peer_open_extended_mining_channel_success
        (serialize_open_extended_mining_channel_success m)
        m
unfolding peer_open_extended_mining_channel_success serialize_open_extended_mining_channel_success
open_extended_mining_channel_success-Codes m h =
    bind-Codes _ (u32-Codes m.request_id h.request_id_fits) (
      bind-Codes _ (u32-Codes m.channel_id h.channel_id_fits) (
        bind-Codes _ (u256-Codes m.target h.target_fits) (
          bind-Codes _ (u16-Codes m.extranonce_size h.extranonce_size_fits) (
            bind-Codes _ (b0_32-Codes_fits m.extranonce_prefix h.extranonce_prefix_fits) (
              bind-Codes _ (u32-Codes m.group_channel_id h.group_channel_id_fits)
                (pure-Codes m))))))

unfoldable pub peer_new_extended_mining_job : M NewExtendedMiningJob
peer_new_extended_mining_job = do
  channel_id ← read_u32
  job_id ← read_u32
  min_ntime ← read_option_u32
  version ← read_u32
  version_rolling_allowed ← read_bool
  merkle_path ← read_seq0_255_u256
  coinbase_tx_prefix ← read_b0_64k
  coinbase_tx_suffix ← read_b0_64k
  pure (record {
    channel_id = channel_id;
    job_id = job_id;
    min_ntime = min_ntime;
    version = version;
    version_rolling_allowed = version_rolling_allowed;
    merkle_path = merkle_path;
    coinbase_tx_prefix = coinbase_tx_prefix;
    coinbase_tx_suffix = coinbase_tx_suffix;
  })

-- The fields fit their types on the wire.
pub record FitsNewExtendedMiningJob (m : NewExtendedMiningJob) : Type 0 where
  pub channel_id_fits : IsU32 m.channel_id
  pub job_id_fits : IsU32 m.job_id
  pub min_ntime_fits : IsOptionU32 m.min_ntime
  pub version_fits : IsU32 m.version
  pub merkle_path_fits : All IsU256 m.merkle_path × (length m.merkle_path ≤ 255)
  pub coinbase_tx_prefix_fits : length m.coinbase_tx_prefix ≤ 65535
  pub coinbase_tx_suffix_fits : length m.coinbase_tx_suffix ≤ 65535

pub new_extended_mining_job-Codes :
    (m : NewExtendedMiningJob)
    → FitsNewExtendedMiningJob m
    → Codes peer_new_extended_mining_job (serialize_new_extended_mining_job m) m
unfolding peer_new_extended_mining_job serialize_new_extended_mining_job
new_extended_mining_job-Codes m h = bind-Codes _ (u32-Codes m.channel_id h.channel_id_fits) (
    bind-Codes _ (u32-Codes m.job_id h.job_id_fits) (
      bind-Codes _ (option_u32-Codes m.min_ntime h.min_ntime_fits) (
        bind-Codes _ (u32-Codes m.version h.version_fits) (
          bind-Codes _ (bool-Codes m.version_rolling_allowed) (
            bind-Codes _
              (seq0_255_u256-Codes m.merkle_path h.merkle_path_fits.0 h.merkle_path_fits.1)
              (bind-Codes _ (b0_64k-Codes_fits m.coinbase_tx_prefix h.coinbase_tx_prefix_fits) (
                bind-Codes _ (b0_64k-Codes_fits m.coinbase_tx_suffix h.coinbase_tx_suffix_fits)
                  (pure-Codes m))))))))
