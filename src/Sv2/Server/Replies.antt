-- ===== src/Sv2/Server/Replies.antt =====
-- How a peer reads the pool's messages about jobs, shares and targets; the rest of `Peer`.
use yumtech_umbrel_apps.Prelude.{length, ◌≤◌}
use yumtech_umbrel_apps.Sv2.Writer.{IsU32, IsU64, IsU256}
use yumtech_umbrel_apps.Sv2.Reader.{
  M, pure, ◌>>=◌, read_b0_32, read_option_u32, read_str0_255, read_u256, read_u32, read_u64,
}
use yumtech_umbrel_apps.Sv2.Decodes.{Codes, bind-Codes, pure-Codes}
use yumtech_umbrel_apps.Sv2.Numbers.{u32-Codes, u64-Codes}
use yumtech_umbrel_apps.Sv2.Blobs.{
  IsOptionU32, u256-Codes, str0_255-Codes_fits, b0_32-Codes_fits, option_u32-Codes,
}
use yumtech_umbrel_apps.Sv2.Server.{
  NewMiningJob, serialize_new_mining_job, SubmitSharesSuccess, serialize_submit_shares_success,
  SubmitSharesError, serialize_submit_shares_error, SetTarget, serialize_set_target, SetNewPrevHash,
  serialize_set_new_prev_hash, SetCustomMiningJobSuccess, serialize_set_custom_mining_job_success,
  SetCustomMiningJobError, serialize_set_custom_mining_job_error,
}

unfoldable pub peer_new_mining_job : M NewMiningJob
peer_new_mining_job = do
  channel_id ← read_u32
  job_id ← read_u32
  min_ntime ← read_option_u32
  version ← read_u32
  merkle_root ← read_b0_32
  pure (record {
    channel_id = channel_id;
    job_id = job_id;
    min_ntime = min_ntime;
    version = version;
    merkle_root = merkle_root;
  })

-- The fields fit their types on the wire.
pub record FitsNewMiningJob (m : NewMiningJob) : Type 0 where
  pub channel_id_fits : IsU32 m.channel_id
  pub job_id_fits : IsU32 m.job_id
  pub min_ntime_fits : IsOptionU32 m.min_ntime
  pub version_fits : IsU32 m.version
  pub merkle_root_fits : length m.merkle_root ≤ 32

pub new_mining_job-Codes :
    (m : NewMiningJob)
    → FitsNewMiningJob m
    → Codes peer_new_mining_job (serialize_new_mining_job m) m
unfolding peer_new_mining_job serialize_new_mining_job
new_mining_job-Codes m h = bind-Codes _ (u32-Codes m.channel_id h.channel_id_fits) (
    bind-Codes _ (u32-Codes m.job_id h.job_id_fits) (
      bind-Codes _ (option_u32-Codes m.min_ntime h.min_ntime_fits) (
        bind-Codes _ (u32-Codes m.version h.version_fits)
          (bind-Codes _ (b0_32-Codes_fits m.merkle_root h.merkle_root_fits) (pure-Codes m)))))

unfoldable pub peer_submit_shares_success : M SubmitSharesSuccess
peer_submit_shares_success = do
  channel_id ← read_u32
  last_sequence_number ← read_u32
  new_submits_accepted_count ← read_u32
  new_shares_sum ← read_u64
  pure (record {
    channel_id = channel_id;
    last_sequence_number = last_sequence_number;
    new_submits_accepted_count = new_submits_accepted_count;
    new_shares_sum = new_shares_sum;
  })

-- The fields fit their types on the wire.
pub record FitsSubmitSharesSuccess (m : SubmitSharesSuccess) : Type 0 where
  pub channel_id_fits : IsU32 m.channel_id
  pub last_sequence_number_fits : IsU32 m.last_sequence_number
  pub new_submits_accepted_count_fits : IsU32 m.new_submits_accepted_count
  pub new_shares_sum_fits : IsU64 m.new_shares_sum

pub submit_shares_success-Codes :
    (m : SubmitSharesSuccess)
    → FitsSubmitSharesSuccess m
    → Codes peer_submit_shares_success (serialize_submit_shares_success m) m
unfolding peer_submit_shares_success serialize_submit_shares_success
submit_shares_success-Codes m h = bind-Codes _ (u32-Codes m.channel_id h.channel_id_fits) (
    bind-Codes _ (u32-Codes m.last_sequence_number h.last_sequence_number_fits) (
      bind-Codes _ (u32-Codes m.new_submits_accepted_count h.new_submits_accepted_count_fits)
        (bind-Codes _ (u64-Codes m.new_shares_sum h.new_shares_sum_fits) (pure-Codes m))))

unfoldable pub peer_submit_shares_error : M SubmitSharesError
peer_submit_shares_error = do
  channel_id ← read_u32
  sequence_number ← read_u32
  error_code ← read_str0_255
  pure (record {
    channel_id = channel_id;
    sequence_number = sequence_number;
    error_code = error_code;
  })

-- The fields fit their types on the wire.
pub record FitsSubmitSharesError (m : SubmitSharesError) : Type 0 where
  pub channel_id_fits : IsU32 m.channel_id
  pub sequence_number_fits : IsU32 m.sequence_number
  pub error_code_fits : length m.error_code ≤ 255

pub submit_shares_error-Codes :
    (m : SubmitSharesError)
    → FitsSubmitSharesError m
    → Codes peer_submit_shares_error (serialize_submit_shares_error m) m
unfolding peer_submit_shares_error serialize_submit_shares_error
submit_shares_error-Codes m h = bind-Codes _ (u32-Codes m.channel_id h.channel_id_fits) (
    bind-Codes _ (u32-Codes m.sequence_number h.sequence_number_fits)
      (bind-Codes _ (str0_255-Codes_fits m.error_code h.error_code_fits) (pure-Codes m)))

unfoldable pub peer_set_target : M SetTarget
peer_set_target = do
  channel_id ← read_u32
  maximum_target ← read_u256
  pure (record { channel_id = channel_id; maximum_target = maximum_target })

-- The fields fit their types on the wire.
pub record FitsSetTarget (m : SetTarget) : Type 0 where
  pub channel_id_fits : IsU32 m.channel_id
  pub maximum_target_fits : IsU256 m.maximum_target

pub set_target-Codes :
    (m : SetTarget) → FitsSetTarget m → Codes peer_set_target (serialize_set_target m) m
unfolding peer_set_target serialize_set_target
set_target-Codes m h =
    bind-Codes _ (u32-Codes m.channel_id h.channel_id_fits)
      (bind-Codes _ (u256-Codes m.maximum_target h.maximum_target_fits) (pure-Codes m))

unfoldable pub peer_set_new_prev_hash : M SetNewPrevHash
peer_set_new_prev_hash = do
  channel_id ← read_u32
  job_id ← read_u32
  prev_hash ← read_u256
  min_ntime ← read_u32
  nbits ← read_u32
  pure (record {
    channel_id = channel_id;
    job_id = job_id;
    prev_hash = prev_hash;
    min_ntime = min_ntime;
    nbits = nbits;
  })

-- The fields fit their types on the wire.
pub record FitsSetNewPrevHash (m : SetNewPrevHash) : Type 0 where
  pub channel_id_fits : IsU32 m.channel_id
  pub job_id_fits : IsU32 m.job_id
  pub prev_hash_fits : IsU256 m.prev_hash
  pub min_ntime_fits : IsU32 m.min_ntime
  pub nbits_fits : IsU32 m.nbits

pub set_new_prev_hash-Codes :
    (m : SetNewPrevHash)
    → FitsSetNewPrevHash m
    → Codes peer_set_new_prev_hash (serialize_set_new_prev_hash m) m
unfolding peer_set_new_prev_hash serialize_set_new_prev_hash
set_new_prev_hash-Codes m h = bind-Codes _ (u32-Codes m.channel_id h.channel_id_fits) (
    bind-Codes _ (u32-Codes m.job_id h.job_id_fits) (
      bind-Codes _ (u256-Codes m.prev_hash h.prev_hash_fits) (
        bind-Codes _ (u32-Codes m.min_ntime h.min_ntime_fits)
          (bind-Codes _ (u32-Codes m.nbits h.nbits_fits) (pure-Codes m)))))

unfoldable pub peer_set_custom_mining_job_success : M SetCustomMiningJobSuccess
peer_set_custom_mining_job_success = do
  channel_id ← read_u32
  request_id ← read_u32
  job_id ← read_u32
  pure (record { channel_id = channel_id; request_id = request_id; job_id = job_id })

-- The fields fit their types on the wire.
pub record FitsSetCustomMiningJobSuccess (m : SetCustomMiningJobSuccess) : Type 0 where
  pub channel_id_fits : IsU32 m.channel_id
  pub request_id_fits : IsU32 m.request_id
  pub job_id_fits : IsU32 m.job_id

pub set_custom_mining_job_success-Codes :
    (m : SetCustomMiningJobSuccess)
    → FitsSetCustomMiningJobSuccess m
    → Codes peer_set_custom_mining_job_success (serialize_set_custom_mining_job_success m) m
unfolding peer_set_custom_mining_job_success serialize_set_custom_mining_job_success
set_custom_mining_job_success-Codes m h = bind-Codes _ (u32-Codes m.channel_id h.channel_id_fits) (
    bind-Codes _ (u32-Codes m.request_id h.request_id_fits)
      (bind-Codes _ (u32-Codes m.job_id h.job_id_fits) (pure-Codes m)))

unfoldable pub peer_set_custom_mining_job_error : M SetCustomMiningJobError
peer_set_custom_mining_job_error = do
  channel_id ← read_u32
  request_id ← read_u32
  error_code ← read_str0_255
  pure (record { channel_id = channel_id; request_id = request_id; error_code = error_code })

-- The fields fit their types on the wire.
pub record FitsSetCustomMiningJobError (m : SetCustomMiningJobError) : Type 0 where
  pub channel_id_fits : IsU32 m.channel_id
  pub request_id_fits : IsU32 m.request_id
  pub error_code_fits : length m.error_code ≤ 255

pub set_custom_mining_job_error-Codes :
    (m : SetCustomMiningJobError)
    → FitsSetCustomMiningJobError m
    → Codes peer_set_custom_mining_job_error (serialize_set_custom_mining_job_error m) m
unfolding peer_set_custom_mining_job_error serialize_set_custom_mining_job_error
set_custom_mining_job_error-Codes m h = bind-Codes _ (u32-Codes m.channel_id h.channel_id_fits) (
    bind-Codes _ (u32-Codes m.request_id h.request_id_fits)
      (bind-Codes _ (str0_255-Codes_fits m.error_code h.error_code_fits) (pure-Codes m)))
