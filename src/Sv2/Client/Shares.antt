-- ===== src/Sv2/Client/Shares.antt =====
-- The wire layout of submitted shares and of custom jobs, field by field in the order of the Stratum V2
-- specification, and `deserialize` against it.
use yumtech_umbrel_apps.Prelude.{length, ◌≤◌, All}
use yumtech_umbrel_apps.Sv2.Writer.{
  Writer, IsU32, IsU256, write_b0_255, write_b0_32, write_b0_64k, write_seq0_255_u256, write_u256,
  write_u32,
}
use yumtech_umbrel_apps.Sv2.Decodes.{Codes, bind-Codes, pure-Codes}
use yumtech_umbrel_apps.Sv2.Numbers.{u32-Codes}
use yumtech_umbrel_apps.Sv2.Blobs.{
  u256-Codes, b0_32-Codes_fits, b0_255-Codes_fits, b0_64k-Codes_fits, seq0_255_u256-Codes,
}
use yumtech_umbrel_apps.Sv2.Client.{
  SubmitSharesStandard, deserialize_submit_shares_standard, SubmitSharesExtended,
  deserialize_submit_shares_extended, SetCustomMiningJob, deserialize_set_custom_mining_job,
}

unfoldable pub layout_submit_shares_standard : SubmitSharesStandard → Writer → Writer
layout_submit_shares_standard m w =
    let w1 = write_u32 w m.channel_id in
    let w2 = write_u32 w1 m.sequence_number in
    let w3 = write_u32 w2 m.job_id in
    let w4 = write_u32 w3 m.nonce in let w5 = write_u32 w4 m.ntime in write_u32 w5 m.version

-- The fields fit their types on the wire.
pub record FitsSubmitSharesStandard (m : SubmitSharesStandard) : Type 0 where
  pub channel_id_fits : IsU32 m.channel_id
  pub sequence_number_fits : IsU32 m.sequence_number
  pub job_id_fits : IsU32 m.job_id
  pub nonce_fits : IsU32 m.nonce
  pub ntime_fits : IsU32 m.ntime
  pub version_fits : IsU32 m.version

pub submit_shares_standard-Codes :
    (m : SubmitSharesStandard)
    → FitsSubmitSharesStandard m
    → Codes deserialize_submit_shares_standard (layout_submit_shares_standard m) m
unfolding deserialize_submit_shares_standard layout_submit_shares_standard
submit_shares_standard-Codes m h = bind-Codes _ (u32-Codes m.channel_id h.channel_id_fits) (
    bind-Codes _ (u32-Codes m.sequence_number h.sequence_number_fits) (
      bind-Codes _ (u32-Codes m.job_id h.job_id_fits) (
        bind-Codes _ (u32-Codes m.nonce h.nonce_fits) (
          bind-Codes _ (u32-Codes m.ntime h.ntime_fits)
            (bind-Codes _ (u32-Codes m.version h.version_fits) (pure-Codes m))))))

unfoldable pub layout_submit_shares_extended : SubmitSharesExtended → Writer → Writer
layout_submit_shares_extended m w =
    let w1 = write_u32 w m.channel_id in
    let w2 = write_u32 w1 m.sequence_number in
    let w3 = write_u32 w2 m.job_id in
    let w4 = write_u32 w3 m.nonce in
    let w5 = write_u32 w4 m.ntime in let w6 = write_u32 w5 m.version in write_b0_32 w6 m.extranonce

-- The fields fit their types on the wire.
pub record FitsSubmitSharesExtended (m : SubmitSharesExtended) : Type 0 where
  pub channel_id_fits : IsU32 m.channel_id
  pub sequence_number_fits : IsU32 m.sequence_number
  pub job_id_fits : IsU32 m.job_id
  pub nonce_fits : IsU32 m.nonce
  pub ntime_fits : IsU32 m.ntime
  pub version_fits : IsU32 m.version
  pub extranonce_fits : length m.extranonce ≤ 32

pub submit_shares_extended-Codes :
    (m : SubmitSharesExtended)
    → FitsSubmitSharesExtended m
    → Codes deserialize_submit_shares_extended (layout_submit_shares_extended m) m
unfolding deserialize_submit_shares_extended layout_submit_shares_extended
submit_shares_extended-Codes m h = bind-Codes _ (u32-Codes m.channel_id h.channel_id_fits) (
    bind-Codes _ (u32-Codes m.sequence_number h.sequence_number_fits) (
      bind-Codes _ (u32-Codes m.job_id h.job_id_fits) (
        bind-Codes _ (u32-Codes m.nonce h.nonce_fits) (
          bind-Codes _ (u32-Codes m.ntime h.ntime_fits) (
            bind-Codes _ (u32-Codes m.version h.version_fits)
              (bind-Codes _ (b0_32-Codes_fits m.extranonce h.extranonce_fits) (pure-Codes m)))))))

unfoldable pub layout_set_custom_mining_job : SetCustomMiningJob → Writer → Writer
layout_set_custom_mining_job m w =
    let w1 = write_u32 w m.channel_id in
    let w2 = write_u32 w1 m.request_id in
    let w3 = write_b0_255 w2 m.mining_job_token in
    let w4 = write_u32 w3 m.version in
    let w5 = write_u256 w4 m.prev_hash in
    let w6 = write_u32 w5 m.min_ntime in
    let w7 = write_u32 w6 m.nbits in
    let w8 = write_u32 w7 m.coinbase_tx_version in
    let w9 = write_b0_255 w8 m.coinbase_prefix in
    let w10 = write_u32 w9 m.coinbase_tx_input_n_sequence in
    let w11 = write_b0_64k w10 m.coinbase_tx_outputs in
    let w12 = write_u32 w11 m.coinbase_tx_locktime in write_seq0_255_u256 w12 m.merkle_path

-- The fields fit their types on the wire.
pub record FitsSetCustomMiningJob (m : SetCustomMiningJob) : Type 0 where
  pub channel_id_fits : IsU32 m.channel_id
  pub request_id_fits : IsU32 m.request_id
  pub mining_job_token_fits : length m.mining_job_token ≤ 255
  pub version_fits : IsU32 m.version
  pub prev_hash_fits : IsU256 m.prev_hash
  pub min_ntime_fits : IsU32 m.min_ntime
  pub nbits_fits : IsU32 m.nbits
  pub coinbase_tx_version_fits : IsU32 m.coinbase_tx_version
  pub coinbase_prefix_fits : length m.coinbase_prefix ≤ 255
  pub coinbase_tx_input_n_sequence_fits : IsU32 m.coinbase_tx_input_n_sequence
  pub coinbase_tx_outputs_fits : length m.coinbase_tx_outputs ≤ 65535
  pub coinbase_tx_locktime_fits : IsU32 m.coinbase_tx_locktime
  pub merkle_path_fits : All IsU256 m.merkle_path × (length m.merkle_path ≤ 255)

pub set_custom_mining_job-Codes :
    (m : SetCustomMiningJob)
    → FitsSetCustomMiningJob m
    → Codes deserialize_set_custom_mining_job (layout_set_custom_mining_job m) m
unfolding deserialize_set_custom_mining_job layout_set_custom_mining_job
set_custom_mining_job-Codes m h = bind-Codes _ (u32-Codes m.channel_id h.channel_id_fits) (
    bind-Codes _ (u32-Codes m.request_id h.request_id_fits) (
      bind-Codes _ (b0_255-Codes_fits m.mining_job_token h.mining_job_token_fits) (
        bind-Codes _ (u32-Codes m.version h.version_fits) (
          bind-Codes _ (u256-Codes m.prev_hash h.prev_hash_fits) (
            bind-Codes _ (u32-Codes m.min_ntime h.min_ntime_fits) (
              bind-Codes _ (u32-Codes m.nbits h.nbits_fits) (
                bind-Codes _ (u32-Codes m.coinbase_tx_version h.coinbase_tx_version_fits) (
                  bind-Codes _ (b0_255-Codes_fits m.coinbase_prefix h.coinbase_prefix_fits) (
                    bind-Codes _
                      (u32-Codes m.coinbase_tx_input_n_sequence h.coinbase_tx_input_n_sequence_fits)
                      (bind-Codes _
                        (b0_64k-Codes_fits m.coinbase_tx_outputs h.coinbase_tx_outputs_fits)
                        (bind-Codes _ (u32-Codes m.coinbase_tx_locktime h.coinbase_tx_locktime_fits)
                          (bind-Codes _
                            (seq0_255_u256-Codes m.merkle_path h.merkle_path_fits.0
                              h.merkle_path_fits.1)
                            (pure-Codes m)))))))))))))
