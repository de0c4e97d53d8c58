-- ===== src/Session/Submit.antt =====
-- `handle_submit` of yumtech/mkpool-src/src/client_session.cpp, from the request to the hash of the
-- share: the checks of the job in their order, and the header. The child judges the share.
pub mod Judge
use yumtech_umbrel_apps.Prelude.{
  ℕ, zero, suc, ◌+◌, ◌-◌, ◌*◌, ◌%◌, ◌^◌, bit_and, bit_or, Bool, true, false, ◌&&◌, ◌||◌, not, List,
  [], ◌∷◌, ◌++◌, Option, none, some, length, get_elem?, drop, replicate, leb, ◌==◌, if◌then◌else◌,
}
pub use yumtech_umbrel_apps.Session.Requests.{
  Checked, passed, rejected, threw, ◌>>=◌, ◌>>◌, ensure, or_reject, or_throw, Fields,
}
unfoldable pub use yumtech_umbrel_apps.Session.Requests.{
  parse_hex_u32, split_worker, string_at, read_zcash, read_bitcoin, read_fields,
}
use mathlib.Core.List.{reverse}
use yumtech_umbrel_apps.Prelude.Texts.{Text, text_eq, codes}
use yumtech_umbrel_apps.Hex.{hex_to_bytes, bytes_to_hex, valid_hex, le_hex_u32}
use yumtech_umbrel_apps.Block.{
  byte_reverse_hex, build_block_header, rebuild_coinbase, compute_coinbase_txid_le,
  target_from_bits_hex, valid_ntime,
}
use yumtech_umbrel_apps.Merkle.{compute_root_le_hex}
use yumtech_umbrel_apps.RateLimiter.Maps.{lookup}
use yumtech_umbrel_apps.StratumProtocol.{Json, stoul, complement}
use yumtech_umbrel_apps.Stratifier.{MiningJob, Stratifier, find_job}
use yumtech_umbrel_apps.Session.{
  Bytes, Outside, Clock, Chain, Session, ZcashJob, World, is_zcash, uses_scrypt,
}
use yumtech_umbrel_apps.Session.Coinbase.{is_empty}
use yumtech_umbrel_apps.Session.Payouts.{build_session_coinbase2}
use yumtech_umbrel_apps.Session.Notify.{splice}
use yumtech_umbrel_apps.Session.Blocks.{at_most}

-- A share that was hashed.
pub record Share (D : Type 0) : Type 0 where
  pub fields : Fields
  pub job : MiningJob D
  pub stale_by_block : Bool
  pub version : ℕ
  pub header_hex : Text
  pub cb_hex : Text
  pub hash_be : Bytes
  pub net_target : Bytes

abbrev pub meets_network : {D : Type 0} → Share D → Bool
meets_network x = at_most x.hash_be x.net_target

-- The version of the header, from that of the job and the bits of the request.
unfoldable pub rolled_version : ℕ → ℕ → Option ℕ → Checked ℕ
rolled_version version mask none = passed version
rolled_version version mask (some bits) = do
  ensure (not (mask == 0)) 20 (codes "version-rolling not negotiated")
  passed (bit_or (bit_and version (complement mask)) (bit_and bits mask))

module _ {D : Type 0} (env : Outside D) where
  abbrev pub effective_mask : World D → ℕ
  effective_mask w =
      let s = w.session in
      if s.version_mask == 0 && s.coin.enable_version_rolling
      then w.stratifier.version_mask
      else s.version_mask

  -- The first part of the coinbase that the miner was sent, if it merge-mines.
  unfoldable pub active_coinbase1 : Session D → MiningJob D → Text → Text
  unfolding splice
  active_coinbase1 s job job_id =
      if is_empty s.aux_doge_address
      then job.coinbase1
      else (elim (lookup job_id s.session_aux_jobs) [
        | none ↦ job.coinbase1
        | some a ↦ splice job.coinbase1 a.aux_commit
      ])

  -- The coinbase and the merkle root.
  unfoldable pub coinbase_and_root : Session D → MiningJob D → Fields → Option (Text × Text)
  unfolding active_coinbase1
  coinbase_and_root s job f =
      if is_zcash s.coin.chain
      then (elim (lookup f.job_id s.zcash_jobs) [
        | some z ↦ some (z.coinbase_hex, z.merkle_root_le)
        | none ↦ some (job.zcash_full_coinbase_hex, job.zcash_merkle_root_le)
      ])
      else (let cb =
            rebuild_coinbase (active_coinbase1 s job f.job_id)
              (build_session_coinbase2 env s.coin.chain job s.worker_script_hex)
              (s.extranonce1 ++ f.nonce2) in
          elim (compute_coinbase_txid_le env.sha256 cb) [
            | none ↦ none
            | some txid ↦ (elim (compute_root_le_hex env.sha256 txid job.merkle_branch_le) [
              | none ↦ none
              | some root ↦ some (cb, root)
            ])
          ])

  unfoldable pub header_of : Chain → MiningJob D → Fields → ℕ → Text → Text → Text
  header_of chain job f version ntime root =
      if is_zcash chain
      then le_hex_u32 version
        ++ (byte_reverse_hex job.previousblockhash
            ++ (root
                ++ (byte_reverse_hex
                      (if is_empty job.reserved then replicate 64 b'0' else job.reserved)
                    ++ (byte_reverse_hex ntime ++ (byte_reverse_hex job.bits ++ f.nonce)))))
      else build_block_header (le_hex_u32 version) (byte_reverse_hex job.previousblockhash) root
          (byte_reverse_hex ntime) (byte_reverse_hex job.bits) (byte_reverse_hex f.nonce)

  -- The hash of the header, in the order of its bytes.
  unfoldable pub hash_of : Chain → Bytes → Text → Checked Bytes
  hash_of chain header solution =
      if is_zcash chain
      then (do
        sol ← or_throw (hex_to_bytes solution)
        ensure (env.verify_200_9 header sol) 20 (codes "invalid equihash solution")
        passed (env.sha256 (env.sha256 (header ++ (0xfd ∷ 0x40 ∷ 0x05 ∷ sol)))))
      else if uses_scrypt chain
      then passed (env.scrypt_1024_1_1_32 header)
      else passed (env.sha256 (env.sha256 header))

  -- A job that was found: its time, its version, the header and the hash.
  unfoldable pub hash_share : Clock → World D → Fields → MiningJob D → Checked (Share D)
  unfolding rolled_version coinbase_and_root header_of hash_of
  hash_share clock w f job = do
    let s = w.session
    let tip = w.stratifier.last_prevhash
    let stale = not (is_empty tip) && not (text_eq job.previousblockhash tip)
    let ntime = if is_zcash s.coin.chain then byte_reverse_hex f.ntime else f.ntime
    time ← or_reject (parse_hex_u32 ntime) 20 (codes "bad ntime")
    ensure (valid_ntime time job.mintime clock.now_unix 7200) 20 (codes "ntime out of range")
    version ← rolled_version job.version (effective_mask w) f.version_bits
    parts ← or_throw (coinbase_and_root s job f)
    let header_hex = header_of s.coin.chain job f version ntime parts.1
    header ← or_throw (hex_to_bytes header_hex)
    hash ← hash_of s.coin.chain header f.solution
    target ← or_throw (target_from_bits_hex job.bits)
    passed (record {
      fields = f;
      job = job;
      stale_by_block = stale;
      version = version;
      header_hex = header_hex;
      cb_hex = parts.0;
      hash_be = reverse hash;
      net_target = target;
    })

  unfoldable pub check_share :
      {J N : Type 0} → Json J N → Clock → World D → Option J → Checked (Share D)
  unfolding read_fields hash_share find_job
  check_share json clock w params = do
    f ← read_fields json w.session params
    job ← or_reject (find_job f.job_id w.stratifier) 21 (codes "job not found")
    hash_share clock w f job
