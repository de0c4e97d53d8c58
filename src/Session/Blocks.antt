-- ===== src/Session/Blocks.antt =====
-- Blocks that a share solves: `submit_block_candidate`, `maybe_submit_aux_block` and
-- `ipc_submit_best_effort` of yumtech/mkpool-src/src/client_session.cpp, up to the calls of the nodes.
-- What the nodes answer comes later and changes the database only.
use yumtech_umbrel_apps.Prelude.{
  ℕ, Bool, true, false, ◌&&◌, ◌||◌, not, List, [], ◌∷◌, ◌++◌, Option, none, some, length, ltb, ◌==◌,
  if◌then◌else◌,
}
use yumtech_umbrel_apps.Prelude.Texts.{Text, codes}
use yumtech_umbrel_apps.Hex.{◌>>=◌, hex_to_bytes}
use yumtech_umbrel_apps.Block.{assemble_full_block, compute_coinbase_txid_le, join}
use yumtech_umbrel_apps.RateLimiter.Maps.{lookup}
use yumtech_umbrel_apps.Stratifier.{MiningJob, contains}
use yumtech_umbrel_apps.Session.{
  Bytes, Outside, Clock, Session, SessionAuxJob, World, ipc_submit, submit_block, submit_aux_block,
  emit, is_zcash, is_e_cash, hex2,
}
use yumtech_umbrel_apps.Session.Coinbase.{is_empty, segwitify_coinbase}

-- `le_byte_cmp(a, b) <= 0`, on big-endian numbers of the same length.
unfoldable pub at_most : Bytes → Bytes → Bool
at_most [] bs = true
at_most (a ∷ as') [] = true
at_most (a ∷ as') (b ∷ bs) = if a == b then at_most as' bs else ltb a b

-- What a share is when its block is looked at.
pub record Solved (D : Type 0) : Type 0 where
  pub job : MiningJob D
  pub job_id : Text
  pub header_hex : Text
  pub cb_hex : Text
  pub solution : Text
  pub hash_be : Bytes
  pub block_hash_hex : Text
  pub share_diff : D

module _ {D : Type 0} (env : Outside D) where
  -- The guard of eCash. A hash that is no hexadecimal text would throw; it is made by `bytes_to_hex`.
  unfoldable pub withheld : Clock → Session D → Solved D → Bool
  withheld clock s x =
      is_e_cash s.coin.chain && x.job.rtt_present && (elim (hex_to_bytes x.block_hash_hex) [
        | none ↦ false
        | some hb ↦
            length hb == 32
            && not (env.ecash_rtt_ok x.job.rtt_prevheadertime x.job.rtt_prevbits clock.now_unix hb)
      ])

  abbrev pub cb_for_block : Solved D → Text
  cb_for_block x = if x.job.segwit_active then segwitify_coinbase x.cb_hex else x.cb_hex

  unfoldable pub full_block_of : Session D → Solved D → Text
  unfolding assemble_full_block
  full_block_of s x =
      let header =
        if is_zcash s.coin.chain
        then x.header_hex ++ (codes "fd4005" ++ x.solution)
        else x.header_hex in
      assemble_full_block header (cb_for_block x) x.job.tx_hexes
      ++ (if is_empty x.job.mweb then [] else codes "01" ++ x.job.mweb)

  -- The call of the node's IPC, which does nothing without a handle.
  unfoldable pub ipc_submit_best_effort : ℕ → Text → Text → World D → World D
  ipc_submit_best_effort handle header coinbase w =
      if handle == 0 || ltb (length header) 160
      then w
      else emit (ipc_submit handle header coinbase) w

  unfoldable pub submit_block_candidate : Clock → Solved D → World D → World D
  unfolding withheld full_block_of ipc_submit_best_effort
  submit_block_candidate clock x w =
      if withheld clock w.session x
      then w
      else emit (submit_block (full_block_of w.session x) x.block_hash_hex)
          (ipc_submit_best_effort x.job.ipc_handle x.header_hex (cb_for_block x) w)

  -- The work of the merge-mined chain for a share's job, if it has any.
  unfoldable pub aux_job_for : Session D → Solved D → Option SessionAuxJob
  aux_job_for s x =
      if x.job.aux_enabled && not (is_empty s.aux_doge_address)
      then lookup x.job_id s.session_aux_jobs
      else none

  unfoldable pub doge_block : Solved D → SessionAuxJob → Option Text
  unfolding join
  doge_block x saj = do
    parent_hash ← compute_coinbase_txid_le env.sha256 x.header_hex
    some (
        saj.doge_header
        ++ (x.cb_hex
            ++ (parent_hash
                ++ (hex2 (length x.job.merkle_branch_le)
                    ++ (join x.job.merkle_branch_le
                        ++ (codes "000000000000000000"
                            ++ (x.header_hex ++ (codes "01" ++ saj.doge_coinbase))))))))

  -- The set of submitted blocks, cleared before it grows beyond 513.
  unfoldable pub remember : Text → List Text → List Text
  remember h seen = if ltb 512 (length seen) then h ∷ [] else h ∷ seen

  unfoldable pub submit_aux : Solved D → SessionAuxJob → Text → World D → World D
  unfolding remember contains
  submit_aux x saj block w =
      if contains saj.doge_block_hash w.session.doge_submitted
      then w
      else emit (submit_aux_block block saj.doge_block_hash) (record w {
        session = record w.session {
          doge_submitted = remember saj.doge_block_hash w.session.doge_submitted;
        };
      })

  -- The block is submitted if the hash meets the target. `none` is an exception.
  unfoldable pub against_target : Solved D → SessionAuxJob → Bytes → World D → Option (World D)
  unfolding doge_block submit_aux at_most
  against_target x saj target w =
      if at_most x.hash_be target
      then (do block ← doge_block x saj; some (submit_aux x saj block w))
      else some w

  unfoldable pub with_aux_job : Solved D → Option SessionAuxJob → World D → Option (World D)
  unfolding against_target
  with_aux_job x none w = some w
  with_aux_job x (some saj) w =
      if not (length saj.aux_target == 64) || not w.session.has_aux_client
      then some w
      else (do target ← hex_to_bytes saj.aux_target; against_target x saj target w)

  -- An exception comes of a target that is no hexadecimal text; nothing is changed before it.
  unfoldable pub maybe_submit_aux_block : Solved D → World D → Option (World D)
  unfolding aux_job_for with_aux_job
  maybe_submit_aux_block x w = with_aux_job x (aux_job_for w.session x) w
