-- ===== src/Stratifier.antt =====
-- The current work and the shares of the round: yumtech/mkpool-src/src/stratifier.hpp and
-- stratifier.cpp. A method is one step, as a mutex is held for it. `publish` is the end of `updateWork`,
-- which runs on one thread; its locks are taken in turn, and the new job is visible only behind them.
use yumtech_umbrel_apps.Prelude.{
  ℕ, Bool, true, false, ◌||◌, not, List, [], ◌∷◌, Option, length, ltb, if◌then◌else◌,
}
use yumtech_umbrel_apps.Prelude.Texts.{Text, text_eq}
use yumtech_umbrel_apps.Reals.{Reals}
use yumtech_umbrel_apps.JobWindow
use yumtech_umbrel_apps.JobWindow.{JobWindow}

pub record MiningJob (D : Type 0) : Type 0 where
  pub job_id : Text
  pub previousblockhash : Text
  pub coinbase1 : Text
  pub merkle_branch_le : List Text
  pub version : ℕ
  pub bits : Text
  pub curtime : ℕ
  pub mintime : ℕ
  pub clean_jobs : Bool
  -- The 64 bits of the signed value, as those of the other values.
  pub coinbase_value : ℕ
  pub height : ℕ
  pub witness_commitment : Text
  pub reserved : Text
  pub zcash_merkle_root_le : Text
  pub zcash_full_coinbase_hex : Text
  pub segwit_active : Bool
  pub donation_percent : D
  pub donation_address : Text
  pub miner_fund_address : Text
  pub miner_fund_value : ℕ
  pub staking_rewards_script : Text
  pub staking_rewards_value : ℕ
  pub rtt_present : Bool
  pub rtt_prevheadertime : List ℕ
  pub rtt_prevbits : ℕ
  pub tx_hexes : List Text
  pub aux_enabled : Bool
  pub aux_version : ℕ
  pub aux_prevhash : Text
  pub aux_bits : Text
  pub aux_curtime : ℕ
  pub aux_height : ℕ
  pub aux_coinbasevalue : ℕ
  pub aux_target : Text
  pub mweb : Text
  pub ipc_handle : ℕ

pub record Stratifier (D : Type 0) : Type 0 where
  pub jobs : JobWindow (MiningJob D)
  pub last_prevhash : Text
  pub version_mask : ℕ
  pub best_share_round : D
  pub seen_shares : List Text

-- Is the text in the set?
unfoldable pub contains : Text → List Text → Bool
contains t [] = false
contains t (s ∷ ss) = text_eq s t || contains t ss

-- `insert(...).second`.
unfoldable pub insert_new : Text → List Text → List Text × Bool
insert_new t seen = if contains t seen then (seen, false) else (t ∷ seen, true)

abbrev pub share_cap : ℕ
share_cap = 1_000_000

-- The table before the insertion.
unfoldable pub capped : List Text → List Text
capped seen = if ltb share_cap (length seen) then [] else seen

module _ {D : Type 0} where
  unfoldable pub latest_job : Stratifier D → Option (MiningJob D)
  unfolding JobWindow.latest
  latest_job s = JobWindow.latest s.jobs

  unfoldable pub find_job : Text → Stratifier D → Option (MiningJob D)
  unfolding JobWindow.find
  find_job id s = JobWindow.find id s.jobs

  unfoldable pub register_share : Text → Stratifier D → Stratifier D × Bool
  unfolding insert_new capped
  register_share fingerprint s =
      let r = insert_new fingerprint (capped s.seen_shares) in (record s { seen_shares = r.0 }, r.1)

  -- The loop ends with the greater of the two: no other thread writes during a step.
  unfoldable pub note_share_diff : Reals D → D → Stratifier D → Stratifier D
  note_share_diff real d s =
      if real.lt (real.of_nat 0) d
      then (if real.lt s.best_share_round d then record s { best_share_round = d } else s)
      else s

  -- The end of `updateWork`: a new block clears the shares of the round, and the job is pushed.
  unfoldable pub publish : Reals D → MiningJob D → Stratifier D → Stratifier D
  unfolding JobWindow.push
  publish real mj s =
      let clean = not (text_eq mj.previousblockhash s.last_prevhash) in
      record s {
        jobs = JobWindow.push mj.job_id (record mj { clean_jobs = clean }) s.jobs;
        last_prevhash = mj.previousblockhash;
        seen_shares = if clean then [] else s.seen_shares;
        best_share_round = if clean then real.of_nat 0 else s.best_share_round;
      }
