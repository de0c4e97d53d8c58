-- ===== src/Session/Payouts.antt =====
-- The second part of a session's coinbase, which pays the miner: `build_session_coinbase2` of
-- yumtech/mkpool-src/src/client_session.cpp.
use yumtech_umbrel_apps.Prelude.{
  ℕ, ◌+◌, Bool, ◌&&◌, not, List, [], ◌∷◌, ◌++◌, Option, none, some, if◌then◌else◌,
}
use yumtech_umbrel_apps.Prelude.Texts.{Text, codes}
use yumtech_umbrel_apps.Stratifier.{MiningJob}
use yumtech_umbrel_apps.Session.{Outside, Chain, is_e_cash, hex2}
use yumtech_umbrel_apps.Session.Coinbase.{
  minus, signed_lt, outputs_hex, is_empty, or_script, miner_fund_fallback, staking_fallback,
  script_of, percentage,
}

-- The commitment is written if the chain has one.
abbrev pub add_commit : {D : Type 0} → MiningJob D → Bool
add_commit job = job.segwit_active && not (is_empty job.witness_commitment)

module _ {D : Type 0} (env : Outside D) where
  unfoldable pub miner_fund_value : Chain → MiningJob D → ℕ
  unfolding percentage
  miner_fund_value chain job =
      if is_e_cash chain
      then (if signed_lt 0 job.miner_fund_value
          then job.miner_fund_value
          else percentage env job.coinbase_value (env.real.of_nat 32))
      else 0

  unfoldable pub miner_fund_script : MiningJob D → Text
  unfolding script_of
  miner_fund_script job =
      if is_empty job.miner_fund_address
      then miner_fund_fallback
      else (elim (script_of env job.miner_fund_address) [ some t ↦ t | none ↦ miner_fund_fallback ])

  unfoldable pub staking_reward_value : Chain → MiningJob D → ℕ
  unfolding percentage
  staking_reward_value chain job =
      if is_e_cash chain
      then (if signed_lt 0 job.staking_rewards_value
          then job.staking_rewards_value
          else percentage env job.coinbase_value (env.real.of_nat 10))
      else 0

  abbrev pub staking_reward_script : MiningJob D → Text
  staking_reward_script job = or_script job.staking_rewards_script staking_fallback

  unfoldable pub remaining_pool_value : Chain → MiningJob D → ℕ
  remaining_pool_value chain job =
      minus (minus job.coinbase_value (miner_fund_value chain job)) (staking_reward_value chain job)

  -- A donation of what remains, to a script that an address may have.
  unfoldable pub donation_to : ℕ → ℕ → Option Text → ℕ × Text
  donation_to remaining donation none = (0, [])
  donation_to remaining donation (some t) =
      if signed_lt remaining donation then (0, []) else (donation, t)

  -- The donation and its script.
  unfoldable pub donation_of : ℕ → MiningJob D → ℕ × Text
  unfolding percentage script_of donation_to
  donation_of remaining job =
      if env.real.lt (env.real.of_nat 0) job.donation_percent && not (is_empty job.donation_address)
      then donation_to remaining (percentage env remaining job.donation_percent)
          (script_of env job.donation_address)
      else (0, [])

  abbrev pub one_or_two : ℕ → ℕ
  one_or_two donation = if signed_lt 0 donation then 2 else 1

  -- `outputs`, the number that is written.
  unfoldable pub output_count : Chain → MiningJob D → ℕ → ℕ
  output_count chain job donation =
      if is_e_cash chain
      then one_or_two donation + 2
      else one_or_two donation + (if add_commit job then 1 else 0)

  -- The outputs that are written.
  unfoldable pub session_outputs : Chain → MiningJob D → Text → List (ℕ × Text)
  unfolding donation_of remaining_pool_value
  session_outputs chain job miner_script =
      let remaining = remaining_pool_value chain job in
      let d = donation_of remaining job in
      (minus remaining d.0, miner_script)
      ∷ ((if signed_lt 0 d.0 && not (is_empty d.1) then d ∷ [] else [])
          ++ ((if is_e_cash chain
                then (miner_fund_value chain job, miner_fund_script job)
                  ∷ (staking_reward_value chain job, staking_reward_script job)
                  ∷ []
                else [])
              ++ (if add_commit job then (0, job.witness_commitment) ∷ [] else [])))

  unfoldable pub build_session_coinbase2 : Chain → MiningJob D → Text → Text
  unfolding session_outputs output_count outputs_hex
  build_session_coinbase2 chain job miner_script =
      let d = donation_of (remaining_pool_value chain job) job in
      if is_empty miner_script
      then []
      else codes "ffffffff"
        ++ (hex2 (output_count chain job d.0)
            ++ (outputs_hex (session_outputs chain job miner_script) ++ codes "00000000"))
