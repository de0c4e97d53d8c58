-- ===== src/Session/Outputs.antt =====
-- The outputs of a session's coinbase: how many are written, and what they pay in all.
use yumtech_umbrel_apps.Prelude.{
  ℕ, ◌+◌, ◌%◌, ◌^◌, ◌<◌, ◌≡◌, refl, sym, ap, ap₂, ◌∙◌, inl, inr, Bool, true, false, ◌&&◌, not, List,
  [], ◌++◌, Option, none, some, Bool-cases, if◌then◌else◌, length, ltb_false→le, arith,
}
use yumtech_umbrel_apps.Prelude.Texts.{Text, codes}
use yumtech_umbrel_apps.Stratifier.{MiningJob}
use yumtech_umbrel_apps.Session.{Outside, Chain, is_e_cash, hex2}
use yumtech_umbrel_apps.Session.Listed.{
  total, total-listed, length-listed, outputs_of, session_outputs-listed,
}
use yumtech_umbrel_apps.Session.Coinbase.{
  minus, signed_lt, outputs_hex, is_empty, script_of, percentage,
}
use yumtech_umbrel_apps.Session.Payouts.{
  add_commit, miner_fund_value, staking_reward_value, remaining_pool_value, donation_to,
  donation_of, miner_fund_script, staking_reward_script, output_count, build_session_coinbase2,
}

-- The parts and the miner's share make up the value, with signed numbers of 64 bits.
parts_sum :
    (donates funds commits : Bool) (value fund staking donation : ℕ)
    → fund < 2 ^ 64
    → staking < 2 ^ 64
    → donation < 2 ^ 64
    → (funds ≡ false → (fund ≡ 0) × (staking ≡ 0))
    → (donates ≡ false → donation ≡ 0)
    → (minus (minus (minus value fund) staking) donation
          + (if donates then donation else 0)
          + (if funds then fund + staking else 0)
          + (if commits then 0 else 0))
        % 2 ^ 64
      ≡ value % 2 ^ 64
parts_sum true true true v f s d hf hs hd nf nd = omega arith
parts_sum true true false v f s d hf hs hd nf nd = omega arith
parts_sum true false true v f s d hf hs hd nf nd = omega (arith, (nf refl).0, (nf refl).1)
parts_sum true false false v f s d hf hs hd nf nd = omega (arith, (nf refl).0, (nf refl).1)
parts_sum false true true v f s d hf hs hd nf nd = omega (arith, nd refl)
parts_sum false true false v f s d hf hs hd nf nd = omega (arith, nd refl)
parts_sum false false true v f s d hf hs hd nf nd = omega (arith, nd refl, (nf refl).0, (nf refl).1)
parts_sum false false false v f s d hf hs hd nf nd =
    omega (arith, nd refl, (nf refl).0, (nf refl).1)

not_signed : (d : ℕ) → d < 2 ^ 64 → signed_lt 0 d ≡ false → signed_lt d 0 ≡ false → d ≡ 0
not_signed d h p n = omega (arith, ltb_false→le _ _ p, ltb_false→le _ _ n)

if-word : (b : Bool) (m n : ℕ) → m < 2 ^ 64 → n < 2 ^ 64 → (if b then m else n) < 2 ^ 64
if-word true m n h k = h
if-word false m n h k = k

module _ {D : Type 0} (env : Outside D) (words : (x : D) → env.real.llround x < 2 ^ 64) where
  fund_parts :
      (chain : Chain) (job : MiningJob D)
      → job.miner_fund_value < 2 ^ 64
      → job.staking_rewards_value < 2 ^ 64
      → (miner_fund_value env chain job < 2 ^ 64)
        × (staking_reward_value env chain job < 2 ^ 64)
        × (is_e_cash chain ≡ false
            → (miner_fund_value env chain job ≡ 0) × (staking_reward_value env chain job ≡ 0))
  unfolding miner_fund_value staking_reward_value percentage
  fund_parts chain job hf hs =
      let value = job.coinbase_value in
      (
        if-word (is_e_cash chain) _ 0
            (if-word (signed_lt 0 job.miner_fund_value) job.miner_fund_value _ hf (words _))
            (omega arith),
        if-word (is_e_cash chain) _ 0
            (if-word (signed_lt 0 job.staking_rewards_value) job.staking_rewards_value _ hs
              (words _))
            (omega arith),
        λ other. (rw other refl, rw other refl),
      )

  donation_to-word :
      (remaining donation : ℕ) (o : Option Text)
      → donation < 2 ^ 64
      → (donation_to env remaining donation o).0 < 2 ^ 64
  unfolding donation_to
  donation_to-word remaining donation none h = omega arith
  donation_to-word remaining donation (some t) h =
      elim (Bool-cases (signed_lt remaining donation)) [
        | inl more ↦ rw more (omega arith)
        | inr at_most ↦ rw at_most h
      ]

  donation_of-word :
      (remaining : ℕ) (job : MiningJob D) → (donation_of env remaining job).0 < 2 ^ 64
  unfolding donation_of percentage
  donation_of-word remaining job =
      if_first (
        env.real.lt (env.real.of_nat 0) job.donation_percent && not (is_empty job.donation_address))
    where
      if_first :
          (b : Bool)
          → (if b
              then donation_to env remaining
                  (env.real.llround (
                    env.real.div
                      (env.real.mul (env.real.of_int64 remaining) job.donation_percent)
                      (env.real.of_nat 100)))
                  (script_of env job.donation_address)
              else (0, [])).0
            < 2 ^ 64
      if_first true = donation_to-word remaining _ (script_of env job.donation_address) (words _)
      if_first false = omega arith

  -- The second part of a coinbase has its outputs behind their number, for a miner with a script and a
  -- chain that does not have both the funds of eCash and a commitment. If the donation is not negative
  -- and the values have 64 bits, the outputs pay the value of the coinbase, up to multiples of 2^64.
  pub build_session_coinbase2-pays :
      (chain : Chain) (job : MiningJob D) (miner_script : Text)
      → is_empty miner_script ≡ false
      → (is_e_cash chain && add_commit job) ≡ false
      → job.miner_fund_value < 2 ^ 64
      → job.staking_rewards_value < 2 ^ 64
      → signed_lt (donation_of env (remaining_pool_value env chain job) job).0 0 ≡ false
      → (outs : List (ℕ × Text)) × (build_session_coinbase2 env chain job miner_script
          ≡ codes "ffffffff" ++ (hex2 (length outs) ++ (outputs_hex outs ++ codes "00000000")))
        × (total outs % 2 ^ 64 ≡ job.coinbase_value % 2 ^ 64)
  unfolding build_session_coinbase2 output_count remaining_pool_value
  build_session_coinbase2-pays chain job miner_script filled apart hf hs positive =
      let d = donation_of env (remaining_pool_value env chain job) job in
      let outs = outputs_of env chain job miner_script d in
      let (fund, staking, none_of_it) = fund_parts chain job hf hs in
      let small = donation_of-word (remaining_pool_value env chain job) job in
      (
        outs,
        rw filled (
            ap₂ (λ n os. codes "ffffffff" ++ (hex2 n ++ (outputs_hex os ++ codes "00000000")))
              (sym (
                length-listed (signed_lt 0 d.0) (is_e_cash chain) (add_commit job)
                  (minus (remaining_pool_value env chain job) d.0, miner_script) d
                  (miner_fund_value env chain job, miner_fund_script env job)
                  (staking_reward_value env chain job, staking_reward_script env job)
                  (0, job.witness_commitment) apart))
              (session_outputs-listed env chain job miner_script)),
        ap (λ n. n % 2 ^ 64)
              (total-listed (signed_lt 0 d.0) (is_e_cash chain) (add_commit job)
                (minus (remaining_pool_value env chain job) d.0, miner_script) d
                (miner_fund_value env chain job, miner_fund_script env job)
                (staking_reward_value env chain job, staking_reward_script env job)
                (0, job.witness_commitment))
            ∙ parts_sum (signed_lt 0 d.0) (is_e_cash chain) (add_commit job) job.coinbase_value
                (miner_fund_value env chain job) (staking_reward_value env chain job) d.0 fund
                staking small none_of_it (λ unpaid. not_signed d.0 small unpaid positive),
      )
