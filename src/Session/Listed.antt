-- ===== src/Session/Listed.antt =====
-- The outputs of a session's coinbase by their kinds: what they pay, and how many they are.
use yumtech_umbrel_apps.Prelude.{
  ℕ, ◌+◌, ◌≡◌, refl, inl, inr, Bool, true, false, ◌&&◌, not, List, [], ◌∷◌, ◌++◌, Option, none,
  some, Bool-cases, if◌then◌else◌, length, arith,
}
use yumtech_umbrel_apps.Prelude.Texts.{Text}
use yumtech_umbrel_apps.Address.{
  AddressType, Decoded, script_pubkey_hex, Expected, expected, unexpected, p2pkh, p2sh, p2wpkh,
  p2wsh, p2tr, bch_p2pkh, bch_p2sh,
}
use yumtech_umbrel_apps.Hex.Reading.{some_inj}
use yumtech_umbrel_apps.Address.Decoder.{decode}
use yumtech_umbrel_apps.Stratifier.{MiningJob}
use yumtech_umbrel_apps.Session.{Outside, Chain, is_e_cash}
use yumtech_umbrel_apps.Session.Coinbase.{minus, signed_lt, is_empty, script_of, percentage}
use yumtech_umbrel_apps.Session.Payouts.{
  add_commit, miner_fund_value, staking_reward_value, remaining_pool_value, donation_to,
  donation_of, miner_fund_script, staking_reward_script, session_outputs,
}

-- What the outputs pay.
unfoldable pub total : List (ℕ × Text) → ℕ
total [] = 0
total ((value, spk) ∷ outs) = value + total outs

script_pubkey_hex-filled : (d : Decoded) → is_empty (script_pubkey_hex d) ≡ false
unfolding script_pubkey_hex
script_pubkey_hex-filled d = filled d.kind
  where
    filled : (k : AddressType) → is_empty (script_pubkey_hex (record d { kind = k })) ≡ false
    filled p2pkh = refl
    filled p2sh = refl
    filled p2wpkh = refl
    filled p2wsh = refl
    filled p2tr = refl
    filled bch_p2pkh = refl
    filled bch_p2sh = refl

-- The outputs of the four kinds, in their order.
abbrev listed :
    Bool → Bool → Bool → ℕ × Text → ℕ × Text → ℕ × Text → ℕ × Text → ℕ × Text → List (ℕ × Text)
listed donates funds commits miner donation fund staking commit =
    miner
    ∷ ((if donates then donation ∷ [] else [])
        ++ ((if funds then fund ∷ staking ∷ [] else []) ++ (if commits then commit ∷ [] else [])))

pub total-listed :
    (donates funds commits : Bool) (miner donation fund staking commit : ℕ × Text)
    → total (listed donates funds commits miner donation fund staking commit)
      ≡ miner.0
        + (if donates then donation.0 else 0)
        + (if funds then fund.0 + staking.0 else 0)
        + (if commits then commit.0 else 0)
unfolding total
total-listed true true true m d f s c = omega arith
total-listed true true false m d f s c = omega arith
total-listed true false true m d f s c = omega arith
total-listed true false false m d f s c = omega arith
total-listed false true true m d f s c = omega arith
total-listed false true false m d f s c = omega arith
total-listed false false true m d f s c = omega arith
total-listed false false false m d f s c = omega arith

pub length-listed :
    (donates funds commits : Bool) (miner donation fund staking commit : ℕ × Text)
    → (funds && commits) ≡ false
    → length (listed donates funds commits miner donation fund staking commit) ≡ (
        if funds
        then (if donates then 2 else 1) + 2
        else (if donates then 2 else 1) + (if commits then 1 else 0))
length-listed true true true m d f s c h = cc
length-listed false true true m d f s c h = cc
length-listed true true false m d f s c h = refl
length-listed true false true m d f s c h = refl
length-listed true false false m d f s c h = refl
length-listed false true false m d f s c h = refl
length-listed false false true m d f s c h = refl
length-listed false false false m d f s c h = refl

module _ {D : Type 0} (env : Outside D) where
  script_of-filled : (a t : Text) → script_of env a ≡ some t → is_empty t ≡ false
  unfolding script_of
  script_of-filled a t e = filled (decode (λ d. some (env.sha256 d)) a) e
    where
      filled :
          (r : Expected Decoded)
          → (elim r [ expected d ↦ some (script_pubkey_hex d) | unexpected u ↦ none ]) ≡ some t
          → is_empty t ≡ false
      filled (expected d) e = rw (← some_inj _ _ e) (script_pubkey_hex-filled d)
      filled (unexpected u) e = cc

  -- If it is paid, it has a script.
  abbrev HasScript : ℕ × Text → Type 0
  HasScript d = signed_lt 0 d.0 ≡ true → is_empty d.1 ≡ false

  if-HasScript :
      (b : Bool) (d e : ℕ × Text) → HasScript d → HasScript e → HasScript (if b then d else e)
  if-HasScript true d e h k = h
  if-HasScript false d e h k = k

  no_donation : HasScript (0, [])
  no_donation e = cc

  donation_to-HasScript :
      (remaining donation : ℕ) (o : Option Text)
      → ((t : Text) → o ≡ some t → is_empty t ≡ false)
      → HasScript (donation_to env remaining donation o)
  unfolding donation_to
  donation_to-HasScript remaining donation none filled = no_donation
  donation_to-HasScript remaining donation (some t) filled =
      if-HasScript (signed_lt remaining donation) (0, []) (donation, t) no_donation
        (λ e. filled t refl)

  donation_of-HasScript :
      (remaining : ℕ) (job : MiningJob D) → HasScript (donation_of env remaining job)
  unfolding donation_of
  donation_of-HasScript remaining job =
      if-HasScript _ _ (0, [])
        (donation_to-HasScript remaining (percentage env remaining job.donation_percent)
          (script_of env job.donation_address) (script_of-filled job.donation_address))
        no_donation

  -- The outputs of a job, by their kinds.
  abbrev pub outputs_of : Chain → MiningJob D → Text → ℕ × Text → List (ℕ × Text)
  outputs_of chain job miner_script d =
      listed (signed_lt 0 d.0) (is_e_cash chain) (add_commit job)
        (minus (remaining_pool_value env chain job) d.0, miner_script) d
        (miner_fund_value env chain job, miner_fund_script env job)
        (staking_reward_value env chain job, staking_reward_script env job)
        (0, job.witness_commitment)

  pub session_outputs-listed :
      (chain : Chain) (job : MiningJob D) (miner_script : Text)
      → session_outputs env chain job miner_script
        ≡ outputs_of chain job miner_script
            (donation_of env (remaining_pool_value env chain job) job)
  unfolding session_outputs
  session_outputs-listed chain job miner_script =
      paid (donation_of env (remaining_pool_value env chain job) job)
        (donation_of-HasScript (remaining_pool_value env chain job) job)
    where
      paid :
          (d : ℕ × Text)
          → HasScript d
          → (minus (remaining_pool_value env chain job) d.0, miner_script)
              ∷ ((if signed_lt 0 d.0 && not (is_empty d.1) then d ∷ [] else [])
                  ++ ((if is_e_cash chain
                        then (miner_fund_value env chain job, miner_fund_script env job)
                          ∷ (staking_reward_value env chain job, staking_reward_script env job)
                          ∷ []
                        else [])
                      ++ (if add_commit job then (0, job.witness_commitment) ∷ [] else [])))
            ≡ outputs_of chain job miner_script d
      paid d h = elim (Bool-cases (signed_lt 0 d.0)) [
        | inr unpaid ↦ rw unpaid refl
        | inl is_paid ↦ rw (is_paid, h is_paid) refl
      ]
