-- ===== src/Tests/Payouts.antt =====
-- Notifications and coinbases at concrete inputs.
use yumtech_umbrel_apps.RateLimiter.Maps.{lookup, insert}
use yumtech_umbrel_apps.Block.{
  byte_reverse_hex, compute_coinbase_txid_le, encode_bip34_height, height_bytes, height_payload,
}
use yumtech_umbrel_apps.Address.Bech32.{segwit_decode}
use yumtech_umbrel_apps.Address.CashAddr.{find_colon}
use yumtech_umbrel_apps.Address.Decoder.{decode, looks_like, try_bech, witness_result, witness_type}
use yumtech_umbrel_apps.Prelude.{
  ℕ, ◌-◌, ◌%◌, ◌^◌, ◌≡◌, refl, ap, false, true, List, [], ◌∷◌, ◌++◌, Option, none, some, length,
  drop, replicate, arith,
}
use yumtech_umbrel_apps.Prelude.Texts.{Text, codes, text_eq}
use yumtech_umbrel_apps.Hex.{
  bytes_to_hex, hex_digit, hex_nibble, hex_to_bytes, le_hex_u32, le_hex_u64,
}
use yumtech_umbrel_apps.Stratifier.{MiningJob}
use yumtech_umbrel_apps.Merkle.{compute_root_le_hex}
use yumtech_umbrel_apps.Merkle.{root_loop}
use yumtech_umbrel_apps.Merkle.{hash_of_hex}
use yumtech_umbrel_apps.Block.{reverse_pairs}
use yumtech_umbrel_apps.Block.{rebuild_coinbase}
use yumtech_umbrel_apps.Hex.{put_le}
use yumtech_umbrel_apps.Hex.{hex_pairs}
use yumtech_umbrel_apps.Session.{
  World, SessionAuxJob, is_zcash, hex2, bitcoin, is_e_cash, two_digits,
}
use yumtech_umbrel_apps.Session.Coinbase.{outputs_hex, signed_lt, build_session_aux}
use yumtech_umbrel_apps.Session.Payouts.{
  build_session_coinbase2, donation_of, remaining_pool_value, miner_fund_value,
  staking_reward_value,
}
use yumtech_umbrel_apps.Session.Notify.{emit_job, notify_new_job}
use yumtech_umbrel_apps.Session.Submit.{Fields, active_coinbase1, coinbase_and_root}
use yumtech_umbrel_apps.Session.Coinbases.{mined, Told, notify_new_job-Agrees, emit_job-unspliced}
use yumtech_umbrel_apps.Session.Listed.{total}
use yumtech_umbrel_apps.Session.Outputs.{build_session_coinbase2-pays}
use yumtech_umbrel_apps.Tests.Miner.{outside, job, session, world, lucky}

-- A job with a donation of two percent.
abbrev donating : MiningJob ℕ
donating = record job { donation_address = codes "bc1qw508d6qejxtdg4y5r3zarvary0c5xw7kv8f3t4" }

hundred : (donation_of outside (remaining_pool_value outside bitcoin donating) donating).0 ≡ 100
unfolding donation_of decode find_colon try_bech looks_like witness_result segwit_decode text_eq
    witness_type remaining_pool_value miner_fund_value is_e_cash staking_reward_value
hundred = refl

not_negative :
    signed_lt (donation_of outside (remaining_pool_value outside bitcoin donating) donating).0 0
    ≡ false
not_negative = rw hundred refl

build_session_coinbase2-pays_example :
    (outs : List (ℕ × Text)) × (build_session_coinbase2 outside bitcoin donating (codes "51")
      ≡ codes "ffffffff" ++ (hex2 (length outs) ++ (outputs_hex outs ++ codes "00000000")))
    × (total outs % 2 ^ 64 ≡ 5000)
unfolding is_e_cash
build_session_coinbase2-pays_example =
    build_session_coinbase2-pays outside (λ x. omega arith) bitcoin donating (codes "51") refl refl
      (omega arith) (omega arith) not_negative

abbrev or_world : Option (World ℕ) → World ℕ
or_world none = world
or_world (some w) = w

abbrev told : World ℕ
told = or_world (notify_new_job outside job world)

abbrev fields : Fields
fields = record {
  worker = codes "someone.rig";
  job_id = codes "0000002a";
  nonce2 = codes "00000005";
  ntime = codes "65000000";
  nonce = codes "00000009";
  solution = [];
  version_bits = none;
}

abbrev coinbase : Text
coinbase =
    mined outside told.session fields (active_coinbase1 outside told.session job job.job_id)
      (build_session_coinbase2 outside bitcoin job session.worker_script_hex)

is_told : notify_new_job outside job world ≡ some told
unfolding notify_new_job build_session_aux encode_bip34_height bytes_to_hex height_payload
    height_bytes compute_coinbase_txid_le hex_to_bytes two_digits le_hex_u64 hex_nibble hex_digit
    le_hex_u32 byte_reverse_hex
is_told = refl

is_made :
    coinbase_and_root outside told.session job fields ≡ some (coinbase, bytes_to_hex (lucky []))
unfolding coinbase_and_root is_zcash notify_new_job build_session_aux encode_bip34_height
    bytes_to_hex height_payload height_bytes compute_coinbase_txid_le hex_to_bytes two_digits
    le_hex_u64 hex_nibble hex_digit le_hex_u32 byte_reverse_hex text_eq active_coinbase1 lookup
    compute_root_le_hex hash_of_hex root_loop hex_pairs reverse_pairs put_le rebuild_coinbase
    build_session_coinbase2 miner_fund_value staking_reward_value insert is_e_cash
is_made = refl

notify_new_job-Agrees_example :
    (cb1 : Text) × (cb2 : Text) × Told outside world told job cb1 cb2
    × (coinbase ≡ mined outside told.session fields cb1 cb2)
unfolding is_zcash lookup
notify_new_job-Agrees_example =
    notify_new_job-Agrees outside job world told fields coinbase (bytes_to_hex (lucky [])) refl refl
      refl refl is_told refl is_made

-- The session's own commitment for the job.
abbrev own_work : SessionAuxJob
own_work = record {
  aux_target = replicate 64 b'f';
  aux_commit = replicate 88 b'9';
  doge_coinbase = [];
  doge_header = [];
  doge_block_hash = [];
  aux_height = 9;
  aux_value = 700;
}

abbrev merging : World ℕ
merging = record world {
  session = record session { session_aux_jobs = (job.job_id, own_work) ∷ [] };
}

false_not_true : ¬ false ≡ true
false_not_true e = cc

other_commitment : ¬ drop (length job.coinbase1 - 88) job.coinbase1 ≡ own_work.aux_commit
unfolding text_eq
other_commitment e = false_not_true (ap (λ t. text_eq t own_work.aux_commit) e)

emit_job-unspliced_example :
    ((cb2 : Text) × Told outside merging (emit_job outside job true merging) job job.coinbase1 cb2)
    × ¬ active_coinbase1 outside merging.session job job.job_id ≡ job.coinbase1
unfolding is_zcash lookup text_eq
emit_job-unspliced_example =
    emit_job-unspliced outside job true merging own_work refl refl refl (omega arith)
      other_commitment
