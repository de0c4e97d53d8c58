-- ===== src/Tests/Submits.antt =====
-- Submits and notifications of a session at concrete inputs.
use mathlib.Core.List.{reverse}
use yumtech_umbrel_apps.Prelude.{ℕ, ◌≡◌, refl, false, true, [], ◌++◌, some, replicate, arith}
use yumtech_umbrel_apps.Prelude.And.{bit}
use yumtech_umbrel_apps.Prelude.Texts.{Text, codes, text_eq}
use yumtech_umbrel_apps.Hex.{
  hex_digit, hex_nibble, hex_pairs, hex_to_bytes, bytes_to_hex, valid_hex, le_hex_u32, le_hex_u64,
  put_le,
}
use yumtech_umbrel_apps.Hex.Integers.{from_chars}
use yumtech_umbrel_apps.Block.{
  rebuild_coinbase, reverse_pairs, byte_reverse_hex, build_block_header, compute_coinbase_txid_le,
  put, put_mantissa, expand_target, target_from_bits_hex, valid_ntime,
}
use yumtech_umbrel_apps.Merkle.{hash_of_hex, root_loop, compute_root_le_hex}
use yumtech_umbrel_apps.StratumProtocol.{stoul}
use yumtech_umbrel_apps.JobWindow
use yumtech_umbrel_apps.Stratifier.{contains, find_job, register_share}
use yumtech_umbrel_apps.RateLimiter.Maps.{lookup}
use yumtech_umbrel_apps.Session.{is_zcash, uses_scrypt, is_e_cash, two_digits}
use yumtech_umbrel_apps.Session.Payouts.{
  build_session_coinbase2, miner_fund_value, staking_reward_value,
}
use yumtech_umbrel_apps.Session.Blocks.{at_most, withheld, maybe_submit_aux_block}
use yumtech_umbrel_apps.Session.Submit.{
  Share, Fields, check_share, passed, read_fields, read_bitcoin, string_at, split_worker,
  parse_hex_u32, rolled_version, coinbase_and_root, active_coinbase1, header_of, hash_of,
  hash_share, effective_mask, meets_network,
}
use yumtech_umbrel_apps.Session.Submit.Judge
use yumtech_umbrel_apps.Session.Counts.{handle_submit-answered, answered}
use yumtech_umbrel_apps.Session.Solves.{judge-submits, Sent, block_of, held_back}
use yumtech_umbrel_apps.Session.Stale.{judge-IsUncredited, IsUncredited}
use yumtech_umbrel_apps.Session.Rolled.{check_share-version}
use yumtech_umbrel_apps.Tests.Miner.{
  outside, clock, job, previous, session, world, lucky, json, submit,
}

abbrev fields : Fields
fields = record {
  worker = codes "someone.rig";
  job_id = codes "0000002a";
  nonce2 = codes "00000005";
  ntime = codes "65000000";
  nonce = codes "00000009";
  solution = [];
  version_bits = some 0x4000;
}

abbrev coinbase : Text
coinbase =
    rebuild_coinbase job.coinbase1
      (build_session_coinbase2 outside session.coin.chain job session.worker_script_hex)
      (codes "0000000100000005")

-- The share that is made of the submit.
abbrev pub share : Share ℕ
share = record {
  fields = fields;
  job = job;
  stale_by_block = false;
  version = 0x20004000;
  header_hex =
      build_block_header (le_hex_u32 0x20004000) previous (bytes_to_hex (lucky []))
        (codes "00000065") (codes "ffff001d") (codes "09000000");
  cb_hex = coinbase;
  hash_be = reverse (lucky []);
  net_target = replicate 4 0 ++ (replicate 2 255 ++ replicate 26 0);
}

checked : check_share outside json clock world submit ≡ passed share
unfolding check_share read_fields read_bitcoin string_at split_worker parse_hex_u32 stoul from_chars
    hex_nibble valid_hex text_eq find_job JobWindow.find hash_share rolled_version coinbase_and_root
    active_coinbase1 lookup compute_coinbase_txid_le compute_root_le_hex hash_of_hex root_loop
    hex_to_bytes hex_pairs header_of hash_of is_zcash uses_scrypt target_from_bits_hex expand_target
    put_mantissa put byte_reverse_hex reverse_pairs valid_ntime build_block_header le_hex_u32
    le_hex_u64 put_le bytes_to_hex rebuild_coinbase JobWindow.find_back build_session_coinbase2
    two_digits is_e_cash hex_digit miner_fund_value staking_reward_value
checked = refl

block_is_due : meets_network share ≡ true
unfolding at_most
block_is_due = refl

not_held : held_back outside clock session share ≡ false
unfolding withheld is_e_cash
not_held = refl

is_new : (Judge.register outside share world).1 ≡ true
unfolding register_share contains
is_new = refl

no_exception : (Judge.judge outside clock share world).1 ≡ false
unfolding Judge.judge is_zcash uses_scrypt contains maybe_submit_aux_block lookup
no_exception = refl

outside_of_the_mask : bit 29 (effective_mask outside world) ≡ 0
unfolding bit
outside_of_the_mask = refl

judge-submits_example :
    Sent (block_of outside session share) (Judge.judge outside clock share world).0.effects
judge-submits_example =
    judge-submits outside clock share world block_is_due not_held is_new no_exception

submit_no_exception : (Judge.handle_submit outside json clock submit world).1 ≡ false
unfolding Judge.handle_submit
submit_no_exception = rw checked no_exception

handle_submit-answered_example :
    answered (Judge.handle_submit outside json clock submit world).0 ≡ 1
handle_submit-answered_example =
    handle_submit-answered outside json clock submit world submit_no_exception

check_share-version_example : bit 29 share.version ≡ bit 29 job.version
check_share-version_example =
    check_share-version outside json clock world submit share 29 checked (omega arith) (omega arith)
      outside_of_the_mask

judge-IsUncredited_example :
    IsUncredited world (Judge.judge outside clock (record share { stale_by_block = true }) world).0
judge-IsUncredited_example =
    judge-IsUncredited outside clock (record share { stale_by_block = true }) world refl
