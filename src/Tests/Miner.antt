-- ===== src/Tests/Miner.antt =====
-- A miner's session for the tests: numbers for floating point, and a hash function of one value.
use yumtech_umbrel_apps.Prelude.{
  ℕ, ◌+◌, ◌-◌, ◌*◌, ◌/◌, ◌%◌, ◌^◌, true, false, List, [], ◌∷◌, Option, none, some, replicate, map,
  ltb, length, ◌==◌,
}
use yumtech_umbrel_apps.Prelude.Texts.{Text, codes}
use yumtech_umbrel_apps.Reals.{Reals}
use yumtech_umbrel_apps.RateLimiter.{RateLimiter}
use yumtech_umbrel_apps.StratumProtocol.{Json}
use yumtech_umbrel_apps.Stratifier.{MiningJob, Stratifier}
use yumtech_umbrel_apps.Vardiff.{VarDiff}
use yumtech_umbrel_apps.Session.{Bytes, Outside, Clock, CoinConfig, Session, World, bitcoin}

-- The whole numbers, with division that rounds down.
abbrev pub whole_numbers : Reals ℕ
whole_numbers = record {
  of_nat = λ n. n;
  of_int64 = λ n. n;
  ratio = λ n d. n / d;
  add = λ a b. a + b;
  sub = λ a b. a - b;
  mul = λ a b. a * b;
  div = λ a b. a / b;
  exp = λ a. a + 1;
  stod = λ t. some (length t);
  is_finite = λ a. true;
  round = λ a. a;
  llround = λ a. a % 2 ^ 64;
  lt = ltb;
  eq = λ a b. a == b;
}

-- A hash that meets every target but 0.
abbrev pub lucky : Bytes → Bytes
lucky d = 1 ∷ replicate 31 0

abbrev pub outside : Outside ℕ
outside = record {
  real = whole_numbers;
  sha256 = lucky;
  scrypt_1024_1_1_32 = lucky;
  verify_200_9 = λ h s. true;
  ecash_rtt_ok = λ ts b n h. true;
  redirected = λ j s. none;
}

abbrev pub clock : Clock
clock = record { now_unix = 0x65000000; now = 5_000_000_000 }

abbrev pub previous : Text
previous = replicate 64 b'a'

abbrev pub job : MiningJob ℕ
job = record {
  job_id = codes "0000002a";
  previousblockhash = previous;
  coinbase1 = replicate 100 b'0';
  merkle_branch_le = [];
  version = 0x20000000;
  bits = codes "1d00ffff";
  curtime = 0x65000000;
  mintime = 0;
  clean_jobs = false;
  coinbase_value = 5000;
  height = 7;
  witness_commitment = codes "6a";
  reserved = [];
  zcash_merkle_root_le = [];
  zcash_full_coinbase_hex = [];
  segwit_active = true;
  donation_percent = 2;
  donation_address = [];
  miner_fund_address = [];
  miner_fund_value = 0;
  staking_rewards_script = [];
  staking_rewards_value = 0;
  rtt_present = false;
  rtt_prevheadertime = [];
  rtt_prevbits = 0;
  tx_hexes = [];
  aux_enabled = true;
  aux_version = 4;
  aux_prevhash = replicate 64 b'b';
  aux_bits = codes "1d00ffff";
  aux_curtime = 0x65000000;
  aux_height = 9;
  aux_coinbasevalue = 700;
  aux_target = replicate 64 b'f';
  mweb = [];
  ipc_handle = 0;
}

abbrev pub stratifier : Stratifier ℕ
stratifier = record {
  jobs = record { items = (job.job_id, job) ∷ []; capacity = 8 };
  last_prevhash = previous;
  version_mask = 0x1fffe000;
  best_share_round = 0;
  seen_shares = [];
}

abbrev pub vardiff : VarDiff ℕ
vardiff = record {
  cfg = record { min_difficulty = 1; max_difficulty = 1000 };
  current_diff = 16;
  dsps1 = 5;
  dsps5 = 5;
  first_share = some 0;
  last_share = some 1_000_000_000;
  last_diff_change = some 0;
  ssdc = 100;
}

abbrev coin : CoinConfig ℕ
coin = record {
  chain = bitcoin;
  enable_version_rolling = true;
  vardiff_enabled = false;
  coinbase_signature = [];
  aux_donation_percent = 0;
  aux_donation_address = [];
  payout_address = [];
  allow_nicehash = false;
  vardiff_min = 1;
  vardiff_max = 1000;
}

abbrev pub session : Session ℕ
session = record {
  coin = coin;
  client_ip = codes "10.0.0.1";
  extranonce1 = codes "00000001";
  user_agent = [];
  worker_address = codes "someone";
  worker_name = codes "rig";
  worker_script_hex = codes "51";
  aux_doge_address = codes "other";
  doge_script_hex = codes "52";
  has_aux_client = true;
  miner_id = 3;
  subscribed = true;
  authorized = true;
  extranonce2_size = 4;
  version_rolling = false;
  version_mask = 0;
  vardiff = vardiff;
  last_difficulty = 16;
  last_difficulty_change = 0;
  has_custom_difficulty = false;
  shares_accepted = 0;
  shares_rejected = 0;
  closed = false;
  session_aux_jobs = [];
  doge_submitted = [];
  zcash_jobs = [];
}

abbrev limiter : RateLimiter
limiter = record {
  cfg = record {
    max_connections_per_ip = 16;
    accept_burst = 32;
    accept_refill_per_sec = 4;
    invalid_share_ban_threshold = 5;
    invalid_share_window = 60_000_000_000;
    ban_duration = 600_000_000_000;
  };
  buckets = [];
  bans = [];
}

abbrev pub world : World ℕ
world = record { session = session; stratifier = stratifier; limiter = limiter; effects = [] }

-- Arrays of texts.
pub data Value : Type 0 where
  array : List Text → Value
  string : Text → Value

abbrev elements_of : Value → Option (List Value)
elements_of (array ts) = some (map string ts)
elements_of (string t) = none

abbrev text_of : Value → Option Text
text_of (array ts) = none
text_of (string t) = some t

abbrev pub json : Json Value ℕ
json = record {
  elements = elements_of;
  members = λ v. none;
  text = text_of;
  number = λ v. none;
  no_number = 0;
}

-- A submit that rolls the version.
abbrev pub submit : Option Value
submit = some (
    array (
      codes "someone.rig"
      ∷ codes "0000002a"
      ∷ codes "00000005"
      ∷ codes "65000000"
      ∷ codes "00000009"
      ∷ codes "00004000"
      ∷ []))
