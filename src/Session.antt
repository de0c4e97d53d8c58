-- ===== src/Session.antt =====
-- A Stratum V1 session of a miner: yumtech/mkpool-src/src/client_session.hpp, and what the children
-- share of client_session.cpp. A session runs on its strand, so a handler is one step; it changes the
-- session, the stratifier and the rate limiter, and its calls of the outside are recorded in order.
-- Log lines, metrics and the plain statistics of the control plane are left out.
-- There is a rate limiter, as the pool always passes one. The children from Coinbase to Lines have the
-- code, those from Keeps on the proofs.
pub mod Coinbase
pub mod Payouts
pub mod Notify
pub mod Blocks
pub mod Requests
pub mod Replies
pub mod Difficulty
pub mod Submit
pub mod Passwords
pub mod Authorize
pub mod Lines
pub mod Keeps
pub mod Counts
pub mod Solves
pub mod Registers
pub mod Once
pub mod Rolled
pub mod Stale
pub mod Works
pub mod LetIn
pub mod Idles
pub mod Guards
pub mod Admission
pub mod Suggestions
pub mod Coinbases
pub mod Listed
pub mod Outputs
use yumtech_umbrel_apps.Prelude.{
  ℕ, zero, suc, ◌+◌, ◌/◌, ◌%◌, Bool, true, false, List, [], ◌∷◌, ◌++◌, Option, none, some, ltb,
  if◌then◌else◌,
}
use yumtech_umbrel_apps.Prelude.Texts.{Text}
use yumtech_umbrel_apps.Hex.{bytes_to_hex}
use yumtech_umbrel_apps.Reals.{Reals}
use yumtech_umbrel_apps.RateLimiter.{RateLimiter}
use yumtech_umbrel_apps.RateLimiter.Maps.{Map}
use yumtech_umbrel_apps.Stratifier.{MiningJob, Stratifier}
use yumtech_umbrel_apps.Vardiff.{VarDiff}

abbrev pub Bytes : Type 0
Bytes = List ℕ

-- `ChainKind` of config.hpp.
pub data Chain : Type 0 where
  bitcoin bitcoin_cash bitcoin_ii digi_byte e_cash zcash litecoin dogecoin bitcoin_cash_ii : Chain

unfoldable pub is_zcash : Chain → Bool
is_zcash zcash = true
is_zcash bitcoin = false
is_zcash bitcoin_cash = false
is_zcash bitcoin_ii = false
is_zcash digi_byte = false
is_zcash e_cash = false
is_zcash litecoin = false
is_zcash dogecoin = false
is_zcash bitcoin_cash_ii = false

unfoldable pub is_e_cash : Chain → Bool
is_e_cash e_cash = true
is_e_cash zcash = false
is_e_cash bitcoin = false
is_e_cash bitcoin_cash = false
is_e_cash bitcoin_ii = false
is_e_cash digi_byte = false
is_e_cash litecoin = false
is_e_cash dogecoin = false
is_e_cash bitcoin_cash_ii = false

-- The chains that hash with scrypt.
unfoldable pub uses_scrypt : Chain → Bool
uses_scrypt litecoin = true
uses_scrypt dogecoin = true
uses_scrypt e_cash = false
uses_scrypt zcash = false
uses_scrypt bitcoin = false
uses_scrypt bitcoin_cash = false
uses_scrypt bitcoin_ii = false
uses_scrypt digi_byte = false
uses_scrypt bitcoin_cash_ii = false

-- The settings of a coin that a session reads.
pub record CoinConfig (D : Type 0) : Type 0 where
  pub chain : Chain
  pub enable_version_rolling : Bool
  pub vardiff_enabled : Bool
  pub coinbase_signature : Text
  pub aux_donation_percent : D
  pub aux_donation_address : Text
  pub payout_address : Text
  pub allow_nicehash : Bool
  pub vardiff_min : D
  pub vardiff_max : D

pub record SessionAuxJob : Type 0 where
  pub aux_target : Text
  pub aux_commit : Text
  pub doge_coinbase : Text
  pub doge_header : Text
  pub doge_block_hash : Text
  pub aux_height : ℕ
  pub aux_value : ℕ

pub record ZcashJob : Type 0 where
  pub coinbase_hex : Text
  pub merkle_root_le : Text

-- `miner_id` is 0 where the code has a number that is not positive; times are nanoseconds of the
-- steady clock.
pub record Session (D : Type 0) : Type 0 where
  pub coin : CoinConfig D
  pub client_ip : Text
  pub extranonce1 : Text
  pub user_agent : Text
  pub worker_address : Text
  pub worker_name : Text
  pub worker_script_hex : Text
  pub aux_doge_address : Text
  pub doge_script_hex : Text
  pub has_aux_client : Bool
  pub miner_id : ℕ
  pub subscribed : Bool
  pub authorized : Bool
  pub extranonce2_size : ℕ
  pub version_rolling : Bool
  pub version_mask : ℕ
  pub vardiff : VarDiff D
  pub last_difficulty : D
  pub last_difficulty_change : ℕ
  pub has_custom_difficulty : Bool
  pub shares_accepted : ℕ
  pub shares_rejected : ℕ
  pub closed : Bool
  pub session_aux_jobs : Map SessionAuxJob
  pub doge_submitted : List Text
  pub zcash_jobs : Map ZcashJob

-- What a session sends and calls: replies to a request, notifications, blocks for the node, for the
-- node of the merge-mined chain and for the node's IPC, rows for the database, and its end.
pub data Effect (D : Type 0) : Type 0 where
  reply_error : ℕ → Text → Effect D
  reply_true : Effect D
  reply_false : Text → Effect D
  -- The features that were asked for, as they were granted.
  reply_configured : ℕ → Bool → Bool → Bool → Bool → Effect D
  -- The first extranonce and the size of the second.
  reply_subscribed : Text → ℕ → Effect D
  set_version_mask : ℕ → Effect D
  -- A question to the node, and to that of the merge-mined chain.
  validate_address : Text → Effect D
  validate_aux_address : Text → Effect D
  set_difficulty : D → Effect D
  set_target : D → Effect D
  -- The job, the two parts of the coinbase and `clean`; for Zcash the merkle root.
  notify : Text → Text → Text → Bool → Effect D
  notify_zcash : Text → Text → Bool → Effect D
  ipc_submit : ℕ → Text → Text → Effect D
  submit_block : Text → Text → Effect D
  submit_aux_block : Text → Text → Effect D
  -- The job, the nonce and the second extranonce, the hash, the difficulty, and whether it is a block.
  enqueue_share : Text → Text → Text → Text → D → Bool → Effect D
  enqueue_best_share : D → Text → Effect D
  presence_online : Text → Effect D
  presence_offline : Text → Effect D
  disconnected : Text → Effect D

pub record World (D : Type 0) : Type 0 where
  pub session : Session D
  pub stratifier : Stratifier D
  pub limiter : RateLimiter
  pub effects : List (Effect D)

-- What the code calls that is not part of this model: the hash functions and floating point, which
-- are libraries', `equihash::verify_200_9`, `utils::ecash_rtt_ok` on the times and the bits of a job,
-- the time and the hash, and what `zcash::` makes of a job's coinbase for a script, if anything.
pub record Outside (D : Type 0) : Type 0 where
  pub real : Reals D
  pub sha256 : Bytes → Bytes
  pub scrypt_1024_1_1_32 : Bytes → Bytes
  pub verify_200_9 : Bytes → Bytes → Bool
  pub ecash_rtt_ok : List ℕ → ℕ → ℕ → Bytes → Bool
  pub redirected : MiningJob D → Text → Option ZcashJob

-- The clocks at a step: seconds of the system clock, and nanoseconds of the steady clock.
pub record Clock : Type 0 where
  pub now_unix : ℕ
  pub now : ℕ

module _ {D : Type 0} where
  abbrev pub emit : Effect D → World D → World D
  emit e w = record w { effects = w.effects ++ (e ∷ []) }

-- The first two hexadecimal digits of a number: what `snprintf` leaves in three characters.
unfoldable pub two_digits : ℕ → ℕ → Text
two_digits zero n = bytes_to_hex ((n % 256) ∷ [])
two_digits (suc fuel) n =
    let more = two_digits fuel (n / 16) in if ltb n 256 then bytes_to_hex (n ∷ []) else more

-- `%02x`, for numbers of 64 bits.
abbrev pub hex2 : ℕ → Text
hex2 n = two_digits 14 n
