-- ===== src/Session/Coinbase.antt =====
-- The coinbases that a session makes: `segwitify_coinbase`, `build_doge_coinbase`,
-- `build_session_aux` and `build_session_coinbase2` of yumtech/mkpool-src/src/client_session.cpp.
-- An `int64_t` is its 64 bits. `none` is an exception.
use yumtech_umbrel_apps.Prelude.{
  ℕ, ◌+◌, ◌-◌, ◌/◌, ◌%◌, ◌^◌, Bool, true, false, ◌&&◌, ◌||◌, not, List, [], ◌∷◌, ◌++◌, Option, none,
  some, length, take, drop, replicate, ltb, ◌==◌, if◌then◌else◌,
}
use yumtech_umbrel_apps.Prelude.Texts.{Text, codes}
use yumtech_umbrel_apps.Hex.{◌>>=◌, le_hex_u32, le_hex_u64}
use yumtech_umbrel_apps.Block.{
  byte_reverse_hex, compute_coinbase_txid_le, encode_bip34_height, encode_push_ascii,
}
use yumtech_umbrel_apps.Address.{expected, unexpected, script_pubkey_hex}
use yumtech_umbrel_apps.Address.Decoder.{decode}
use yumtech_umbrel_apps.Stratifier.{MiningJob}
use yumtech_umbrel_apps.Session.{Outside, Session, SessionAuxJob, hex2}

-- `substr` to the end of the text.
unfoldable pub segwitify_coinbase : Text → Text
segwitify_coinbase cb_hex =
    let n = length cb_hex in
    if ltb n 16
    then cb_hex
    else take 8 cb_hex
      ++ (codes "0001"
          ++ (take (n - 16) (drop 8 cb_hex)
              ++ (codes "01" ++ (codes "20" ++ (replicate 64 b'0' ++ drop (n - 8) cb_hex)))))

-- `a - b` and `a < b` of signed numbers.
abbrev pub minus : ℕ → ℕ → ℕ
minus a b = (a + 2 ^ 64 - b) % 2 ^ 64

abbrev pub signed_lt : ℕ → ℕ → Bool
signed_lt a b = ltb ((a + 2 ^ 63) % 2 ^ 64) ((b + 2 ^ 63) % 2 ^ 64)

-- `append_output`, which both functions define.
unfoldable pub output_hex : ℕ → Text → Text
output_hex value spk = le_hex_u64 value ++ (hex2 (length spk / 2) ++ spk)

unfoldable pub outputs_hex : List (ℕ × Text) → Text
unfolding output_hex
outputs_hex [] = []
outputs_hex ((value, spk) ∷ outs) = output_hex value spk ++ outputs_hex outs

abbrev pub is_empty : Text → Bool
is_empty [] = true
is_empty (c ∷ t) = false

-- A script behind its fallback.
abbrev pub or_script : Text → Text → Text
or_script [] fallback = fallback
or_script (c ∷ t) fallback = c ∷ t

abbrev pub miner_fund_fallback : Text
miner_fund_fallback = codes "a914d37c4c809fe9840e7bfa77b86bd47163f6fb6c6087"

abbrev pub staking_fallback : Text
staking_fallback = codes "76a9140e1ce96692cf15155985bf010264725428d3233e88ac"

module _ {D : Type 0} (env : Outside D) where
  -- The script of an address, if it is one.
  unfoldable pub script_of : Text → Option Text
  script_of a = elim (decode (λ d. some (env.sha256 d)) a) [
    | expected d ↦ some (script_pubkey_hex d)
    | unexpected e ↦ none
  ]

  -- `llround((double)value * percent / 100.0)`.
  unfoldable pub percentage : ℕ → D → ℕ
  percentage value percent =
      env.real.llround
        (env.real.div (env.real.mul (env.real.of_int64 value) percent) (env.real.of_nat 100))

  -- The donation of a merge-mined coinbase.
  unfoldable pub doge_donation : ℕ → Text → D → ℕ
  unfolding percentage
  doge_donation value donation_script percent =
      let d = percentage value percent in
      if env.real.lt (env.real.of_nat 0) percent && not (is_empty donation_script)
      then (if signed_lt d 0 || signed_lt value d then 0 else d)
      else 0

  -- The outputs of a merge-mined coinbase.
  unfoldable pub doge_outputs : ℕ → Text → Text → D → List (ℕ × Text)
  unfolding doge_donation
  doge_outputs value miner_script donation_script percent =
      let donation = doge_donation value donation_script percent in
      (minus value donation, miner_script)
      ∷ (if signed_lt 0 donation && not (is_empty donation_script)
          then (donation, donation_script) ∷ []
          else [])

  unfoldable pub doge_script_sig : ℕ → Text → Option Text
  doge_script_sig height sig = do
    h ← encode_bip34_height height
    (if is_empty sig then some h else (do s ← encode_push_ascii sig; some (h ++ s)))

  -- The text is empty if the script is too long.
  unfoldable pub build_doge_coinbase : ℕ → Text → ℕ → Text → Text → D → Option Text
  unfolding doge_script_sig doge_outputs outputs_hex
  build_doge_coinbase height sig value miner_script donation_script percent = do
    script_sig ← doge_script_sig height sig
    let ss_len = length script_sig / 2
    let outs = doge_outputs value miner_script donation_script percent
    (if ltb 0xfc ss_len
        then some []
        else some (
            codes "0100000001"
            ++ (replicate 64 b'0'
                ++ (codes "ffffffff"
                    ++ (hex2 ss_len
                        ++ (script_sig
                            ++ (codes "ffffffff"
                                ++ (hex2 (length outs)
                                    ++ (outputs_hex outs ++ codes "00000000")))))))))

  -- The donation's script for merge-mined blocks; empty without one.
  unfoldable pub aux_donation_script : Session D → Text
  unfolding script_of
  aux_donation_script s =
      if env.real.lt (env.real.of_nat 0) s.coin.aux_donation_percent
        && not (is_empty s.coin.aux_donation_address)
      then (elim (script_of s.coin.aux_donation_address) [ some t ↦ t | none ↦ [] ])
      else []

  -- The work for a coinbase that is not empty.
  unfoldable pub aux_job_of : MiningJob D → Text → Option SessionAuxJob
  aux_job_of job doge_cb = do
    merkleroot ← compute_coinbase_txid_le env.sha256 doge_cb
    let doge_header =
        le_hex_u32 job.aux_version
        ++ (byte_reverse_hex job.aux_prevhash
            ++ (merkleroot
                ++ (le_hex_u32 job.aux_curtime
                    ++ (byte_reverse_hex job.aux_bits ++ codes "00000000"))))
    id ← compute_coinbase_txid_le env.sha256 doge_header
    let aux_hash = byte_reverse_hex id
    some (record {
      aux_target = job.aux_target;
      aux_commit = codes "fabe6d6d" ++ (aux_hash ++ codes "0100000000000000");
      doge_coinbase = doge_cb;
      doge_header = doge_header;
      doge_block_hash = aux_hash;
      aux_height = job.aux_height;
      aux_value = job.aux_coinbasevalue;
    })

  -- An exception, or no work, or work.
  unfoldable pub build_session_aux : Session D → MiningJob D → Option (Option SessionAuxJob)
  unfolding build_doge_coinbase aux_donation_script aux_job_of
  build_session_aux s job =
      if not job.aux_enabled
        || is_empty s.doge_script_hex
        || not (length job.aux_prevhash == 64)
        || not (length job.aux_bits == 8)
        || not (length job.aux_target == 64)
      then some none
      else (do
        cb ←
            build_doge_coinbase job.aux_height s.coin.coinbase_signature job.aux_coinbasevalue
              s.doge_script_hex (aux_donation_script s) s.coin.aux_donation_percent
        (if is_empty cb then some none else (do a ← aux_job_of job cb; some (some a))))
