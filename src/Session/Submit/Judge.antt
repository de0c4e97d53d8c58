-- ===== src/Session/Submit/Judge.antt =====
-- `handle_submit` of yumtech/mkpool-src/src/client_session.cpp behind the hash: stale, low, duplicate
-- and accepted shares, and `process_line`'s answer to an exception.
use yumtech_umbrel_apps.Prelude.{
  Bool, true, false, ◌&&◌, not, Option, none, some, ltb, if◌then◌else◌,
}
use yumtech_umbrel_apps.Prelude.Texts.{codes}
use yumtech_umbrel_apps.Hex.{bytes_to_hex}
use yumtech_umbrel_apps.RateLimiter.{clear_invalid}
use yumtech_umbrel_apps.Stratifier.{register_share, note_share_diff}
use yumtech_umbrel_apps.StratumProtocol.{Json}
unfoldable pub use yumtech_umbrel_apps.Session.Replies.{
  count_rejected, count_accepted, on_disconnect_local, after_invalid, reject, refuse,
}
unfoldable pub use yumtech_umbrel_apps.Session.Difficulty.{
  as_real, max_target, difficulty_of, target_difficulty, is_low,
}
use yumtech_umbrel_apps.Vardiff.{VarDiff, on_share}
use yumtech_umbrel_apps.Session.{
  Outside, Clock, Session, World, reply_error, reply_true, enqueue_share, enqueue_best_share, emit,
}
use yumtech_umbrel_apps.Session.Notify.{send_set_difficulty}
use yumtech_umbrel_apps.Session.Blocks.{Solved, submit_block_candidate, maybe_submit_aux_block}
use yumtech_umbrel_apps.Session.Submit.{
  Checked, passed, rejected, threw, Share, meets_network, check_share,
}

-- The new state, and whether an exception left the handler.
abbrev pub Handled : Type 0 → Type 0
Handled D = World D × Bool

module _ {D : Type 0} (env : Outside D) where
  unfoldable pub solved : Session D → Share D → Solved D
  unfolding difficulty_of
  solved s x = record {
    job = x.job;
    job_id = x.fields.job_id;
    header_hex = x.header_hex;
    cb_hex = x.cb_hex;
    solution = x.fields.solution;
    hash_be = x.hash_be;
    block_hash_hex = bytes_to_hex x.hash_be;
    share_diff = difficulty_of env s.coin.chain x.hash_be;
  }

  -- A block of the network goes out, if the share solves one.
  unfoldable pub submit_if_solved : Clock → Share D → World D → World D
  submit_if_solved clock x w =
      if meets_network x then submit_block_candidate env clock (solved w.session x) w else w

  -- An exception keeps what was done before it.
  abbrev pub or_raise : World D → Option (World D) → Handled D
  or_raise w none = (w, true)
  or_raise w (some w') = (w', false)

  unfoldable pub try_aux : Share D → World D → Handled D
  try_aux x w = or_raise w (maybe_submit_aux_block env (solved w.session x) w)

  abbrev pub unless_raised : (World D → World D) → Handled D → Handled D
  unless_raised f (w, true) = (w, true)
  unless_raised f (w, false) = (f w, false)

  -- The answer to a stale share.
  abbrev pub stale_reply : World D → World D
  stale_reply w = refuse 21 (codes "stale share - job for previous block") w

  -- The share's hash in the table of the round: the new state, and whether it was not there.
  abbrev pub register : Share D → World D → World D × Bool
  register x w =
      let r = register_share (bytes_to_hex x.hash_be) w.stratifier in
      (record w { stratifier = r.0 }, r.1)

  -- Blocks of a stale share go out the first time that it is seen.
  unfoldable pub stale_at : Bool → Clock → Share D → World D → Handled D
  unfolding submit_if_solved try_aux refuse
  stale_at true clock x w = unless_raised stale_reply (try_aux x (submit_if_solved clock x w))
  stale_at false clock x w = (stale_reply w, false)

  unfoldable pub judge_stale : Clock → Share D → World D → Handled D
  unfolding stale_at register_share
  judge_stale clock x w = let r = register x w in stale_at r.1 clock x r.0

  unfoldable pub judge_low : Clock → Share D → World D → World D
  unfolding reject submit_if_solved
  judge_low clock x w = reject clock 23 (codes "low difficulty share") (submit_if_solved clock x w)

  -- The new difficulty, if there is one, is sent.
  unfoldable pub after_retarget : Clock → D → VarDiff D × Option D → World D → World D
  unfolding send_set_difficulty
  after_retarget clock old r w =
      let w1 = record w { session = record w.session { vardiff = r.0 } } in
      elim r.1 [ none ↦ w1 | some d ↦ send_set_difficulty env clock d (some old) w1 ]

  unfoldable pub tick_vardiff : Clock → D → Share D → World D → World D
  unfolding after_retarget difficulty_of
  tick_vardiff clock target x w =
      let s = w.session in
      if s.coin.vardiff_enabled && not s.has_custom_difficulty
      then after_retarget clock s.vardiff.current_diff
          (on_share env.real clock.now target (difficulty_of env s.coin.chain x.net_target)
            s.vardiff)
          w
      else w

  unfoldable pub persist : D → Share D → World D → World D
  unfolding solved
  persist target x w =
      let h = bytes_to_hex x.hash_be in
      if ltb 0 w.session.miner_id
      then emit (enqueue_best_share (solved w.session x).share_diff h) (
          emit
            (enqueue_share x.fields.job_id x.fields.nonce x.fields.nonce2 h target
              (meets_network x))
            w)
      else w

  -- What is counted for a share that is accepted.
  unfoldable pub credit : Share D → World D → World D
  unfolding note_share_diff solved
  credit x w =
      let w1 = count_accepted (emit reply_true w) in
      record w1 {
        stratifier = note_share_diff env.real (solved w.session x).share_diff w1.stratifier;
        limiter = clear_invalid w.session.client_ip w1.limiter;
      }

  unfoldable pub accept : Clock → Share D → World D → Handled D
  unfolding credit tick_vardiff persist try_aux submit_if_solved target_difficulty
  accept clock x w =
      let target =
        target_difficulty env clock w.session (difficulty_of env w.session.coin.chain x.hash_be) in
      let w1 = persist target x (tick_vardiff clock target x (credit x w)) in
      unless_raised (submit_if_solved clock x) (try_aux x w1)

  -- A share that is current and high enough counts the first time that it is seen.
  unfoldable pub current_at : Bool → Clock → Share D → World D → Handled D
  unfolding accept refuse
  current_at true clock x w = accept clock x w
  current_at false clock x w = (refuse 22 (codes "duplicate share") w, false)

  unfoldable pub judge_current : Clock → Share D → World D → Handled D
  unfolding current_at register_share
  judge_current clock x w = let r = register x w in current_at r.1 clock x r.0

  -- The branches for a stale share and for one that is low.
  unfoldable pub judge_at : Bool → Bool → Clock → Share D → World D → Handled D
  unfolding judge_stale judge_low judge_current
  judge_at true low clock x w = judge_stale clock x w
  judge_at false true clock x w = (judge_low clock x w, false)
  judge_at false false clock x w = judge_current clock x w

  unfoldable pub judge : Clock → Share D → World D → Handled D
  unfolding judge_at is_low
  judge clock x w = judge_at x.stale_by_block (is_low env clock w.session x) clock x w

  unfoldable pub handle_checked : Clock → Checked (Share D) → World D → Handled D
  unfolding judge reject
  handle_checked clock (passed x) w = judge clock x w
  handle_checked clock (rejected code reason) w = (reject clock code reason w, false)
  handle_checked clock threw w = (w, true)

  unfoldable pub handle_submit : {J N : Type 0} → Json J N → Clock → Option J → World D → Handled D
  unfolding handle_checked check_share
  handle_submit json clock params w = handle_checked clock (check_share env json clock w params) w

  -- The branch of `mining.submit` in `process_line`.
  unfoldable pub process_submit : {J N : Type 0} → Json J N → Clock → Option J → World D → World D
  unfolding handle_submit
  process_submit json clock params w =
      let r = handle_submit json clock params w in
      if r.1 then emit (reply_error 20 (codes "malformed request")) r.0 else r.0
