-- ===== src/Session/Notify.antt =====
-- What a session tells its miner of work and difficulty: `notifyNewJob`, `emit_job`,
-- `emit_job_custom` and `send_set_difficulty` of yumtech/mkpool-src/src/client_session.cpp. A
-- notification is what its text is put together of.
use yumtech_umbrel_apps.Prelude.{
  ◌-◌, Bool, true, false, ◌&&◌, ◌||◌, not, [], ◌++◌, Option, none, some, length, take, ltb,
  if◌then◌else◌,
}
use yumtech_umbrel_apps.Prelude.Texts.{Text}
use yumtech_umbrel_apps.Hex.{◌>>=◌}
use yumtech_umbrel_apps.RateLimiter.Maps.{Map, insert}
use yumtech_umbrel_apps.Stratifier.{MiningJob, latest_job}
use yumtech_umbrel_apps.Session.{
  Outside, Clock, SessionAuxJob, ZcashJob, World, set_difficulty, set_target, notify, notify_zcash,
  emit, is_zcash,
}
use yumtech_umbrel_apps.Session.Coinbase.{is_empty, build_session_aux}
use yumtech_umbrel_apps.Session.Payouts.{build_session_coinbase2}

-- A map that is cleared before it grows beyond 257 entries.
unfoldable pub insert_bounded : {V : Type 0} → Text → V → Map V → Map V
insert_bounded k v m = insert k v (if ltb 256 (length m) then [] else m)

-- The commitment in the place of the last 88 characters.
unfoldable pub splice : Text → Text → Text
splice coinbase1 commit =
    let n = length coinbase1 in if ltb n 88 then coinbase1 else take (n - 88) coinbase1 ++ commit

module _ {D : Type 0} (env : Outside D) where
  -- The notification of a job, with the worker's coinbase if there is one.
  unfoldable pub emit_redirected : MiningJob D → Bool → Option ZcashJob → World D → World D
  unfolding insert_bounded
  emit_redirected job clean none w = emit (notify_zcash job.job_id job.zcash_merkle_root_le clean) w
  emit_redirected job clean (some j) w =
      emit (notify_zcash job.job_id j.merkle_root_le clean) (record w {
        session = record w.session {
          zcash_jobs = insert_bounded job.job_id j w.session.zcash_jobs;
        };
      })

  unfoldable pub emit_zcash : MiningJob D → Bool → World D → World D
  unfolding emit_redirected
  emit_zcash job clean w =
      let script = w.session.worker_script_hex in
      emit_redirected job clean
        (if is_empty script || is_empty job.zcash_full_coinbase_hex
          then none
          else env.redirected job script)
        w

  unfoldable pub emit_job : MiningJob D → Bool → World D → World D
  unfolding emit_zcash
  emit_job job force_clean w =
      let clean = job.clean_jobs || force_clean in
      if is_zcash w.session.coin.chain
      then emit_zcash job clean w
      else emit
          (notify job.job_id job.coinbase1
            (build_session_coinbase2 env w.session.coin.chain job w.session.worker_script_hex)
            clean)
          w

  unfoldable pub emit_job_custom : MiningJob D → Text → World D → World D
  emit_job_custom job session_coinbase1 w =
      emit
        (notify job.job_id session_coinbase1
          (build_session_coinbase2 env w.session.coin.chain job w.session.worker_script_hex)
          job.clean_jobs)
        w

  unfoldable pub notify_aux : MiningJob D → SessionAuxJob → World D → World D
  unfolding emit_job_custom insert_bounded splice
  notify_aux job aux w = emit_job_custom job (splice job.coinbase1 aux.aux_commit) (record w {
    session = record w.session {
      session_aux_jobs = insert_bounded job.job_id aux w.session.session_aux_jobs;
    };
  })

  -- The job with its merge-mined work, if there is any.
  unfoldable pub notify_with : MiningJob D → Option SessionAuxJob → World D → World D
  unfolding emit_job notify_aux
  notify_with job none w = emit_job job false w
  notify_with job (some aux) w = notify_aux job aux w

  -- With and without merge mining. `none` is an exception that leaves the handler.
  unfoldable pub notify_open : Bool → MiningJob D → World D → Option (World D)
  unfolding notify_with
  notify_open true job w = do a ← build_session_aux env w.session job; some (notify_with job a w)
  notify_open false job w = some (emit_job job false w)

  -- For a session of Stratum V1.
  unfoldable pub notify_new_job : MiningJob D → World D → Option (World D)
  unfolding notify_open
  notify_new_job job w =
      let s = w.session in
      if not s.subscribed || s.closed
      then some w
      else notify_open (job.aux_enabled && (not (is_empty s.aux_doge_address) && s.has_aux_client))
          job w

  -- The latest job, at once.
  unfoldable pub emit_latest : Option (MiningJob D) → World D → World D
  unfolding emit_job
  emit_latest none w = w
  emit_latest (some j) w = emit_job j true w

  -- The target that Zcash miners get is that of the rounded difficulty.
  unfoldable pub send_set_difficulty : Clock → D → Option D → World D → World D
  unfolding emit_latest latest_job
  send_set_difficulty clock d old_diff w =
      let rounded = env.real.round d in
      let last : D = elim old_diff [ none ↦ d | some o ↦ o ] in
      let w1 = emit (set_difficulty rounded) (record w {
        session = record w.session { last_difficulty = last; last_difficulty_change = clock.now };
      }) in
      let w2 = if is_zcash w.session.coin.chain then emit (set_target rounded) w1 else w1 in
      if w.session.authorized then emit_latest (latest_job w.stratifier) w2 else w2
