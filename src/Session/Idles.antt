-- ===== src/Session/Idles.antt =====
-- Which calls leave the coin, the worker and the accepted shares of a session as they are.
use yumtech_umbrel_apps.Prelude.{
  ◌≡◌, refl, Bool, true, false, Option, none, some, not, ◌&&◌, subst, if◌then◌else◌, ◌||◌, ◌==◌,
}
use yumtech_umbrel_apps.Prelude.Texts.{codes}
use yumtech_umbrel_apps.Address.{script_pubkey_hex, Decoded, Expected, expected, unexpected}
use yumtech_umbrel_apps.Address.Decoder.{decode}
use yumtech_umbrel_apps.StratumProtocol.{Json}
use yumtech_umbrel_apps.Stratifier.{MiningJob}
use yumtech_umbrel_apps.Session.{
  Outside, Clock, SessionAuxJob, World, emit, reply_error, reply_subscribed, set_version_mask,
}
use yumtech_umbrel_apps.Session.Coinbase.{is_empty, build_session_aux}
use yumtech_umbrel_apps.Hex.{◌>>=◌}
use yumtech_umbrel_apps.Hex.Reading.{some_inj}
use yumtech_umbrel_apps.Session.Keeps.{emit_job-Keeps, send_set_difficulty-Keeps}
use yumtech_umbrel_apps.Session.Works.{
  IsIdle, Keeps-IsIdle, IsIdle-trans, if-IsIdle, on_disconnect_local-IsIdle,
}
use yumtech_umbrel_apps.Session.Replies.{on_disconnect_local}
use yumtech_umbrel_apps.Session.Notify.{
  notify_with, notify_aux, emit_job_custom, emit_job, notify_open, notify_new_job,
  send_set_difficulty,
}
use yumtech_umbrel_apps.Vardiff.{set_current, clamp}
use yumtech_umbrel_apps.Session.Authorize.{apply_custom, send_first, pool_default}
use yumtech_umbrel_apps.Session.Lines.{
  looks_like_aggregator, user_agent_of, extranonce2_size_of, send_version_mask, handle_subscribe,
  suggested,
}

module _ {D J : Type 0} (env : Outside D) (json : Json J D) where
  pub apply_custom-IsIdle :
      (clock : Clock) (d : Option D) (w : World D) → IsIdle w (apply_custom env clock d w)
  unfolding apply_custom
  apply_custom-IsIdle clock none w = ((refl, refl), refl)
  apply_custom-IsIdle clock (some d) w =
      let v = record w {
        session = record w.session {
          has_custom_difficulty = true;
          vardiff = set_current env.real d w.session.vardiff;
        };
      } in
      Keeps-IsIdle v (send_set_difficulty env clock d none v)
        (send_set_difficulty-Keeps env clock d none v)

  pub send_first-IsIdle : (j : Option (MiningJob D)) (w : World D) → IsIdle w (send_first env j w)
  send_first-IsIdle none w = ((refl, refl), refl)
  send_first-IsIdle (some job) w = Keeps-IsIdle w _ (emit_job-Keeps env job false w)

  pub pool_default-IsIdle : (w : World D) → IsIdle w (pool_default env w)
  unfolding pool_default
  pool_default-IsIdle w =
      if-IsIdle (w.session.has_aux_client && not (is_empty w.session.coin.payout_address)) w _ w
        (decoded (decode (λ d. some (env.sha256 d)) w.session.coin.payout_address))
        ((refl, refl), refl)
    where
      decoded :
          (r : Expected Decoded)
          → IsIdle w (elim r [
            | unexpected e ↦ w
            | expected d ↦ record w {
              session = record w.session {
                aux_doge_address = w.session.coin.payout_address;
                doge_script_hex = script_pubkey_hex d;
              };
            }
          ])
      decoded (unexpected e) = ((refl, refl), refl)
      decoded (expected d) = ((refl, refl), refl)

  pub send_version_mask-IsIdle : (w : World D) → IsIdle w (send_version_mask env json w)
  unfolding send_version_mask
  send_version_mask-IsIdle w =
      if-IsIdle (w.session.version_rolling && not (w.session.version_mask == 0)) w
        (emit (set_version_mask w.session.version_mask) w) w ((refl, refl), refl)
        ((refl, refl), refl)

  pub handle_subscribe-IsIdle :
      (clock : Clock) (params : Option J) (w : World D)
      → IsIdle w (handle_subscribe env json clock params w)
  unfolding handle_subscribe
  handle_subscribe-IsIdle clock params w =
      let ua = user_agent_of env json w.session.user_agent params in
      let n = extranonce2_size_of env json w.session in
      let named = record w { session = record w.session { user_agent = ua } } in
      let told =
        emit (reply_error 20 (codes "aggregator services must connect to a high-diff tier port"))
          named in
      let open' = emit (reply_subscribed w.session.extranonce1 n) (record named {
        session = record named.session { extranonce2_size = n; subscribed = true };
      }) in
      let sent = send_set_difficulty env clock w.session.vardiff.current_diff none open' in
      if-IsIdle (not w.session.coin.allow_nicehash && looks_like_aggregator ua) w _ _
        (IsIdle-trans w told (on_disconnect_local (codes "ua-gated") told) ((refl, refl), refl)
          (on_disconnect_local-IsIdle (codes "ua-gated") told))
        (IsIdle-trans w sent (send_version_mask env json sent)
          (IsIdle-trans w open' sent ((refl, refl), refl)
            (Keeps-IsIdle open' sent
              (send_set_difficulty-Keeps env clock w.session.vardiff.current_diff none open')))
          (send_version_mask-IsIdle sent))

  pub suggested-IsIdle :
      (clock : Clock) (o : Option D) (w : World D) → IsIdle w (suggested env json clock o w)
  unfolding suggested
  suggested-IsIdle clock none w = ((refl, refl), refl)
  suggested-IsIdle clock (some d) w =
      let c = clamp env.real d w.session.coin.vardiff_min w.session.coin.vardiff_max in
      if-IsIdle (env.real.is_finite d) w (send_set_difficulty env clock c none w) w
        (Keeps-IsIdle w (send_set_difficulty env clock c none w)
          (send_set_difficulty-Keeps env clock c none w))
        ((refl, refl), refl)

  notify_with-IsIdle :
      (job : MiningJob D) (o : Option SessionAuxJob) (w : World D)
      → IsIdle w (notify_with env job o w)
  unfolding notify_with notify_aux emit_job_custom
  notify_with-IsIdle job none w =
      Keeps-IsIdle w (emit_job env job false w) (emit_job-Keeps env job false w)
  notify_with-IsIdle job (some a) w = ((refl, refl), refl)

  notify_open-IsIdle :
      (merges : Bool) (job : MiningJob D) (w w' : World D)
      → notify_open env merges job w ≡ some w'
      → IsIdle w w'
  unfolding notify_open
  notify_open-IsIdle false job w w' e =
      subst (IsIdle w) (some_inj _ w' e)
        (Keeps-IsIdle w (emit_job env job false w) (emit_job-Keeps env job false w))
  notify_open-IsIdle true job w w' e = with_work (build_session_aux env w.session job) e
    where
      with_work :
          (o : Option (Option SessionAuxJob))
          → (o >>= (λ a. some (notify_with env job a w))) ≡ some w'
          → IsIdle w w'
      with_work none e = cc
      with_work (some a) e = subst (IsIdle w) (some_inj _ w' e) (notify_with-IsIdle job a w)

  pub notify_new_job-IsIdle :
      (job : MiningJob D) (w w' : World D) → notify_new_job env job w ≡ some w' → IsIdle w w'
  unfolding notify_new_job
  notify_new_job-IsIdle job w w' e = when_open (not w.session.subscribed || w.session.closed) e
    where
      merges : Bool
      merges =
          job.aux_enabled && (not (is_empty w.session.aux_doge_address) && w.session.has_aux_client)

      when_open :
          (c : Bool) → (if c then some w else notify_open env merges job w) ≡ some w' → IsIdle w w'
      when_open true e = subst (IsIdle w) (some_inj w w' e) ((refl, refl), refl)
      when_open false e = notify_open-IsIdle merges job w w' e
