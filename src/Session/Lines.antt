-- ===== src/Session/Lines.antt =====
-- The other methods of a Stratum V1 session, and `process_line` behind the parser: `handle_configure`,
-- `handle_subscribe` and `handle_suggest_difficulty` of yumtech/mkpool-src/src/client_session.cpp.
use yumtech_umbrel_apps.Prelude.{
  ℕ, Bool, true, ◌&&◌, not, [], ◌∷◌, Option, none, some, map, take, ◌==◌, if◌then◌else◌,
}
use yumtech_umbrel_apps.Prelude.Texts.{Text, codes}
use yumtech_umbrel_apps.Address.{to_lower}
use yumtech_umbrel_apps.Blacklist.{Blacklist, contains}
use yumtech_umbrel_apps.StratumProtocol.{
  Json, ConfigureResult, negotiate_configure, nothing_granted,
}
use yumtech_umbrel_apps.Stratifier.{latest_job}
use yumtech_umbrel_apps.Vardiff.{clamp}
use yumtech_umbrel_apps.Session.{
  Outside, Clock, Session, World, emit, is_zcash, reply_error, reply_true, reply_configured,
  reply_subscribed, set_version_mask,
}
use yumtech_umbrel_apps.Session.Notify.{emit_latest, send_set_difficulty}
use yumtech_umbrel_apps.Session.Replies.{on_disconnect_local}
use yumtech_umbrel_apps.Session.Authorize.{Pending, first_text, handle_authorize}
use yumtech_umbrel_apps.Session.Submit.Judge

-- A line that is a JSON object with a method, or is not. An empty line does nothing and is left out.
pub data Line (J : Type 0) : Type 0 where
  configure subscribe authorize submit suggest_difficulty : Option J → Line J
  extranonce_subscribe : Line J
  other_method : Text → Line J
  malformed : Text → Line J

unfoldable pub looks_like_aggregator : Text → Bool
unfolding contains
looks_like_aggregator ua = contains (map to_lower ua) (codes "nicehash")

module _ {D J : Type 0} (env : Outside D) (json : Json J D) where
  abbrev negotiated : Option J → ℕ → ConfigureResult D
  negotiated none pool = nothing_granted json
  negotiated (some params) pool = negotiate_configure json params pool

  unfoldable pub handle_configure : Option J → World D → World D
  unfolding negotiate_configure
  handle_configure params w =
      let pool = if w.session.coin.enable_version_rolling then w.stratifier.version_mask else 0 in
      let neg = negotiated params pool in
      emit
        (reply_configured neg.version_mask neg.version_rolling_requested neg.version_rolling
          neg.minimum_difficulty neg.subscribe_extranonce)
        (record w {
          session = record w.session {
            version_rolling = neg.version_rolling && not (neg.version_mask == 0);
            version_mask = neg.version_mask;
          };
        })

  -- The user agent that a request gives, at most 256 characters of it.
  unfoldable pub user_agent_of : Text → Option J → Text
  unfolding first_text
  user_agent_of former params = elim (first_text env json params) [
    | none ↦ former
    | some given ↦ take 256 given.0
  ]

  unfoldable pub send_version_mask : World D → World D
  send_version_mask w =
      if w.session.version_rolling && not (w.session.version_mask == 0)
      then emit (set_version_mask w.session.version_mask) w
      else w

  abbrev pub extranonce2_size_of : Session D → ℕ
  extranonce2_size_of s = if is_zcash s.coin.chain then 4 else 8

  unfoldable pub handle_subscribe : Clock → Option J → World D → World D
  unfolding looks_like_aggregator user_agent_of send_version_mask send_set_difficulty
      on_disconnect_local
  handle_subscribe clock params w =
      let ua = user_agent_of w.session.user_agent params in
      let n = extranonce2_size_of w.session in
      let named = record w { session = record w.session { user_agent = ua } } in
      if not w.session.coin.allow_nicehash && looks_like_aggregator ua
      then on_disconnect_local (codes "ua-gated") (
          emit (reply_error 20 (codes "aggregator services must connect to a high-diff tier port"))
            named)
      else send_version_mask (
          send_set_difficulty env clock w.session.vardiff.current_diff none (
            emit (reply_subscribed w.session.extranonce1 n) (record named {
              session = record named.session { extranonce2_size = n; subscribed = true };
            })))

  -- The first of the parameters, if it is a number.
  unfoldable pub first_number : Option J → Option D
  first_number none = none
  first_number (some p) = elim (json.elements p) [
    | none ↦ none
    | some [] ↦ none
    | some (v ∷ vs) ↦ json.number v
  ]

  -- A number that is finite is sent within the bounds of the port.
  unfoldable pub suggested : Clock → Option D → World D → World D
  unfolding send_set_difficulty
  suggested clock none w = w
  suggested clock (some d) w =
      if env.real.is_finite d
      then send_set_difficulty env clock
          (clamp env.real d w.session.coin.vardiff_min w.session.coin.vardiff_max) none w
      else w

  unfoldable pub handle_suggest_difficulty : Clock → Option J → World D → World D
  unfolding suggested first_number
  handle_suggest_difficulty clock params w =
      emit reply_true
        (suggested clock (if w.session.coin.vardiff_enabled then first_number params else none) w)

  unfoldable pub process_line : Blacklist → Clock → Line J → World D → World D × Option (Pending D)
  unfolding handle_configure handle_subscribe handle_authorize handle_suggest_difficulty
      Judge.process_submit emit_latest latest_job
  process_line b clock (configure params) w = (handle_configure params w, none)
  process_line b clock (subscribe params) w = (handle_subscribe clock params w, none)
  process_line b clock (authorize params) w = handle_authorize env json b params w
  process_line b clock (submit params) w = (Judge.process_submit env json clock params w, none)
  process_line b clock (suggest_difficulty params) w =
      (handle_suggest_difficulty clock params w, none)
  process_line b clock extranonce_subscribe w =
      (emit_latest env (latest_job w.stratifier) (emit reply_true w), none)
  process_line b clock (other_method reason) w = (emit (reply_error 20 reason) w, none)
  process_line b clock (malformed reason) w = (emit (reply_error 20 reason) w, none)
