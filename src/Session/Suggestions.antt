-- ===== src/Session/Suggestions.antt =====
-- What a suggested difficulty does to the shares that follow.
use yumtech_umbrel_apps.Prelude.{
  ◌-◌, ◌≡◌, refl, ap, ◌∙◌, Bool, true, false, ◌&&◌, not, Option, none, some, if◌then◌else◌,
}
use yumtech_umbrel_apps.StratumProtocol.{Json}
use yumtech_umbrel_apps.Stratifier.{MiningJob, latest_job}
use yumtech_umbrel_apps.Vardiff.{clamp}
use yumtech_umbrel_apps.Session.{
  Outside, Clock, Session, World, emit, is_zcash, set_difficulty, set_target,
}
use yumtech_umbrel_apps.Session.Difficulty.{difficulty_of, tolerance, target_difficulty, is_low}
use yumtech_umbrel_apps.Session.Notify.{emit_job, emit_latest, send_set_difficulty}
use yumtech_umbrel_apps.Session.Lines.{first_number, suggested, handle_suggest_difficulty}
use yumtech_umbrel_apps.Session.Submit.{Share}

module _ {D : Type 0} (env : Outside D) where
  if_false-session :
      (c : Bool) (u v : World D) → c ≡ false → (if c then u else v).session ≡ v.session
  if_false-session true u v e = cc
  if_false-session false u v e = refl

  if_true-session : (c : Bool) (u v : World D) → c ≡ true → (if c then u else v).session ≡ u.session
  if_true-session true u v e = refl
  if_true-session false u v e = cc

  if_same-session :
      (c : Bool) (u v : World D) → u.session ≡ v.session → (if c then u else v).session ≡ v.session
  if_same-session true u v e = e
  if_same-session false u v e = refl

  emit_latest-session :
      (o : Option (MiningJob D)) (w : World D)
      → is_zcash w.session.coin.chain ≡ false
      → (emit_latest env o w).session ≡ w.session
  unfolding emit_latest emit_job
  emit_latest-session none w z = refl
  emit_latest-session (some j) w z = if_false-session (is_zcash w.session.coin.chain) _ (emit _ w) z

  -- What a difficulty that is sent leaves in the session.
  abbrev told : Clock → D → Session D → Session D
  told clock d s = record s { last_difficulty = d; last_difficulty_change = clock.now }

  send_set_difficulty-session :
      (clock : Clock) (d : D) (w : World D)
      → is_zcash w.session.coin.chain ≡ false
      → (send_set_difficulty env clock d none w).session ≡ told clock d w.session
  unfolding send_set_difficulty
  send_set_difficulty-session clock d w z =
      let w1 =
        emit (set_difficulty (env.real.round d)) (record w { session = told clock d w.session }) in
      let zcash = is_zcash w.session.coin.chain in
      let w2 = if zcash then emit (set_target (env.real.round d)) w1 else w1 in
      let same = if_false-session zcash (emit (set_target (env.real.round d)) w1) w1 z in
      if_same-session w.session.authorized (emit_latest env (latest_job w.stratifier) w2) w2 (
        emit_latest-session (latest_job w.stratifier) w2 (ap (λ s. is_zcash s.coin.chain) same ∙ z))
      ∙ same

  is_low-late :
      (later : Clock) (s : Session D) (x : Share D)
      → env.real.lt
          (env.real.ratio (later.now - s.last_difficulty_change) 1_000_000_000)
          (env.real.of_nat 40)
        ≡ false
      → is_low env later s x
        ≡ env.real.lt
            (difficulty_of env s.coin.chain x.hash_be)
            (env.real.mul s.vardiff.current_diff (tolerance env s.coin.chain))
  unfolding is_low target_difficulty
  is_low-late later s x late =
      let d = difficulty_of env s.coin.chain x.hash_be in
      let t = tolerance env s.coin.chain in
      ap (λ target. env.real.lt d (env.real.mul target t))
        (without_grace (env.real.lt d s.vardiff.current_diff) _
          (not (env.real.lt d (env.real.mul s.last_difficulty t))) s.last_difficulty
          s.vardiff.current_diff late)
    where
      without_grace : (a b c : Bool) (u v : D) → b ≡ false → (if a && (b && c) then u else v) ≡ v
      without_grace a true c u v e = cc
      without_grace true false c u v e = refl
      without_grace false false c u v e = refl

  -- On a port with variable difficulty, of a chain that is not Zcash, a difficulty that a miner
  -- suggests is recorded as the last one, but not set: from 40 seconds after it was sent on, a share is
  -- measured against the session's difficulty from before, however much lower the one sent is.
  pub handle_suggest_difficulty-unset :
      {J : Type 0} (json : Json J D) (clock later : Clock) (params : Option J) (d : D) (w : World D)
      (x : Share D)
      → is_zcash w.session.coin.chain ≡ false
      → w.session.coin.vardiff_enabled ≡ true
      → first_number env json params ≡ some d
      → env.real.is_finite d ≡ true
      → env.real.lt (env.real.ratio (later.now - clock.now) 1_000_000_000) (env.real.of_nat 40)
        ≡ false
      → ((handle_suggest_difficulty env json clock params w).session.last_difficulty
          ≡ clamp env.real d w.session.coin.vardiff_min w.session.coin.vardiff_max)
        × (is_low env later (handle_suggest_difficulty env json clock params w).session x
            ≡ env.real.lt
                (difficulty_of env w.session.coin.chain x.hash_be)
                (env.real.mul w.session.vardiff.current_diff (tolerance env w.session.coin.chain)))
  unfolding handle_suggest_difficulty suggested
  handle_suggest_difficulty-unset json clock later params d w x z on number finite late =
      let c = clamp env.real d w.session.coin.vardiff_min w.session.coin.vardiff_max in
      let asked : (if w.session.coin.vardiff_enabled then first_number env json params else none)
          ≡ some d =
        rw on number in
      let same =
        ap (λ o. (suggested env json clock o w).session) asked
        ∙ if_true-session (env.real.is_finite d) (send_set_difficulty env clock c none w) w finite
        ∙ send_set_difficulty-session clock c w z in
      (
        ap (λ s. s.last_difficulty) same,
        ap (λ s. is_low env later s x) same ∙ is_low-late later (told clock c w.session) x late,
      )
