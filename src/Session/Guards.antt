-- ===== src/Session/Guards.antt =====
-- The handlers of yumtech/mkpool-src/src/client_session.cpp, one by one, and whom a session works for.
use yumtech_umbrel_apps.Prelude.{
  ℕ, ◌≡◌, refl, sym, ap, ◌∙◌, Bool, true, false, List, [], ◌∷◌, ◌++◌, Option, none, some, not, ◌&&◌,
  All, subst, if◌then◌else◌, inl, inr, Bool-cases,
}
use yumtech_umbrel_apps.Prelude.Texts.{Text, codes}
use yumtech_umbrel_apps.Address.{Decoded}
use yumtech_umbrel_apps.Blacklist.{Blacklist}
use yumtech_umbrel_apps.StratumProtocol.{Json}
use yumtech_umbrel_apps.Stratifier.{latest_job}
use yumtech_umbrel_apps.Session.{
  Outside, Clock, CoinConfig, World, Effect, emit, reply_true, reply_false, reply_error,
  presence_online, validate_address, validate_aux_address,
}
use yumtech_umbrel_apps.Session.Coinbase.{is_empty}
use yumtech_umbrel_apps.Session.Keeps.{worker_of, emit_latest-Keeps}
use yumtech_umbrel_apps.Session.Works.{
  Works, IsIdle, Keeps-IsIdle, process_submit-Works, process_submit-IsIdle,
}
use yumtech_umbrel_apps.Session.Authorize.{
  Pending, Checks, denied, waits, check_authorize, handle_authorize, worker_script, apply_custom,
  send_first, proceed_auth, pool_default, on_validated, after_checks, with_doge, on_aux_validated,
}
use yumtech_umbrel_apps.Session.Submit.Judge
use yumtech_umbrel_apps.Session.Lines.{
  Line, configure, subscribe, authorize, submit, suggest_difficulty, extranonce_subscribe,
  other_method, malformed, handle_configure, handle_suggest_difficulty, process_line,
}
use yumtech_umbrel_apps.Session.LetIn.{IsLetIn, IsChecked, IsAdmitted, check_authorize-IsChecked}
use yumtech_umbrel_apps.Session.Idles.{
  apply_custom-IsIdle, send_first-IsIdle, handle_subscribe-IsIdle, suggested-IsIdle,
}

-- A request that waits, behind those that wait already.
abbrev pub queued : {D : Type 0} → Option (Pending D) → List (Pending D) → List (Pending D)
queued none ps = ps
queued (some p) ps = p ∷ ps

module _ {D J : Type 0} (env : Outside D) (json : Json J D) (b : Blacklist) where
  -- The same of the coin and the worker alone.
  abbrev Admits : CoinConfig D → Bool × Text × Text × Text → Type 0
  Admits c (a, addr, worker, script) =
      (d : Decoded) × IsLetIn env json b addr worker d × (script ≡ worker_script env c.chain addr d)

  pub record IsGuarded (w : World D) : Type 0 where
    pub admitted : w.session.authorized ≡ true → IsAdmitted env json b w.session
    pub uncredited : w.session.authorized ≡ false → w.session.shares_accepted ≡ 0

  Works-Admits :
      (w w' : World D)
      → Works w w'
      → Admits w.session.coin (worker_of w.session)
      → Admits w'.session.coin (worker_of w'.session)
  Works-Admits w w' (coin, worker) h =
      subst (λ c. Admits c (worker_of w'.session)) (sym coin)
        (subst (Admits w.session.coin) (sym worker) h)

  Works-authorized : (w w' : World D) → Works w w' → w.session.authorized ≡ w'.session.authorized
  Works-authorized w w' (coin, worker) = sym (ap (λ k. k.0) worker)

  Works-IsAdmitted :
      (w w' : World D)
      → Works w w'
      → (w.session.authorized ≡ true → IsAdmitted env json b w.session)
      → w'.session.authorized ≡ true
      → IsAdmitted env json b w'.session
  Works-IsAdmitted w w' works h on = Works-Admits w w' works (h (Works-authorized w w' works ∙ on))

  pub IsIdle-IsGuarded : (w w' : World D) → IsIdle w w' → IsGuarded w → IsGuarded w'
  IsIdle-IsGuarded w w' (works, accepted) g = record {
    admitted = Works-IsAdmitted w w' works g.admitted;
    uncredited = λ off. accepted ∙ g.uncredited (Works-authorized w w' works ∙ off);
  }

  -- A session that is authorized for a worker who was let in.
  authorized-IsGuarded :
      (w : World D) → w.session.authorized ≡ true → IsAdmitted env json b w.session → IsGuarded w
  authorized-IsGuarded w on h = record {
    admitted = λ o. h;
    uncredited = λ off. absurd (true_false (sym on ∙ off));
  }
    where
      true_false : true ≡ false → ⊥
      true_false e = cc

  proceed_auth-IsGuarded :
      (clock : Clock) (miner : ℕ) (p : Pending D) (w : World D)
      → IsChecked env json b p
      → IsGuarded (proceed_auth env clock miner p w)
  unfolding proceed_auth
  proceed_auth-IsGuarded clock miner p w h =
      let base = record w {
        session = record w.session {
          worker_address = p.address;
          worker_name = p.worker;
          worker_script_hex = worker_script env w.session.coin.chain p.address p.decoded;
        };
      } in
      let a = apply_custom env clock p.custom base in
      let a1 = emit reply_true a in
      let v =
        emit (presence_online p.address)
          (record a1 { session = record a1.session { miner_id = miner; authorized = true } }) in
      IsIdle-IsGuarded v (send_first env (latest_job v.stratifier) v)
        (send_first-IsIdle env json (latest_job v.stratifier) v)
        (authorized-IsGuarded v refl (
          Works-Admits base a (apply_custom-IsIdle env json clock p.custom base).0
            (p.decoded, h, refl)))

  -- The session is guarded, and what is to wait was checked.
  abbrev IsSafe : World D × Option (Pending D) → Type 0
  IsSafe (w, o) = IsGuarded w × All (IsChecked env json b) (queued o [])

  if-IsSafe :
      (c : Bool) (r s : World D × Option (Pending D))
      → IsSafe r
      → IsSafe s
      → IsSafe (if c then r else s)
  if-IsSafe true r s h k = h
  if-IsSafe false r s h k = k

  if-IsGuarded :
      (c : Bool) (u v : World D) → IsGuarded u → IsGuarded v → IsGuarded (if c then u else v)
  if-IsGuarded true u v h k = h
  if-IsGuarded false u v h k = k

  emit-IsGuarded : (e : Effect D) (w : World D) → IsGuarded w → IsGuarded (emit e w)
  emit-IsGuarded e w g = IsIdle-IsGuarded w (emit e w) ((refl, refl), refl) g

  pub on_validated-IsSafe :
      (clock : Clock) (miner : ℕ) (p : Pending D) (failure : Option Text) (w : World D)
      → IsChecked env json b p
      → IsGuarded w
      → IsSafe (on_validated env clock miner p failure w)
  unfolding on_validated
  on_validated-IsSafe clock miner p (some reason) w h g =
      let e = reply_false (codes "invalid address: " ++ reason) in
      if-IsSafe w.session.closed (w, none) (emit e w, none) (g, tt) (emit-IsGuarded e w g, tt)
  on_validated-IsSafe clock miner p none w h g =
      let e = validate_aux_address p.doge in
      let v = proceed_auth env clock miner p (pool_default env w) in
      if-IsSafe w.session.closed (w, none) _ (g, tt)
        (if-IsSafe (not (is_empty p.doge) && w.session.has_aux_client) (emit e w, some p) (v, none)
          (emit-IsGuarded e w g, (h, tt))
          (proceed_auth-IsGuarded clock miner p (pool_default env w) h, tt))

  pub on_aux_validated-IsGuarded :
      (clock : Clock) (miner : ℕ) (p : Pending D) (valid : Bool) (w : World D)
      → IsChecked env json b p
      → IsGuarded w
      → IsGuarded (on_aux_validated env clock miner p valid w)
  unfolding on_aux_validated
  on_aux_validated-IsGuarded clock miner p valid w h g =
      let e = reply_false (codes "invalid Dogecoin address") in
      if-IsGuarded w.session.closed w _ g (
        if-IsGuarded valid _ (emit e w)
          (proceed_auth-IsGuarded clock miner p (with_doge env p.doge w) h) (emit-IsGuarded e w g))

  handle_authorize-IsSafe :
      (params : Option J) (w : World D)
      → IsGuarded w
      → IsSafe (handle_authorize env json b params w)
  unfolding handle_authorize
  handle_authorize-IsSafe params w g = after (check_authorize env json b w.session params) refl
    where
      after :
          (c : Checks D)
          → check_authorize env json b w.session params ≡ c
          → IsSafe (after_checks env json c w)
      after (denied reason) e = (emit-IsGuarded (reply_false reason) w g, tt)
      after (waits q) e = (
        emit-IsGuarded (validate_address q.address) w g,
        (check_authorize-IsChecked env json b w.session params q e, tt),
      )

  process_submit-IsGuarded :
      (clock : Clock) (params : Option J) (w : World D)
      → IsGuarded w
      → IsGuarded (Judge.process_submit env json clock params w)
  process_submit-IsGuarded clock params w g = elim (Bool-cases w.session.authorized) [
    | inr off ↦ IsIdle-IsGuarded w v (process_submit-IsIdle env json clock params w off) g
    | inl on ↦
        (let works = process_submit-Works env json clock params w in
          authorized-IsGuarded v (sym (Works-authorized w v works) ∙ on)
            (Works-Admits w v works (g.admitted on)))
  ]
    where
      v : World D
      v = Judge.process_submit env json clock params w

  pub process_line-IsSafe :
      (clock : Clock) (l : Line J) (w : World D)
      → IsGuarded w
      → IsSafe (process_line env json b clock l w)
  unfolding process_line handle_configure handle_suggest_difficulty
  process_line-IsSafe clock (configure params) w g =
      (IsIdle-IsGuarded w _ ((refl, refl), refl) g, tt)
  process_line-IsSafe clock (subscribe params) w g =
      (IsIdle-IsGuarded w _ (handle_subscribe-IsIdle env json clock params w) g, tt)
  process_line-IsSafe clock (authorize params) w g = handle_authorize-IsSafe params w g
  process_line-IsSafe clock (submit params) w g = (process_submit-IsGuarded clock params w g, tt)
  process_line-IsSafe clock (suggest_difficulty params) w g = (
    emit-IsGuarded reply_true _ (IsIdle-IsGuarded w _ (suggested-IsIdle env json clock _ w) g),
    tt,
  )
  process_line-IsSafe clock extranonce_subscribe w g = (
    IsIdle-IsGuarded (emit reply_true w) _
        (Keeps-IsIdle (emit reply_true w) _
          (emit_latest-Keeps env (latest_job w.stratifier) (emit reply_true w)))
        (emit-IsGuarded reply_true w g),
    tt,
  )
  process_line-IsSafe clock (other_method reason) w g =
      (emit-IsGuarded (reply_error 20 reason) w g, tt)
  process_line-IsSafe clock (malformed reason) w g =
      (emit-IsGuarded (reply_error 20 reason) w g, tt)
