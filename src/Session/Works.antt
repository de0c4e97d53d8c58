-- ===== src/Session/Works.antt =====
-- The coin and the worker of a session under `process_submit` and `on_disconnect_local` of
-- yumtech/mkpool-src/src/client_session.cpp.
use yumtech_umbrel_apps.Prelude.{ℕ, ◌≡◌, refl, ◌∙◌, Bool, true, false, Option, if◌then◌else◌, arith}
use yumtech_umbrel_apps.Prelude.Texts.{Text, codes}
use yumtech_umbrel_apps.StratumProtocol.{Json}
use yumtech_umbrel_apps.Session.{Outside, Clock, World, emit, reply_error}
use yumtech_umbrel_apps.Session.Keeps.{Keeps, worker_of}
use yumtech_umbrel_apps.Session.Counts.{
  submit_if_solved-Keeps, try_aux-Keeps, tick_vardiff-Keeps, persist-Keeps,
}
use yumtech_umbrel_apps.Session.Replies.{on_disconnect_local, after_invalid, reject, refuse}
use yumtech_umbrel_apps.Session.Submit.{
  Checked, passed, rejected, threw, Share, check_share, read_fields,
}
use yumtech_umbrel_apps.Session.Submit.Judge

module _ {D : Type 0} where
  abbrev pub Works : World D → World D → Type 0
  Works w w' = (w'.session.coin ≡ w.session.coin) × (worker_of w'.session ≡ worker_of w.session)

  abbrev pub IsIdle : World D → World D → Type 0
  IsIdle w w' = Works w w' × (w'.session.shares_accepted ≡ w.session.shares_accepted)

  pub Keeps-Works : (w w' : World D) → Keeps w w' → Works w w'
  Keeps-Works w w' k = (k.same_coin, k.same_worker)

  pub Keeps-IsIdle : (w w' : World D) → Keeps w w' → IsIdle w w'
  Keeps-IsIdle w w' k = (Keeps-Works w w' k, k.same_accepted)

  pub Works-trans : (u v w : World D) → Works u v → Works v w → Works u w
  Works-trans u v w (c, k) (c', k') = (c' ∙ c, k' ∙ k)

  pub IsIdle-trans : (u v w : World D) → IsIdle u v → IsIdle v w → IsIdle u w
  IsIdle-trans u v w (h, a) (k, a') = (Works-trans u v w h k, a' ∙ a)

  if-Works : (b : Bool) (w u v : World D) → Works w u → Works w v → Works w (if b then u else v)
  if-Works true w u v h k = h
  if-Works false w u v h k = k

  pub if-IsIdle :
      (b : Bool) (w u v : World D) → IsIdle w u → IsIdle w v → IsIdle w (if b then u else v)
  if-IsIdle true w u v h k = h
  if-IsIdle false w u v h k = k

  pub on_disconnect_local-IsIdle :
      (reason : Text) (w : World D) → IsIdle w (on_disconnect_local reason w)
  unfolding on_disconnect_local
  on_disconnect_local-IsIdle reason w = ground arith

  after_invalid-IsIdle : (banned : Bool) (w : World D) → IsIdle w (after_invalid banned w)
  unfolding after_invalid
  after_invalid-IsIdle banned w =
      if-IsIdle banned w _ w (on_disconnect_local-IsIdle (codes "ban: too many invalid shares") w)
        ((refl, refl), refl)

  reject-IsIdle :
      (clock : Clock) (code : ℕ) (reason : Text) (w : World D)
      → IsIdle w (reject clock code reason w)
  unfolding reject
  reject-IsIdle clock code reason w = after_invalid-IsIdle _ _

module _ {D : Type 0} (env : Outside D) where
  unless_raised-Works :
      (f : World D → World D) (w : World D) (h : Judge.Handled D)
      → ((v : World D) → Works v (f v))
      → Works w h.0
      → Works w (Judge.unless_raised env f h).0
  unless_raised-Works f w (v, true) step k = k
  unless_raised-Works f w (v, false) step k = Works-trans w v (f v) k (step v)

  solved-Works :
      (clock : Clock) (x : Share D) (w : World D) → Works w (Judge.submit_if_solved env clock x w)
  solved-Works clock x w =
      Keeps-Works w (Judge.submit_if_solved env clock x w) (submit_if_solved-Keeps env clock x w)

  stale_at-Works :
      (first : Bool) (clock : Clock) (x : Share D) (w : World D)
      → Works w (Judge.stale_at env first clock x w).0
  unfolding Judge.stale_at refuse
  stale_at-Works false clock x w = (refl, refl)
  stale_at-Works true clock x w =
      let v = Judge.submit_if_solved env clock x w in
      let h = Judge.try_aux env x v in
      unless_raised-Works (Judge.stale_reply env) w h (λ u. (refl, refl))
        (Works-trans w v h.0 (solved-Works clock x w) (Keeps-Works v h.0 (try_aux-Keeps env x v)))

  accept-Works :
      (clock : Clock) (x : Share D) (w : World D) → Works w (Judge.accept env clock x w).0
  unfolding Judge.accept Judge.credit
  accept-Works clock x w =
      let target =
        Judge.target_difficulty env clock w.session
          (Judge.difficulty_of env w.session.coin.chain x.hash_be) in
      let credited = Judge.credit env x w in
      let ticked = Judge.tick_vardiff env clock target x credited in
      let counted = Judge.persist env target x ticked in
      let h = Judge.try_aux env x counted in
      unless_raised-Works (Judge.submit_if_solved env clock x) w h (λ u. solved-Works clock x u)
        (Works-trans w counted h.0
          (Works-trans w ticked counted
            (Works-trans w credited ticked (refl, refl)
              (Keeps-Works credited ticked (tick_vardiff-Keeps env clock target x credited)))
            (Keeps-Works ticked counted (persist-Keeps env target x ticked)))
          (Keeps-Works counted h.0 (try_aux-Keeps env x counted)))

  current_at-Works :
      (first : Bool) (clock : Clock) (x : Share D) (w : World D)
      → Works w (Judge.current_at env first clock x w).0
  unfolding Judge.current_at refuse
  current_at-Works true clock x w = accept-Works clock x w
  current_at-Works false clock x w = (refl, refl)

  judge_at-Works :
      (stale low : Bool) (clock : Clock) (x : Share D) (w : World D)
      → Works w (Judge.judge_at env stale low clock x w).0
  unfolding Judge.judge_at Judge.judge_stale Judge.judge_current Judge.judge_low
  judge_at-Works true low clock x w =
      let (v, first) = Judge.register env x w in stale_at-Works first clock x v
  judge_at-Works false true clock x w =
      let v = Judge.submit_if_solved env clock x w in
      Works-trans w v (reject clock 23 (codes "low difficulty share") v) (solved-Works clock x w)
        (reject-IsIdle clock 23 (codes "low difficulty share") v).0
  judge_at-Works false false clock x w =
      let (v, first) = Judge.register env x w in current_at-Works first clock x v

  handle_checked-Works :
      (clock : Clock) (c : Checked (Share D)) (w : World D)
      → Works w (Judge.handle_checked env clock c w).0
  unfolding Judge.handle_checked Judge.judge
  handle_checked-Works clock (passed x) w =
      judge_at-Works x.stale_by_block (Judge.is_low env clock w.session x) clock x w
  handle_checked-Works clock (rejected code reason) w = (reject-IsIdle clock code reason w).0
  handle_checked-Works clock threw w = (refl, refl)

  pub process_submit-Works :
      {J N : Type 0} (json : Json J N) (clock : Clock) (params : Option J) (w : World D)
      → Works w (Judge.process_submit env json clock params w)
  unfolding Judge.process_submit Judge.handle_submit
  process_submit-Works json clock params w =
      let h = handle_checked-Works clock (check_share env json clock w params) w in
      let r = Judge.handle_checked env clock (check_share env json clock w params) w in
      if-Works r.1 w (emit (reply_error 20 (codes "malformed request")) r.0) r.0 h h

  not_authorized :
      {J N : Type 0} (json : Json J N) (clock : Clock) (params : Option J) (w : World D)
      → w.session.authorized ≡ false
      → check_share env json clock w params ≡ rejected 24 (codes "not authorized")
  unfolding check_share read_fields
  not_authorized json clock params w without = rw without refl

  pub process_submit-IsIdle :
      {J N : Type 0} (json : Json J N) (clock : Clock) (params : Option J) (w : World D)
      → w.session.authorized ≡ false
      → IsIdle w (Judge.process_submit env json clock params w)
  unfolding Judge.process_submit Judge.handle_submit Judge.handle_checked
  process_submit-IsIdle json clock params w without =
      rw (not_authorized json clock params w without)
        (reject-IsIdle clock 24 (codes "not authorized") w)
