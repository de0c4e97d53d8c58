-- ===== src/Session/Counts.antt =====
-- The counters of a session under `mining.submit`.
use yumtech_umbrel_apps.Prelude.{
  ℕ, ◌+◌, ◌≡◌, refl, ap₂, ◌∙◌, Bool, true, false, Option, none, some, arith,
}
use yumtech_umbrel_apps.Prelude.Texts.{Text, codes}
use yumtech_umbrel_apps.StratumProtocol.{Json}
use yumtech_umbrel_apps.Vardiff.{VarDiff}
use yumtech_umbrel_apps.Session.{Outside, Clock, World}
use yumtech_umbrel_apps.Session.Keeps.{
  Keeps, Keeps-refl, Keeps-trans, then_emit, if-Keeps, emit-Keeps, session-Keeps, IfDone, done,
  submit_block_candidate-Keeps, maybe_submit_aux_block-IfDone, send_set_difficulty-Keeps,
}
use yumtech_umbrel_apps.Session.Blocks.{maybe_submit_aux_block}
use yumtech_umbrel_apps.Session.Submit.{
  Checked, passed, rejected, threw, Share, meets_network, check_share,
}
use yumtech_umbrel_apps.Session.Submit.Judge

-- How many shares were answered.
abbrev pub answered : {D : Type 0} → World D → ℕ
answered w = w.session.shares_accepted + w.session.shares_rejected

module _ {D : Type 0} where
  reject-counts :
      (clock : Clock) (code : ℕ) (reason : Text) (w : World D)
      → ((Judge.reject clock code reason w).session.shares_accepted ≡ w.session.shares_accepted)
        × ((Judge.reject clock code reason w).session.shares_rejected
            ≡ w.session.shares_rejected + 1)
  unfolding Judge.reject
  reject-counts clock code reason w = ground arith

module _ {D : Type 0} (env : Outside D) where
  pub submit_if_solved-Keeps :
      (clock : Clock) (x : Share D) (w : World D) → Keeps w (Judge.submit_if_solved env clock x w)
  unfolding Judge.submit_if_solved
  submit_if_solved-Keeps clock x w =
      if-Keeps (meets_network x) w _ _
        (submit_block_candidate-Keeps env clock (Judge.solved env w.session x) w) (Keeps-refl w)

  or_raise-Keeps :
      (w : World D) (o : Option (World D)) → IfDone w o → Keeps w (Judge.or_raise env w o).0
  or_raise-Keeps w none h = Keeps-refl w
  or_raise-Keeps w (some w') (done k) = k

  pub try_aux-Keeps : (x : Share D) (w : World D) → Keeps w (Judge.try_aux env x w).0
  unfolding Judge.try_aux
  try_aux-Keeps x w =
      or_raise-Keeps w (maybe_submit_aux_block env (Judge.solved env w.session x) w)
        (maybe_submit_aux_block-IfDone env (Judge.solved env w.session x) w)

  after_retarget-Keeps :
      (clock : Clock) (old : D) (v : VarDiff D) (o : Option D) (w : World D)
      → Keeps w (Judge.after_retarget env clock old (v, o) w)
  unfolding Judge.after_retarget
  after_retarget-Keeps clock old v none w = session-Keeps w _ refl refl refl refl
  after_retarget-Keeps clock old v (some d) w =
      Keeps-trans w _ _ (session-Keeps w (record w.session { vardiff = v }) refl refl refl refl)
        (send_set_difficulty-Keeps env clock d (some old) _)

  pub tick_vardiff-Keeps :
      (clock : Clock) (target : D) (x : Share D) (w : World D)
      → Keeps w (Judge.tick_vardiff env clock target x w)
  unfolding Judge.tick_vardiff
  tick_vardiff-Keeps clock target x w =
      if-Keeps _ w _ _ (after_retarget-Keeps clock _ _ _ w) (Keeps-refl w)

  pub persist-Keeps :
      (target : D) (x : Share D) (w : World D) → Keeps w (Judge.persist env target x w)
  unfolding Judge.persist
  persist-Keeps target x w = if-Keeps _ w _ _ (then_emit w _ _ (emit-Keeps _ w)) (Keeps-refl w)

  Keeps-answered : (w w' : World D) → Keeps w w' → answered w' ≡ answered w
  Keeps-answered w w' k = ap₂ ◌+◌ k.same_accepted k.same_rejected

  -- A step behind a call that may raise.
  behind :
      (f : World D → World D) (k n : ℕ) (h : Judge.Handled D)
      → ((w : World D) → answered (f w) ≡ answered w + k)
      → answered h.0 ≡ n
      → (Judge.unless_raised env f h).1 ≡ false
      → answered (Judge.unless_raised env f h).0 ≡ n + k
  behind f k n (w, true) step e r = cc
  behind f k n (w, false) step e r = omega (arith, step w)

  stale_reply-answered : (w : World D) → answered (Judge.stale_reply env w) ≡ answered w + 1
  unfolding Judge.refuse
  stale_reply-answered w = omega arith

  stale_at-answered :
      (first : Bool) (clock : Clock) (x : Share D) (w : World D)
      → (Judge.stale_at env first clock x w).1 ≡ false
      → answered (Judge.stale_at env first clock x w).0 ≡ answered w + 1
  unfolding Judge.stale_at
  stale_at-answered false clock x w r = stale_reply-answered w
  stale_at-answered true clock x w r =
      behind (Judge.stale_reply env) 1 (answered w)
        (Judge.try_aux env x (Judge.submit_if_solved env clock x w)) stale_reply-answered
        (Keeps-answered _ _ (try_aux-Keeps x (Judge.submit_if_solved env clock x w))
          ∙ Keeps-answered w _ (submit_if_solved-Keeps clock x w))
        r

  credit-answered : (x : Share D) (w : World D) → answered (Judge.credit env x w) ≡ answered w + 1
  unfolding Judge.credit
  credit-answered x w = omega arith

  accept-answered :
      (clock : Clock) (x : Share D) (w : World D)
      → (Judge.accept env clock x w).1 ≡ false
      → answered (Judge.accept env clock x w).0 ≡ answered w + 1
  unfolding Judge.accept
  accept-answered clock x w r = omega (
    arith,
    behind (Judge.submit_if_solved env clock x) 0 (answered w + 1) (Judge.try_aux env x counted)
        (λ v. Keeps-answered v _ (submit_if_solved-Keeps clock x v) ∙ omega arith)
        (Keeps-answered counted _ (try_aux-Keeps x counted)
          ∙ Keeps-answered _ counted (persist-Keeps target x _)
          ∙ Keeps-answered _ _ (tick_vardiff-Keeps clock target x (Judge.credit env x w))
          ∙ credit-answered x w)
        r,
  )
    where
      target : D
      target =
          Judge.target_difficulty env clock w.session
            (Judge.difficulty_of env w.session.coin.chain x.hash_be)

      counted : World D
      counted =
          Judge.persist env target x (Judge.tick_vardiff env clock target x (Judge.credit env x w))

  current_at-answered :
      (first : Bool) (clock : Clock) (x : Share D) (w : World D)
      → (Judge.current_at env first clock x w).1 ≡ false
      → answered (Judge.current_at env first clock x w).0 ≡ answered w + 1
  unfolding Judge.current_at Judge.refuse
  current_at-answered true clock x w r = accept-answered clock x w r
  current_at-answered false clock x w r = omega arith

  judge_low-answered :
      (clock : Clock) (x : Share D) (w : World D)
      → answered (Judge.judge_low env clock x w) ≡ answered w + 1
  unfolding Judge.judge_low
  judge_low-answered clock x w = omega (
    arith,
    reject-counts clock 23 (codes "low difficulty share") (Judge.submit_if_solved env clock x w),
    Keeps-answered w _ (submit_if_solved-Keeps clock x w),
  )

  judge_at-answered :
      (stale low : Bool) (clock : Clock) (x : Share D) (w : World D)
      → (Judge.judge_at env stale low clock x w).1 ≡ false
      → answered (Judge.judge_at env stale low clock x w).0 ≡ answered w + 1
  unfolding Judge.judge_at Judge.judge_stale Judge.judge_current
  judge_at-answered true low clock x w r =
      let (v, first) = Judge.register env x w in stale_at-answered first clock x v r
  judge_at-answered false true clock x w r = judge_low-answered clock x w
  judge_at-answered false false clock x w r =
      let (v, first) = Judge.register env x w in current_at-answered first clock x v r

  handle_checked-answered :
      (clock : Clock) (c : Checked (Share D)) (w : World D)
      → (Judge.handle_checked env clock c w).1 ≡ false
      → answered (Judge.handle_checked env clock c w).0 ≡ answered w + 1
  unfolding Judge.handle_checked Judge.judge
  handle_checked-answered clock (passed x) w r =
      judge_at-answered x.stale_by_block (Judge.is_low env clock w.session x) clock x w r
  handle_checked-answered clock (rejected code reason) w r =
      omega (arith, reject-counts clock code reason w)
  handle_checked-answered clock threw w r = cc

  -- A submit that no exception leaves is counted once: as accepted or as rejected.
  pub handle_submit-answered :
      {J N : Type 0} (json : Json J N) (clock : Clock) (params : Option J) (w : World D)
      → (Judge.handle_submit env json clock params w).1 ≡ false
      → answered (Judge.handle_submit env json clock params w).0 ≡ answered w + 1
  unfolding Judge.handle_submit
  handle_submit-answered json clock params w r =
      handle_checked-answered clock (check_share env json clock w params) w r
