-- ===== src/Session/Solves.antt =====
-- The shares that meet the target of the network, and the blocks that are sent to the node.
use mathlib.Core.List.{append_assoc, append-nil}
use yumtech_umbrel_apps.Prelude.{
  ◌≡◌, refl, sym, ap, ◌∙◌, Bool, true, false, List, [], ◌∷◌, ◌++◌, if◌then◌else◌, subst, ℕ,
}
use yumtech_umbrel_apps.Prelude.Texts.{Text, codes}
use yumtech_umbrel_apps.Hex.{bytes_to_hex}
use yumtech_umbrel_apps.Session.{
  Outside, Clock, Session, World, Effect, submit_block, reply_error, presence_offline, disconnected,
  emit,
}
use yumtech_umbrel_apps.RateLimiter.{record_invalid_share, on_disconnect}
use yumtech_umbrel_apps.Session.Coinbase.{is_empty}
use yumtech_umbrel_apps.Session.Keeps.{Keeps}
use yumtech_umbrel_apps.Session.Counts.{try_aux-Keeps, tick_vardiff-Keeps, persist-Keeps}
use yumtech_umbrel_apps.Session.Blocks.{
  withheld, full_block_of, cb_for_block, ipc_submit_best_effort, submit_block_candidate,
}
use yumtech_umbrel_apps.Session.Submit.{Share, meets_network}
use yumtech_umbrel_apps.Session.Submit.Judge

module _ {D : Type 0} where
  -- The effect is among them.
  abbrev pub Sent : Effect D → List (Effect D) → Type 0
  Sent e es = (pre : List (Effect D)) × (post : List (Effect D)) × (es ≡ pre ++ (e ∷ post))

  abbrev Adds : World D → World D → Type 0
  Adds w w' = (more : List (Effect D)) × (w'.effects ≡ w.effects ++ more)

  Sent-more :
      (e : Effect D) (es es' more : List (Effect D)) → Sent e es → es' ≡ es ++ more → Sent e es'
  Sent-more e es es' more (pre, post, s) a =
      (pre, post ++ more, a ∙ ap (λ t. t ++ more) s ∙ append_assoc pre (e ∷ post) more)

  Adds-Sent : (e : Effect D) (w w' : World D) → Adds w w' → Sent e w.effects → Sent e w'.effects
  Adds-Sent e w w' (more, a) s = Sent-more e w.effects w'.effects more s a

  Keeps-Sent : (e : Effect D) (w w' : World D) → Keeps w w' → Sent e w.effects → Sent e w'.effects
  Keeps-Sent e w w' k s = Sent-more e w.effects w'.effects k.more s k.added

  if-Adds : (b : Bool) (w u v : World D) → Adds w u → Adds w v → Adds w (if b then u else v)
  if-Adds true w u v h k = h
  if-Adds false w u v h k = k

  emit-Adds : (e : Effect D) (w u : World D) → Adds w u → Adds w (emit e u)
  emit-Adds e w u (more, a) =
      (more ++ (e ∷ []), ap (λ t. t ++ (e ∷ [])) a ∙ append_assoc w.effects more (e ∷ []))

  nothing : (w : World D) → Adds w w
  nothing w = ([], sym (append-nil w.effects))

  on_disconnect_local-Adds :
      (reason : Text) (w : World D) → Adds w (Judge.on_disconnect_local reason w)
  unfolding Judge.on_disconnect_local
  on_disconnect_local-Adds reason w =
      let closed = record w { session = record w.session { closed = true } } in
      let offline = emit (presence_offline w.session.worker_address) closed in
      let left = if is_empty w.session.worker_address then closed else offline in
      if-Adds w.session.closed w _ _ (nothing w) (
        emit-Adds (disconnected reason) w
          (record left { limiter = on_disconnect w.session.client_ip left.limiter })
          (if-Adds (is_empty w.session.worker_address) w closed offline (nothing w)
            (emit-Adds (presence_offline w.session.worker_address) w closed (nothing w))))

  after_invalid-Adds : (banned : Bool) (w : World D) → Adds w (Judge.after_invalid banned w)
  unfolding Judge.after_invalid
  after_invalid-Adds banned w =
      if-Adds banned w _ _ (on_disconnect_local-Adds (codes "ban: too many invalid shares") w)
        (nothing w)

  reject-Sent :
      (e : Effect D) (clock : Clock) (code : ℕ) (reason : Text) (w : World D)
      → Sent e w.effects
      → Sent e (Judge.reject clock code reason w).effects
  unfolding Judge.reject
  reject-Sent e clock code reason w s =
      let w1 = Judge.count_rejected (emit (reply_error code reason) w) in
      let r = record_invalid_share w.session.client_ip clock.now w1.limiter in
      Adds-Sent e (record w1 { limiter = r.0 })
        (Judge.after_invalid r.1 (record w1 { limiter = r.0 }))
        (after_invalid-Adds r.1 (record w1 { limiter = r.0 }))
        (Adds-Sent e w w1 (emit-Adds (reply_error code reason) w w (nothing w)) s)

module _ {D : Type 0} (env : Outside D) where
  -- The block of a share, as it is sent.
  abbrev pub block_of : Session D → Share D → Effect D
  block_of s x = submit_block (full_block_of env s (Judge.solved env s x)) (bytes_to_hex x.hash_be)

  -- Is the block of a share held back?
  abbrev pub held_back : Clock → Session D → Share D → Bool
  held_back clock s x = withheld env clock s (Judge.solved env s x)

  block_of-coin : (s t : Session D) (x : Share D) → s.coin ≡ t.coin → block_of s x ≡ block_of t x
  unfolding full_block_of Judge.solved
  block_of-coin s t x e = ap (λ c. block_of (record s { coin = c }) x) e

  held_back-coin :
      (clock : Clock) (s t : Session D) (x : Share D)
      → s.coin ≡ t.coin
      → held_back clock s x ≡ held_back clock t x
  unfolding withheld Judge.solved
  held_back-coin clock s t x e = ap (λ c. held_back clock (record s { coin = c }) x) e

  submit_if_solved-Sent :
      (clock : Clock) (x : Share D) (w : World D)
      → meets_network x ≡ true
      → held_back clock w.session x ≡ false
      → Sent (block_of w.session x) (Judge.submit_if_solved env clock x w).effects
  unfolding Judge.submit_if_solved submit_block_candidate Judge.solved
  submit_if_solved-Sent clock x w m h =
      rw (m, h)
        (
          (ipc_submit_best_effort env x.job.ipc_handle x.header_hex
              (cb_for_block env (Judge.solved env w.session x)) w).effects,
          [],
          refl,
        )

  unless_raised-Sent :
      (e : Effect D) (f : World D → World D) (h : Judge.Handled D)
      → ((w : World D) → Sent e w.effects → Sent e (f w).effects)
      → Sent e h.0.effects
      → Sent e (Judge.unless_raised env f h).0.effects
  unless_raised-Sent e f (w, true) step s = s
  unless_raised-Sent e f (w, false) step s = step w s

  stale_at-Sent :
      (clock : Clock) (x : Share D) (w : World D)
      → meets_network x ≡ true
      → held_back clock w.session x ≡ false
      → Sent (block_of w.session x) (Judge.stale_at env true clock x w).0.effects
  unfolding Judge.stale_at Judge.refuse
  stale_at-Sent clock x w m h =
      let e = block_of w.session x in
      let v = Judge.submit_if_solved env clock x w in
      unless_raised-Sent e (Judge.stale_reply env) (Judge.try_aux env x v)
        (λ u s.
          Adds-Sent e u (Judge.stale_reply env u)
            (emit-Adds (reply_error 21 (codes "stale share - job for previous block")) u u
              (nothing u))
            s)
        (Keeps-Sent e v (Judge.try_aux env x v).0 (try_aux-Keeps env x v)
          (submit_if_solved-Sent clock x w m h))

  judge_low-Sent :
      (clock : Clock) (x : Share D) (w : World D)
      → meets_network x ≡ true
      → held_back clock w.session x ≡ false
      → Sent (block_of w.session x) (Judge.judge_low env clock x w).effects
  unfolding Judge.judge_low
  judge_low-Sent clock x w m h =
      reject-Sent (block_of w.session x) clock 23 (codes "low difficulty share")
        (Judge.submit_if_solved env clock x w) (submit_if_solved-Sent clock x w m h)

  -- The block is the last thing of a share that is accepted.
  last-Sent :
      (clock : Clock) (x : Share D) (s : Session D) (h : Judge.Handled D)
      → h.0.session.coin ≡ s.coin
      → meets_network x ≡ true
      → held_back clock s x ≡ false
      → (Judge.unless_raised env (Judge.submit_if_solved env clock x) h).1 ≡ false
      → Sent
          (block_of s x)
          (Judge.unless_raised env (Judge.submit_if_solved env clock x) h).0.effects
  last-Sent clock x s (w, true) c m h r = cc
  last-Sent clock x s (w, false) c m h r =
      subst (λ e. Sent e (Judge.submit_if_solved env clock x w).effects)
        (block_of-coin w.session s x c)
        (submit_if_solved-Sent clock x w m (held_back-coin clock w.session s x c ∙ h))

  accept-Sent :
      (clock : Clock) (x : Share D) (w : World D)
      → meets_network x ≡ true
      → held_back clock w.session x ≡ false
      → (Judge.accept env clock x w).1 ≡ false
      → Sent (block_of w.session x) (Judge.accept env clock x w).0.effects
  unfolding Judge.accept Judge.credit
  accept-Sent clock x w m h r =
      let target =
        Judge.target_difficulty env clock w.session
          (Judge.difficulty_of env w.session.coin.chain x.hash_be) in
      let credited = Judge.credit env x w in
      let ticked = Judge.tick_vardiff env clock target x credited in
      let counted = Judge.persist env target x ticked in
      last-Sent clock x w.session (Judge.try_aux env x counted)
        ((try_aux-Keeps env x counted).same_coin
          ∙ (persist-Keeps env target x ticked).same_coin
          ∙ (tick_vardiff-Keeps env clock target x credited).same_coin)
        m h r

  judge_at-Sent :
      (stale low : Bool) (clock : Clock) (x : Share D) (w : World D)
      → meets_network x ≡ true
      → held_back clock w.session x ≡ false
      → (Judge.register env x w).1 ≡ true
      → (Judge.judge_at env stale low clock x w).1 ≡ false
      → Sent (block_of w.session x) (Judge.judge_at env stale low clock x w).0.effects
  unfolding Judge.judge_at Judge.judge_stale Judge.judge_current
  judge_at-Sent true low clock x w m h first r =
      rw first (stale_at-Sent clock x (Judge.register env x w).0 m h)
  judge_at-Sent false true clock x w m h first r = judge_low-Sent clock x w m h
  judge_at-Sent false false clock x w m h first r = rw first (
      unfold Judge.current_at in
      accept-Sent clock x (Judge.register env x w).0 m h (unfold Judge.current_at in rw first at r))

  -- A share that meets the target of the network sends its block the first time that its hash is
  -- seen, be it stale, too low or accepted, unless eCash's guard holds it back or an exception comes.
  pub judge-submits :
      (clock : Clock) (x : Share D) (w : World D)
      → meets_network x ≡ true
      → held_back clock w.session x ≡ false
      → (Judge.register env x w).1 ≡ true
      → (Judge.judge env clock x w).1 ≡ false
      → Sent (block_of w.session x) (Judge.judge env clock x w).0.effects
  unfolding Judge.judge
  judge-submits clock x w m h first r =
      judge_at-Sent x.stale_by_block (Judge.is_low env clock w.session x) clock x w m h first r
