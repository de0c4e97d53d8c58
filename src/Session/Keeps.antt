-- ===== src/Session/Keeps.antt =====
-- What the calls of a share's handler leave as it was, and that effects are only added.
use mathlib.Core.List.{append_assoc, append-nil}
use yumtech_umbrel_apps.Prelude.{
  ℕ, ◌≡◌, refl, sym, ap, ◌∙◌, Bool, true, false, List, [], ◌∷◌, ◌++◌, Option, none, some,
  if◌then◌else◌, not, ◌||◌, length, ◌==◌,
}
use yumtech_umbrel_apps.Prelude.Texts.{Text}
use yumtech_umbrel_apps.Hex.{◌>>=◌, hex_to_bytes}
use yumtech_umbrel_apps.Stratifier.{MiningJob, latest_job}
use yumtech_umbrel_apps.Session.{
  Outside, Clock, Bytes, Session, SessionAuxJob, World, Effect, ZcashJob, emit, is_zcash,
  set_difficulty, set_target,
}
use yumtech_umbrel_apps.Session.Notify.{
  emit_redirected, emit_zcash, emit_job, emit_latest, send_set_difficulty,
}
use yumtech_umbrel_apps.Session.Blocks.{
  Solved, ipc_submit_best_effort, submit_block_candidate, at_most, doge_block, submit_aux,
  against_target, with_aux_job, maybe_submit_aux_block, aux_job_for, cb_for_block,
}

-- Who the session works for: whether it is authorized, the address, the name and the script.
abbrev pub worker_of : {D : Type 0} → Session D → Bool × Text × Text × Text
worker_of s = (s.authorized, s.worker_address, s.worker_name, s.worker_script_hex)

module _ {D : Type 0} where
  -- The counters, the coin, the worker, the rate limiter and the stratifier stay, and effects come behind the
  -- former ones.
  pub record Keeps (w w' : World D) : Type 0 where
    pub same_accepted : w'.session.shares_accepted ≡ w.session.shares_accepted
    pub same_rejected : w'.session.shares_rejected ≡ w.session.shares_rejected
    pub same_coin : w'.session.coin ≡ w.session.coin
    pub same_worker : worker_of w'.session ≡ worker_of w.session
    pub same_limiter : w'.limiter ≡ w.limiter
    pub same_stratifier : w'.stratifier ≡ w.stratifier
    pub more : List (Effect D)
    pub added : w'.effects ≡ w.effects ++ more

  pub Keeps-refl : (w : World D) → Keeps w w
  Keeps-refl w = record {
    same_accepted = refl;
    same_rejected = refl;
    same_coin = refl;
    same_worker = refl;
    same_limiter = refl;
    same_stratifier = refl;
    more = [];
    added = sym (append-nil w.effects);
  }

  pub Keeps-trans : (u v w : World D) → Keeps u v → Keeps v w → Keeps u w
  Keeps-trans u v w h k = record {
    same_accepted = k.same_accepted ∙ h.same_accepted;
    same_rejected = k.same_rejected ∙ h.same_rejected;
    same_coin = k.same_coin ∙ h.same_coin;
    same_worker = k.same_worker ∙ h.same_worker;
    same_limiter = k.same_limiter ∙ h.same_limiter;
    same_stratifier = k.same_stratifier ∙ h.same_stratifier;
    more = h.more ++ k.more;
    added = k.added ∙ ap (λ t. t ++ k.more) h.added ∙ append_assoc u.effects h.more k.more;
  }

  pub emit-Keeps : (e : Effect D) (w : World D) → Keeps w (emit e w)
  emit-Keeps e w = record {
    same_accepted = refl;
    same_rejected = refl;
    same_coin = refl;
    same_worker = refl;
    same_limiter = refl;
    same_stratifier = refl;
    more = e ∷ [];
    added = refl;
  }

  pub session-Keeps :
      (w : World D) (s : Session D)
      → s.shares_accepted ≡ w.session.shares_accepted
      → s.shares_rejected ≡ w.session.shares_rejected
      → s.coin ≡ w.session.coin
      → worker_of s ≡ worker_of w.session
      → Keeps w (record w { session = s })
  session-Keeps w s a r c k = record {
    same_accepted = a;
    same_rejected = r;
    same_coin = c;
    same_worker = k;
    same_limiter = refl;
    same_stratifier = refl;
    more = [];
    added = sym (append-nil w.effects);
  }

  pub if-Keeps : (b : Bool) (w u v : World D) → Keeps w u → Keeps w v → Keeps w (if b then u else v)
  if-Keeps true w u v h k = h
  if-Keeps false w u v h k = k

  -- An effect behind what is kept.
  pub then_emit : (w u : World D) (e : Effect D) → Keeps w u → Keeps w (emit e u)
  then_emit w u e h = Keeps-trans w u (emit e u) h (emit-Keeps e u)

-- What is kept unless an exception comes.
pub data IfDone {D : Type 0} (w : World D) : Option (World D) → Type 0 where
  raised : IfDone w none
  done : {w' : World D} → Keeps w w' → IfDone w (some w')

module _ {D : Type 0} (env : Outside D) where
  pub ipc_submit_best_effort-Keeps :
      (handle : ℕ) (header coinbase : Text) (w : World D)
      → Keeps w (ipc_submit_best_effort env handle header coinbase w)
  unfolding ipc_submit_best_effort
  ipc_submit_best_effort-Keeps handle header coinbase w =
      if-Keeps _ w w _ (Keeps-refl w) (emit-Keeps _ w)

  pub submit_block_candidate-Keeps :
      (clock : Clock) (x : Solved D) (w : World D) → Keeps w (submit_block_candidate env clock x w)
  unfolding submit_block_candidate
  submit_block_candidate-Keeps clock x w = if-Keeps _ w w _ (Keeps-refl w) (
      then_emit w (ipc_submit_best_effort env x.job.ipc_handle x.header_hex (cb_for_block env x) w)
        _ (ipc_submit_best_effort-Keeps x.job.ipc_handle x.header_hex (cb_for_block env x) w))

  submit_aux-Keeps :
      (x : Solved D) (saj : SessionAuxJob) (block : Text) (w : World D)
      → Keeps w (submit_aux env x saj block w)
  unfolding submit_aux
  submit_aux-Keeps x saj block w =
      if-Keeps _ w w _ (Keeps-refl w) (then_emit w _ _ (session-Keeps w _ refl refl refl refl))

  if-IfDone :
      (b : Bool) (w : World D) (o p : Option (World D))
      → IfDone w o
      → IfDone w p
      → IfDone w (if b then o else p)
  if-IfDone true w o p h k = h
  if-IfDone false w o p h k = k

  bind-IfDone :
      {A : Type 0} (o : Option A) (f : A → Option (World D)) (w : World D)
      → ((a : A) → IfDone w (f a))
      → IfDone w (o >>= f)
  bind-IfDone none f w h = raised
  bind-IfDone (some a) f w h = h a

  against_target-IfDone :
      (x : Solved D) (saj : SessionAuxJob) (target : Bytes) (w : World D)
      → IfDone w (against_target env x saj target w)
  unfolding against_target
  against_target-IfDone x saj target w =
      if-IfDone (at_most x.hash_be target) w _ _
        (bind-IfDone (doge_block env x saj) _ w (λ block. done (submit_aux-Keeps x saj block w)))
        (done (Keeps-refl w))

  with_aux_job-IfDone :
      (x : Solved D) (o : Option SessionAuxJob) (w : World D) → IfDone w (with_aux_job env x o w)
  unfolding with_aux_job
  with_aux_job-IfDone x none w = done (Keeps-refl w)
  with_aux_job-IfDone x (some saj) w =
      if-IfDone (not (length saj.aux_target == 64) || not w.session.has_aux_client) w _ _
        (done (Keeps-refl w))
        (bind-IfDone (hex_to_bytes saj.aux_target) _ w
          (λ target. against_target-IfDone x saj target w))

  pub maybe_submit_aux_block-IfDone :
      (x : Solved D) (w : World D) → IfDone w (maybe_submit_aux_block env x w)
  unfolding maybe_submit_aux_block
  maybe_submit_aux_block-IfDone x w = with_aux_job-IfDone x (aux_job_for env w.session x) w

  emit_redirected-Keeps :
      (job : MiningJob D) (clean : Bool) (z : Option ZcashJob) (w : World D)
      → Keeps w (emit_redirected env job clean z w)
  unfolding emit_redirected
  emit_redirected-Keeps job clean none w = emit-Keeps _ w
  emit_redirected-Keeps job clean (some j) w =
      then_emit w _ _ (session-Keeps w _ refl refl refl refl)

  pub emit_job-Keeps :
      (job : MiningJob D) (force : Bool) (w : World D) → Keeps w (emit_job env job force w)
  unfolding emit_job emit_zcash
  emit_job-Keeps job force w =
      if-Keeps _ w _ _ (emit_redirected-Keeps job (job.clean_jobs || force) _ w) (emit-Keeps _ w)

  pub emit_latest-Keeps : (j : Option (MiningJob D)) (w : World D) → Keeps w (emit_latest env j w)
  unfolding emit_latest
  emit_latest-Keeps none w = Keeps-refl w
  emit_latest-Keeps (some job) w = emit_job-Keeps job true w

  pub send_set_difficulty-Keeps :
      (clock : Clock) (d : D) (old : Option D) (w : World D)
      → Keeps w (send_set_difficulty env clock d old w)
  unfolding send_set_difficulty
  send_set_difficulty-Keeps clock d old w =
      let first = then_emit w _ (set_difficulty (env.real.round d)) (
        session-Keeps w
          (record w.session {
            last_difficulty = elim old [ none ↦ d | some o ↦ o ];
            last_difficulty_change = clock.now;
          })
          refl refl refl refl) in
      let sent =
        if-Keeps (is_zcash w.session.coin.chain) w _ _
          (then_emit w _ (set_target (env.real.round d)) first) first in
      if-Keeps _ w _ _ (Keeps-trans w _ _ sent (emit_latest-Keeps (latest_job w.stratifier) _)) sent
