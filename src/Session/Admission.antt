-- ===== src/Session/Admission.antt =====
-- Whom a session works for: what holds of a Stratum V1 session however its lines, the answers of the
-- nodes, jobs and the end of the connection follow on each other, under one state of the blacklist.
use yumtech_umbrel_apps.Prelude.{
  ℕ, ◌≡◌, refl, sym, ◌∙◌, Bool, true, false, List, [], ◌∷◌, ◌++◌, Option, none, some, All, subst,
}
use yumtech_umbrel_apps.Prelude.Texts.{Text}
use yumtech_umbrel_apps.Blacklist.{Blacklist}
use yumtech_umbrel_apps.RateLimiter.{RateLimiter}
use yumtech_umbrel_apps.StratumProtocol.{Json}
use yumtech_umbrel_apps.Stratifier.{MiningJob, Stratifier}
use yumtech_umbrel_apps.Session.{Outside, Clock, World}
use yumtech_umbrel_apps.Session.Works.{on_disconnect_local-IsIdle}
use yumtech_umbrel_apps.Session.Replies.{on_disconnect_local}
use yumtech_umbrel_apps.Session.Notify.{notify_new_job}
use yumtech_umbrel_apps.Session.Authorize.{Pending, on_validated, on_aux_validated}
use yumtech_umbrel_apps.Session.Lines.{Line, process_line}
use yumtech_umbrel_apps.Session.LetIn.{IsChecked}
use yumtech_umbrel_apps.Session.Idles.{notify_new_job-IsIdle}
use yumtech_umbrel_apps.Session.Guards.{
  queued, IsGuarded, IsIdle-IsGuarded, on_validated-IsSafe, on_aux_validated-IsGuarded,
  process_line-IsSafe,
}

module _ {D J : Type 0} (env : Outside D) (json : Json J D) (b : Blacklist) where
  -- A session with what waits for the node and for that of the merge-mined chain. Answers come in any
  -- order; between two steps other sessions change what is shared.
  pub data Reach : World D → List (Pending D) → List (Pending D) → Type 0 where
    opened :
        (w : World D) → w.session.authorized ≡ false → w.session.shares_accepted ≡ 0 → Reach w [] []
    line :
        {w : World D} {ps qs : List (Pending D)}
        → Reach w ps qs
        → (clock : Clock) (l : Line J)
        → Reach
            (process_line env json b clock l w).0
            (queued (process_line env json b clock l w).1 ps)
            qs
    validated :
        {w : World D} {ps qs : List (Pending D)}
        → Reach w ps qs
        → (pre post : List (Pending D)) (p : Pending D) → ps ≡ pre ++ (p ∷ post)
        → (clock : Clock) (miner : ℕ) (failure : Option Text)
        → Reach
            (on_validated env clock miner p failure w).0
            (pre ++ post)
            (queued (on_validated env clock miner p failure w).1 qs)
    aux_validated :
        {w : World D} {ps qs : List (Pending D)}
        → Reach w ps qs
        → (pre post : List (Pending D)) (p : Pending D) → qs ≡ pre ++ (p ∷ post)
        → (clock : Clock) (miner : ℕ) (valid : Bool)
        → Reach (on_aux_validated env clock miner p valid w) ps (pre ++ post)
    notified :
        {w : World D} {ps qs : List (Pending D)}
        → Reach w ps qs
        → (job : MiningJob D) (w' : World D) → notify_new_job env job w ≡ some w'
        → Reach w' ps qs
    ended :
        {w : World D} {ps qs : List (Pending D)}
        → Reach w ps qs
        → (reason : Text) → Reach (on_disconnect_local reason w) ps qs
    elsewhere :
        {w : World D} {ps qs : List (Pending D)}
        → Reach w ps qs
        → (stratifier : Stratifier D) (limiter : RateLimiter)
        → Reach (record w { stratifier = stratifier; limiter = limiter }) ps qs

  pub record Guards (w : World D) (ps qs : List (Pending D)) : Type 0 where
    pub guarded : IsGuarded env json b w
    pub waiting : All (IsChecked env json b) ps
    pub confirming : All (IsChecked env json b) qs

  queued-All :
      (o : Option (Pending D)) (ps : List (Pending D))
      → All (IsChecked env json b) (queued o [])
      → All (IsChecked env json b) ps
      → All (IsChecked env json b) (queued o ps)
  queued-All none ps h k = k
  queued-All (some p) ps (h, u) k = (h, k)

  All-middle :
      (pre post : List (Pending D)) (p : Pending D)
      → All (IsChecked env json b) (pre ++ (p ∷ post))
      → IsChecked env json b p × All (IsChecked env json b) (pre ++ post)
  All-middle [] post p h = h
  All-middle (q ∷ pre) post p (h, k) = let (x, y) = All-middle pre post p k in (x, (h, y))

  Reach-Guards : {w : World D} {ps qs : List (Pending D)} → Reach w ps qs → Guards w ps qs
  Reach-Guards (opened w off zero_credit) = record {
    guarded = record {
      admitted = λ on. absurd (true_false (sym on ∙ off));
      uncredited = λ o. zero_credit;
    };
    waiting = tt;
    confirming = tt;
  }
    where
      true_false : true ≡ false → ⊥
      true_false e = cc
  Reach-Guards {qs = qs} (line {w} {ps} r clock l) =
      let g = Reach-Guards r in
      let (h, checked) = process_line-IsSafe env json b clock l w g.guarded in
      record {
        guarded = h;
        waiting = queued-All (process_line env json b clock l w).1 ps checked g.waiting;
        confirming = g.confirming;
      }
  Reach-Guards (validated {w} {ps} {qs} r pre post p e clock miner failure) =
      let g = Reach-Guards r in
      let (known, others) =
        All-middle pre post p (subst (All (IsChecked env json b)) e g.waiting) in
      let (h, checked) = on_validated-IsSafe env json b clock miner p failure w known g.guarded in
      record {
        guarded = h;
        waiting = others;
        confirming =
            queued-All (on_validated env clock miner p failure w).1 qs checked g.confirming;
      }
  Reach-Guards (aux_validated {w} r pre post p e clock miner valid) =
      let g = Reach-Guards r in
      let (known, others) =
        All-middle pre post p (subst (All (IsChecked env json b)) e g.confirming) in
      record {
        guarded = on_aux_validated-IsGuarded env json b clock miner p valid w known g.guarded;
        waiting = g.waiting;
        confirming = others;
      }
  Reach-Guards (notified {w} r job w' e) =
      let g = Reach-Guards r in
      record {
        guarded =
            IsIdle-IsGuarded env json b w w' (notify_new_job-IsIdle env json job w w' e) g.guarded;
        waiting = g.waiting;
        confirming = g.confirming;
      }
  Reach-Guards (ended {w} r reason) =
      let g = Reach-Guards r in
      record {
        guarded =
            IsIdle-IsGuarded env json b w (on_disconnect_local reason w)
              (on_disconnect_local-IsIdle reason w) g.guarded;
        waiting = g.waiting;
        confirming = g.confirming;
      }
  Reach-Guards (elsewhere {w} r stratifier limiter) =
      let g = Reach-Guards r in
      record {
        guarded = IsIdle-IsGuarded env json b w _ ((refl, refl), refl) g.guarded;
        waiting = g.waiting;
        confirming = g.confirming;
      }

  -- However lines, answers of the nodes, jobs and the end follow on each other: a session that is
  -- authorized works for an address that decodes and a worker whom the blacklist lets in, and pays to
  -- the script of that address; until then no share of it is accepted.
  pub Reach-IsGuarded :
      {w : World D} {ps qs : List (Pending D)} → Reach w ps qs → IsGuarded env json b w
  Reach-IsGuarded r = (Reach-Guards r).guarded
