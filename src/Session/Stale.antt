-- ===== src/Session/Stale.antt =====
-- What a share of a former block leaves alone.
use yumtech_umbrel_apps.Prelude.{◌≡◌, refl, sym, ap, ◌∙◌, Bool, true, false, subst}
use yumtech_umbrel_apps.Stratifier.{register_share}
use yumtech_umbrel_apps.Session.{Outside, Clock, World}
use yumtech_umbrel_apps.Session.Keeps.{Keeps}
use yumtech_umbrel_apps.Session.Counts.{submit_if_solved-Keeps, try_aux-Keeps}
use yumtech_umbrel_apps.Session.Submit.{Share}
use yumtech_umbrel_apps.Session.Submit.Judge

-- No share is accepted, no invalid one is held against the address, and the best share stays.
abbrev pub IsUncredited : {D : Type 0} → World D → World D → Type 0
IsUncredited w w' =
    (w'.session.shares_accepted ≡ w.session.shares_accepted)
    × (w'.limiter ≡ w.limiter)
    × (w'.stratifier.best_share_round ≡ w.stratifier.best_share_round)

module _ {D : Type 0} (env : Outside D) where
  refused-IsUncredited :
      (h : Judge.Handled D) → IsUncredited h.0 (Judge.unless_raised env (Judge.stale_reply env) h).0
  unfolding Judge.refuse
  refused-IsUncredited (w, true) = (refl, refl, refl)
  refused-IsUncredited (w, false) = (refl, refl, refl)

  Keeps-IsUncredited : (w w' : World D) → Keeps w w' → IsUncredited w w'
  Keeps-IsUncredited w w' k =
      (k.same_accepted, k.same_limiter, ap (λ s. s.best_share_round) k.same_stratifier)

  IsUncredited-trans : (u v w : World D) → IsUncredited u v → IsUncredited v w → IsUncredited u w
  IsUncredited-trans u v w (a, l, b) (a', l', b') = (a' ∙ a, l' ∙ l, b' ∙ b)

  stale_at-IsUncredited :
      (first : Bool) (clock : Clock) (x : Share D) (w : World D)
      → IsUncredited w (Judge.stale_at env first clock x w).0
  unfolding Judge.stale_at Judge.refuse
  stale_at-IsUncredited false clock x w = (refl, refl, refl)
  stale_at-IsUncredited true clock x w =
      let v = Judge.submit_if_solved env clock x w in
      let h = Judge.try_aux env x v in
      IsUncredited-trans w h.0 (Judge.unless_raised env (Judge.stale_reply env) h).0
        (IsUncredited-trans w v h.0 (Keeps-IsUncredited w v (submit_if_solved-Keeps env clock x w))
          (Keeps-IsUncredited v h.0 (try_aux-Keeps env x v)))
        (refused-IsUncredited h)

  -- A share of a former block is not credited: the accepted shares, the best share of the round and
  -- the rate limiter stay as they were.
  pub judge-IsUncredited :
      (clock : Clock) (x : Share D) (w : World D)
      → x.stale_by_block ≡ true
      → IsUncredited w (Judge.judge env clock x w).0
  unfolding Judge.judge Judge.judge_at Judge.judge_stale register_share
  judge-IsUncredited clock x w stale =
      subst
        (λ b.
          IsUncredited w (Judge.judge_at env b (Judge.is_low env clock w.session x) clock x w).0)
        (sym stale)
        (stale_at-IsUncredited (Judge.register env x w).1 clock x (Judge.register env x w).0)
