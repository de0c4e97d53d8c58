-- ===== src/Session/Registers.antt =====
-- The table of shares under a submit.
use yumtech_umbrel_apps.Prelude.{
  ℕ, ◌+◌, ◌≤◌, ◌≡◌, refl, ap, ◌∙◌, inl, inr, ◌⊎◌, Bool, true, false, List, [], ◌∷◌, Option,
  Bool-cases, if◌then◌else◌, length, ltb, ltb→lt, ◌==◌, ==_refl, arith,
}
use yumtech_umbrel_apps.Prelude.Texts.{Text, text_eq, codes}
use yumtech_umbrel_apps.Hex.{bytes_to_hex}
use yumtech_umbrel_apps.Stratifier.{
  Stratifier, contains, share_cap, capped, insert_new, register_share, note_share_diff,
}
use yumtech_umbrel_apps.StratumProtocol.{Json}
use yumtech_umbrel_apps.Session.{Outside, Clock, World}
use yumtech_umbrel_apps.Session.Counts.{
  submit_if_solved-Keeps, try_aux-Keeps, tick_vardiff-Keeps, persist-Keeps,
}
use yumtech_umbrel_apps.Session.Submit.{Checked, passed, rejected, threw, Share, check_share}
use yumtech_umbrel_apps.Session.Submit.Judge

abbrev pub seen : {D : Type 0} → World D → List Text
seen w = w.stratifier.seen_shares

-- The hash of a share that was accepted: the counter of the session has changed.
abbrev pub accepted_hash : {D : Type 0} → Checked (Share D) → World D → World D → List Text
accepted_hash (passed x) w w' =
    if w'.session.shares_accepted == w.session.shares_accepted
    then []
    else bytes_to_hex x.hash_be ∷ []
accepted_hash (rejected code reason) w w' = []
accepted_hash threw w w' = []

-- What a submit did to the table: nothing, with no share accepted, or it has a new hash.
data Outcome {D : Type 0} (h : Text) (w w' : World D) : Type 0 where
  same : seen w' ≡ seen w → w'.session.shares_accepted ≡ w.session.shares_accepted → Outcome h w w'
  new : contains h (seen w) ≡ false → seen w' ≡ h ∷ seen w → Outcome h w w'

module _ {D : Type 0} (env : Outside D) where
  capped_small : (ss : List Text) → length ss ≤ share_cap → capped ss ≡ ss
  unfolding capped
  capped_small ss h = elim (Bool-cases (ltb share_cap (length ss))) [
    | inl big ↦ absurd (omega (arith, ltb→lt share_cap (length ss) big))
    | inr small ↦ rw small refl
  ]

  insert_new-cases :
      (t : Text) (ss : List Text)
      → ((insert_new t ss ≡ (ss, false))
          ⊎ ((contains t ss ≡ false) × (insert_new t ss ≡ (t ∷ ss, true))))
  unfolding insert_new
  insert_new-cases t ss = elim (Bool-cases (contains t ss)) [
    | inl there ↦ inl (rw there refl)
    | inr absent ↦ inr (absent, rw absent refl)
  ]

  note_share_diff-seen :
      (d : D) (s : Stratifier D) → (note_share_diff env.real d s).seen_shares ≡ s.seen_shares
  unfolding note_share_diff
  note_share_diff-seen d s = ground arith

  reject-leaves :
      (clock : Clock) (code : ℕ) (reason : Text) (w : World D)
      → (seen (Judge.reject clock code reason w) ≡ seen w)
        × ((Judge.reject clock code reason w).session.shares_accepted ≡ w.session.shares_accepted)
  unfolding Judge.reject Judge.after_invalid Judge.on_disconnect_local
  reject-leaves clock code reason w = ground arith

  stale_at-leaves :
      (first : Bool) (clock : Clock) (x : Share D) (w : World D)
      → (seen (Judge.stale_at env first clock x w).0 ≡ seen w)
        × ((Judge.stale_at env first clock x w).0.session.shares_accepted
            ≡ w.session.shares_accepted)
  unfolding Judge.stale_at Judge.refuse
  stale_at-leaves false clock x w = (refl, refl)
  stale_at-leaves true clock x w =
      let sent = submit_if_solved-Keeps env clock x w in
      let v = Judge.submit_if_solved env clock x w in
      let tried = try_aux-Keeps env x v in
      let behind = refused (Judge.try_aux env x v) in
      (
        behind.0
            ∙ ap (λ s. s.seen_shares) tried.same_stratifier
            ∙ ap (λ s. s.seen_shares) sent.same_stratifier,
        behind.1 ∙ tried.same_accepted ∙ sent.same_accepted,
      )
    where
      refused :
          (h : Judge.Handled D)
          → (seen (Judge.unless_raised env (Judge.stale_reply env) h).0 ≡ seen h.0)
            × ((Judge.unless_raised env (Judge.stale_reply env) h).0.session.shares_accepted
                ≡ h.0.session.shares_accepted)
      refused (u, true) = (refl, refl)
      refused (u, false) = (refl, refl)

  judge_low-leaves :
      (clock : Clock) (x : Share D) (w : World D)
      → (seen (Judge.judge_low env clock x w) ≡ seen w)
        × ((Judge.judge_low env clock x w).session.shares_accepted ≡ w.session.shares_accepted)
  unfolding Judge.judge_low
  judge_low-leaves clock x w =
      let sent = submit_if_solved-Keeps env clock x w in
      let left =
        reject-leaves clock 23 (codes "low difficulty share")
          (Judge.submit_if_solved env clock x w) in
      (left.0 ∙ ap (λ s. s.seen_shares) sent.same_stratifier, left.1 ∙ sent.same_accepted)

  last_step-seen :
      (clock : Clock) (x : Share D) (h : Judge.Handled D)
      → seen (Judge.unless_raised env (Judge.submit_if_solved env clock x) h).0 ≡ seen h.0
  last_step-seen clock x (w, true) = refl
  last_step-seen clock x (w, false) =
      ap (λ s. s.seen_shares) (submit_if_solved-Keeps env clock x w).same_stratifier

  accept-seen :
      (clock : Clock) (x : Share D) (w : World D) → seen (Judge.accept env clock x w).0 ≡ seen w
  unfolding Judge.accept Judge.credit
  accept-seen clock x w =
      let target =
        Judge.target_difficulty env clock w.session
          (Judge.difficulty_of env w.session.coin.chain x.hash_be) in
      let credited = Judge.credit env x w in
      let ticked = Judge.tick_vardiff env clock target x credited in
      let counted = Judge.persist env target x ticked in
      last_step-seen clock x (Judge.try_aux env x counted)
      ∙ ap (λ s. s.seen_shares)
          ((try_aux-Keeps env x counted).same_stratifier
            ∙ (persist-Keeps env target x ticked).same_stratifier
            ∙ (tick_vardiff-Keeps env clock target x credited).same_stratifier)
      ∙ note_share_diff-seen _ w.stratifier

  register-cases :
      (x : Share D) (w : World D)
      → length (seen w) ≤ share_cap
      → ((Judge.register env x w).1 ≡ false) × (seen (Judge.register env x w).0 ≡ seen w)
        ⊎ ((Judge.register env x w).1 ≡ true)
          × (contains (bytes_to_hex x.hash_be) (seen w) ≡ false)
          × (seen (Judge.register env x w).0 ≡ bytes_to_hex x.hash_be ∷ seen w)
  unfolding register_share
  register-cases x w small =
      let h = bytes_to_hex x.hash_be in
      let c = ap (insert_new h) (capped_small (seen w) small) in
      elim (insert_new-cases h (seen w)) [
        | inl e ↦ inl (ap (λ r. r.1) (c ∙ e), ap (λ r. r.0) (c ∙ e))
        | inr (absent, e) ↦ inr (ap (λ r. r.1) (c ∙ e), absent, ap (λ r. r.0) (c ∙ e))
      ]

  judge_at-Outcome :
      (stale low : Bool) (clock : Clock) (x : Share D) (w : World D)
      → length (seen w) ≤ share_cap
      → Outcome (bytes_to_hex x.hash_be) w (Judge.judge_at env stale low clock x w).0
  unfolding Judge.judge_at Judge.judge_stale Judge.judge_current
  judge_at-Outcome false true clock x w small =
      same (judge_low-leaves clock x w).0 (judge_low-leaves clock x w).1
  judge_at-Outcome true low clock x w small =
      let v = (Judge.register env x w).0 in
      let left = stale_at-leaves (Judge.register env x w).1 clock x v in
      elim (register-cases x w small) [
        | inl (first, e) ↦ same (left.0 ∙ e) left.1
        | inr (first, absent, e) ↦ new absent (left.0 ∙ e)
      ]
  judge_at-Outcome false false clock x w small =
      let v = (Judge.register env x w).0 in
      elim (register-cases x w small) [
        | inl (first, e) ↦ rw first (unfold Judge.current_at Judge.refuse in same e refl)
        | inr (first, absent, e) ↦
            rw first (unfold Judge.current_at in new absent (accept-seen clock x v ∙ e))
      ]

-- What a submit adds to the accepted hashes and to the table.
pub data Added {D : Type 0} (hs : List Text) (w w' : World D) : Type 0 where
  none_added :
      hs ≡ []
      → length (seen w') ≤ length (seen w) + 1
      → ((t : Text) → contains t (seen w) ≡ true → contains t (seen w') ≡ true)
      → Added hs w w'
  one_added :
      (h : Text) → hs ≡ h ∷ [] → contains h (seen w) ≡ false → seen w' ≡ h ∷ seen w → Added hs w w'

pub contains-more :
    (t h : Text) (ss : List Text) → contains t ss ≡ true → contains t (h ∷ ss) ≡ true
unfolding contains
contains-more t h ss e = elim (Bool-cases (text_eq h t)) [ inl eq ↦ rw eq refl | inr ne ↦ rw ne e ]

module _ {D : Type 0} (env : Outside D) where
  passed-Added :
      (x : Share D) (w w' : World D)
      → Outcome (bytes_to_hex x.hash_be) w w'
      → Added (accepted_hash (passed x) w w') w w'
  passed-Added x w w' (same s a) =
      none_added (rw a (rw (==_refl w.session.shares_accepted) refl)) (rw s (omega arith))
        (λ t h. rw s h)
  passed-Added x w w' (new absent s) =
      elim (Bool-cases (w'.session.shares_accepted == w.session.shares_accepted)) [
        | inl unchanged ↦
            none_added (rw unchanged refl) (rw s (omega arith))
              (λ t h. rw s (contains-more t (bytes_to_hex x.hash_be) (seen w) h))
        | inr counted ↦ one_added (bytes_to_hex x.hash_be) (rw counted refl) absent s
      ]

  handle_checked-Added :
      (clock : Clock) (c : Checked (Share D)) (w : World D)
      → length (seen w) ≤ share_cap
      → Added
          (accepted_hash c w (Judge.handle_checked env clock c w).0)
          w
          (Judge.handle_checked env clock c w).0
  unfolding Judge.handle_checked Judge.judge
  handle_checked-Added clock (passed x) w small =
      passed-Added x w _
        (judge_at-Outcome env x.stale_by_block (Judge.is_low env clock w.session x) clock x w small)
  handle_checked-Added clock (rejected code reason) w small =
      let left = reject-leaves env clock code reason w in
      none_added refl (rw left.0 (omega arith)) (λ t h. rw left.0 h)
  handle_checked-Added clock threw w small = none_added refl (omega arith) (λ t h. h)

  pub handle_submit-Added :
      {J N : Type 0} (json : Json J N) (clock : Clock) (params : Option J) (w : World D)
      → length (seen w) ≤ share_cap
      → Added
          (accepted_hash
            (check_share env json clock w params)
            w
            (Judge.handle_submit env json clock params w).0)
          w
          (Judge.handle_submit env json clock params w).0
  unfolding Judge.handle_submit
  handle_submit-Added json clock params w small =
      handle_checked-Added clock (check_share env json clock w params) w small
