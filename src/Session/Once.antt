-- ===== src/Session/Once.antt =====
-- The hashes that were accepted since the last block, whatever sessions submitted them.
use yumtech_umbrel_apps.Prelude.{
  ℕ, ◌+◌, ◌≤◌, ◌≡◌, refl, sym, ap, ◌∙◌, inl, inr, true, false, List, [], ◌∷◌, ◌++◌, Option,
  Bool-cases, if◌then◌else◌, length, subst, All, arith,
}
use yumtech_umbrel_apps.Prelude.Texts.{Text, text_eq, text_eq_refl, text_eq→eq}
use yumtech_umbrel_apps.Reals.{Reals}
use yumtech_umbrel_apps.Stratifier.{MiningJob, Stratifier, contains, share_cap, publish}
use yumtech_umbrel_apps.StratumProtocol.{Json}
use yumtech_umbrel_apps.Session.{Outside, Clock, World}
use yumtech_umbrel_apps.Session.Submit.{check_share}
use yumtech_umbrel_apps.Session.Submit.Judge
use yumtech_umbrel_apps.Session.Registers.{
  seen, accepted_hash, Added, none_added, one_added, contains-more, handle_submit-Added,
}

abbrev pub IsDistinct : List Text → Type 0
IsDistinct [] = Unit
IsDistinct (t ∷ ts) = (contains t ts ≡ false) × IsDistinct ts

-- The stratifier with what was accepted, and how often was submitted, since the last block.
pub record Round (D : Type 0) : Type 0 where
  pub stratifier : Stratifier D
  pub accepted : List Text
  pub submits : ℕ

module _ {D J N : Type 0} (env : Outside D) (json : Json J N) where
  -- What happens in a round: some session handles a submit, and a job is published.
  pub data Reach : Round D → Type 0 where
    start :
        (s : Stratifier D)
        → s.seen_shares ≡ []
        → Reach (record { stratifier = s; accepted = []; submits = 0 })
    submitted :
        {r : Round D}
        → Reach r
        → (clock : Clock) (params : Option J) (w : World D) → w.stratifier ≡ r.stratifier
        → Reach (record {
          stratifier = (Judge.handle_submit env json clock params w).0.stratifier;
          accepted =
              accepted_hash
                (check_share env json clock w params)
                w
                (Judge.handle_submit env json clock params w).0
              ++ r.accepted;
          submits = r.submits + 1;
        })
    published :
        {r : Round D}
        → Reach r
        → (mj : MiningJob D) → text_eq mj.previousblockhash r.stratifier.last_prevhash ≡ true
        → Reach (record r { stratifier = publish env.real mj r.stratifier })
    next_block :
        {r : Round D}
        → Reach r
        → (mj : MiningJob D) → text_eq mj.previousblockhash r.stratifier.last_prevhash ≡ false
        → Reach
            (record { stratifier = publish env.real mj r.stratifier; accepted = []; submits = 0 })

contains-head : (h : Text) (ss : List Text) → contains h (h ∷ ss) ≡ true
unfolding contains
contains-head h ss = rw (text_eq_refl h) refl

-- A hash that is not in the table is not among those that are.
not_among :
    (h : Text) (ss acc : List Text)
    → contains h ss ≡ false
    → All (λ t. contains t ss ≡ true) acc
    → contains h acc ≡ false
unfolding contains
not_among h ss [] absent known = refl
not_among h ss (a ∷ acc) absent known = elim (Bool-cases (text_eq a h)) [
  | inl eq ↦
      absurd (true_ne_false (sym known.0 ∙ ap (λ t. contains t ss) (text_eq→eq a h eq) ∙ absent))
  | inr ne ↦ rw ne (not_among h ss acc absent known.1)
]
  where
    true_ne_false : true ≡ false → ⊥
    true_ne_false e = cc

All-map : (P Q : Text → Type 0) (ts : List Text) → ((t : Text) → P t → Q t) → All P ts → All Q ts
All-map P Q [] f h = tt
All-map P Q (t ∷ ts) f h = (f t h.0, All-map P Q ts f h.1)

-- What holds in every round that is not too long for the table.
record IsOnce {D : Type 0} (r : Round D) : Type 0 where
  distinct : IsDistinct r.accepted
  known : All (λ t. contains t r.stratifier.seen_shares ≡ true) r.accepted
  few : length r.stratifier.seen_shares ≤ r.submits

publish-seen :
    {D : Type 0} (real : Reals D) (mj : MiningJob D) (s : Stratifier D)
    → (publish real mj s).seen_shares
      ≡ (if text_eq mj.previousblockhash s.last_prevhash then s.seen_shares else [])
unfolding publish
publish-seen real mj s = elim (Bool-cases (text_eq mj.previousblockhash s.last_prevhash)) [
  | inl eq ↦ rw eq refl
  | inr ne ↦ rw ne refl
]

module _ {D : Type 0} (env : Outside D) where
  Added-IsOnce :
      (r : Round D) (hs : List Text) (w w' : World D)
      → w.stratifier ≡ r.stratifier
      → Added hs w w'
      → IsOnce r
      → IsOnce (record {
        stratifier = w'.stratifier;
        accepted = hs ++ r.accepted;
        submits = r.submits + 1;
      })
  Added-IsOnce r hs w w' at (none_added e few more) o = record {
    distinct = rw e o.distinct;
    known = rw e (All-map _ _ r.accepted (λ t h. more t (rw at h)) o.known);
    few = omega (arith, few, o.few, ap (λ s. length s.seen_shares) at);
  }
  Added-IsOnce r hs w w' at (one_added h e absent s) o =
      let known : All (λ t. contains t (seen w) ≡ true) r.accepted =
        subst (λ u. All (λ t. contains t u.seen_shares ≡ true) r.accepted) (sym at) o.known in
      record {
        distinct = rw e (not_among h (seen w) r.accepted absent known, o.distinct);
        known = rw e (
            subst (λ ss. All (λ t. contains t ss ≡ true) (h ∷ r.accepted)) (sym s)
              (
                contains-head h (seen w),
                All-map _ _ r.accepted (λ t k. contains-more t h (seen w) k) known,
              ));
        few =
            omega (
              arith,
              ap (λ (ts : List Text). length ts) s,
              o.few,
              ap (λ s. length s.seen_shares) at,
            );
      }

  cleared :
      (mj : MiningJob D) (s : Stratifier D)
      → text_eq mj.previousblockhash s.last_prevhash ≡ false
      → (publish env.real mj s).seen_shares ≡ []
  cleared mj s other = publish-seen env.real mj s ∙ ap (λ b. if b then s.seen_shares else []) other

  kept :
      (mj : MiningJob D) (s : Stratifier D)
      → text_eq mj.previousblockhash s.last_prevhash ≡ true
      → (publish env.real mj s).seen_shares ≡ s.seen_shares
  kept mj s same = publish-seen env.real mj s ∙ ap (λ b. if b then s.seen_shares else []) same

module _ {D J N : Type 0} (env : Outside D) (json : Json J N) where
  Reach-IsOnce : {r : Round D} → Reach env json r → r.submits ≤ share_cap → IsOnce r
  Reach-IsOnce (start s empty) few = record {
    distinct = tt;
    known = tt;
    few = omega (arith, ap (λ (ts : List Text). length ts) empty);
  }
  Reach-IsOnce (submitted {r} reach clock params w at) few =
      let o = Reach-IsOnce reach (omega arith) in
      Added-IsOnce env r
        (accepted_hash (check_share env json clock w params) w
          (Judge.handle_submit env json clock params w).0)
        w (Judge.handle_submit env json clock params w).0 at
        (handle_submit-Added env json clock params w
          (omega (arith, o.few, ap (λ s. length s.seen_shares) at)))
        o
  Reach-IsOnce (published {r} reach mj same) few =
      let o = Reach-IsOnce reach few in
      let e = kept env mj r.stratifier same in
      record {
        distinct = o.distinct;
        known = subst (λ ss. All (λ t. contains t ss ≡ true) r.accepted) (sym e) o.known;
        few = omega (arith, o.few, ap (λ (ts : List Text). length ts) e);
      }
  Reach-IsOnce (next_block {r} reach mj other) few = record {
    distinct = tt;
    known = tt;
    few = omega (arith, ap (λ (ts : List Text). length ts) (cleared env mj r.stratifier other));
  }

  -- Since the last block no hash was accepted twice, whatever sessions submitted and however often,
  -- as long as the round has at most a million submits.
  pub Reach-IsDistinct :
      {r : Round D} → Reach env json r → r.submits ≤ 1_000_000 → IsDistinct r.accepted
  Reach-IsDistinct reach few = (Reach-IsOnce reach few).distinct
