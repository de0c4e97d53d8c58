-- ===== src/Vardiff/Bounds.antt =====
-- What difficulty a retarget can set.
use yumtech_umbrel_apps.Prelude.{◌≡◌, true, false, Option, some}
use yumtech_umbrel_apps.Reals.{Reals}
use yumtech_umbrel_apps.Vardiff.{VarDiff}

module _ {D : Type 0} (real : Reals D) where
  -- `b` is not below `a`.
  abbrev pub AtMost : D → D → Type 0
  AtMost a b = real.lt b a ≡ false

  -- What the theorems ask of `<`: nothing is below itself, and it is transitive with its negation.
  pub record IsOrder : Type 0 where
    pub irreflexive : (a : D) → real.lt a a ≡ false
    pub AtMost-trans : (a b c : D) → AtMost a b → AtMost b c → AtMost a c
    pub lt-AtMost : (a b : D) → real.lt a b ≡ true → AtMost a b

  module _ (order : IsOrder) where
    -- A change that is reported is the new difficulty, and is this one.
    abbrev Sets : D → VarDiff D × Option D → Type 0
    Sets best r = (d : D) → r.1 ≡ some d → (r.0.current_diff ≡ d) × (best ≡ d)

    -- What a result of a share may be: no change, or one within both limits.
    abbrev IsWithin : D → D → VarDiff D × Option D → Type 0
    IsWithin max net r =
        (d : D) → r.1 ≡ some d → (r.0.current_diff ≡ d) × AtMost d max × AtMost d net
