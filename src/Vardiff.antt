-- ===== src/Vardiff.antt =====
-- Variable difficulty: yumtech/mkpool-src/src/vardiff.hpp and vardiff.cpp, over the floating-point
-- operations as a parameter. Times are nanoseconds of the steady clock, and `none` is the time that
-- is not set. `target_share_rate_hz` and `tau_seconds` are not read.
pub mod Bounds
use yumtech_umbrel_apps.Prelude.{
  ℕ, ◌+◌, ◌-◌, Bool, ◌&&◌, Option, none, some, ltb, leb, ◌==◌, if◌then◌else◌,
}
use yumtech_umbrel_apps.Reals.{Reals}

pub record VarDiffConfig (D : Type 0) : Type 0 where
  pub min_difficulty : D
  pub max_difficulty : D

pub record VarDiff (D : Type 0) : Type 0 where
  pub cfg : VarDiffConfig D
  pub current_diff : D
  pub dsps1 : D
  pub dsps5 : D
  pub first_share : Option ℕ
  pub last_share : Option ℕ
  pub last_diff_change : Option ℕ
  pub ssdc : ℕ

abbrev pub shares_per_check : ℕ
shares_per_check = 72

module _ {D : Type 0} (real : Reals D) where
  -- `std::max` and `std::min`, and `std::clamp`.
  abbrev pub greater : D → D → D
  greater a b = if real.lt a b then b else a

  abbrev pub lesser : D → D → D
  lesser a b = if real.lt b a then b else a

  abbrev pub clamp : D → D → D → D
  clamp v lo hi = if real.lt v lo then lo else if real.lt hi v then hi else v

  abbrev one : D
  one = real.of_nat 1

  -- `dexp` with its bound.
  abbrev bounded : D → D
  bounded dexp = if real.lt (real.of_nat 36) dexp then real.of_nat 36 else dexp

  unfoldable pub decay_time : D → D → D → D → D
  decay_time f fadd fsecs interval =
      if real.lt (real.of_nat 0) fsecs
      then (let fprop =
            real.sub one (real.div one (real.exp (bounded (real.div fsecs interval)))) in
          let ftotal = real.add one fprop in
          let f1 = real.div (real.add f (real.mul (real.div fadd fsecs) fprop)) ftotal in
          if real.lt f1 (real.ratio 2 10_000_000_000_000_000) then real.of_nat 0 else f1)
      else f

  unfoldable pub time_bias : D → D → D
  time_bias tdiff period = real.sub one (real.div one (real.exp (bounded (real.div tdiff period))))

  -- The floor of `sane_tdiff`.
  abbrev floored : D → D
  floored s = if real.lt s (real.ratio 1 1000) then real.ratio 1 1000 else s

  -- The clock does not go back, so the difference is that of the numbers. A time that is not set is
  -- that of the clock's start.
  unfoldable pub secs_since : ℕ → Option ℕ → D
  secs_since a none = floored (real.ratio a 1_000_000_000)
  secs_since a (some b) = floored (real.ratio (a - b) 1_000_000_000)

  unfoldable pub init : VarDiffConfig D → D → VarDiff D
  init cfg initial_difficulty = record {
    cfg = cfg;
    current_diff = clamp (real.round initial_difficulty) cfg.min_difficulty cfg.max_difficulty;
    dsps1 = real.of_nat 0;
    dsps5 = real.of_nat 0;
    first_share = none;
    last_share = none;
    last_diff_change = none;
    ssdc = 0;
  }

  -- The first share of a session.
  abbrev pub seeded : ℕ → VarDiff D → VarDiff D
  seeded now v = record v {
    first_share = some now;
    last_share = some now;
    last_diff_change = some now;
    ssdc = 1;
  }

  -- The estimates after a share.
  unfoldable pub observed : ℕ → D → VarDiff D → VarDiff D
  unfolding decay_time secs_since
  observed now diff v =
      let dt = secs_since now v.last_share in
      record v {
        last_share = some now;
        dsps1 = decay_time v.dsps1 diff dt (real.of_nat 60);
        dsps5 = decay_time v.dsps5 diff dt (real.of_nat 300);
        ssdc = v.ssdc + 1;
      }

  -- The estimated rate, corrected for the session's age.
  unfoldable pub rate : ℕ → VarDiff D → D
  unfolding time_bias secs_since
  rate now v =
      let age = secs_since now v.first_share in
      if leb shares_per_check v.ssdc
      then real.div v.dsps1 (time_bias age (real.of_nat 60))
      else real.div v.dsps5 (time_bias age (real.of_nat 300))

  -- The difficulty for a rate, within the limits that are set.
  unfoldable pub optimal : VarDiffConfig D → D → D → D
  optimal cfg dsps network_diff =
      let a = greater (real.round (real.mul dsps (real.ratio 333 100))) cfg.min_difficulty in
      let b =
        if real.lt (real.of_nat 0) cfg.max_difficulty then lesser a cfg.max_difficulty else a in
      if real.lt (real.of_nat 0) network_diff then lesser b network_diff else b

  -- The part behind the throttle, for the share's state.
  unfoldable pub retarget : ℕ → D → D → VarDiff D → VarDiff D × Option D
  unfolding rate optimal
  retarget now diff network_diff v =
      let dsps = rate now v in
      let drr = real.div dsps v.current_diff in
      let best = optimal v.cfg dsps network_diff in
      if real.eq diff v.current_diff
      then if real.lt (real.ratio 15 100) drr && real.lt drr (real.ratio 40 100)
        then (v, none)
        else if real.lt best one
        then (v, none)
        else if real.eq best v.current_diff
        then (v, none)
        else if real.lt best v.current_diff && v.ssdc == 1
        then (record v { last_diff_change = some now }, none)
        else (record v { ssdc = 0; last_diff_change = some now; current_diff = best }, some best)
      else (record v { ssdc = 0 }, none)

  unfoldable pub on_later_share : ℕ → D → D → VarDiff D → VarDiff D × Option D
  unfolding observed retarget secs_since
  on_later_share now diff network_diff v =
      let v1 = observed now diff v in
      if ltb v1.ssdc shares_per_check
        && real.lt (secs_since now v1.last_diff_change) (real.of_nat 240)
      then (v1, none)
      else retarget now diff network_diff v1

  unfoldable pub on_share : ℕ → D → D → VarDiff D → VarDiff D × Option D
  unfolding on_later_share
  on_share now diff network_diff v = elim v.first_share [
    | none ↦ (seeded now v, none)
    | some t ↦ on_later_share now diff network_diff v
  ]

  unfoldable pub set_current : D → VarDiff D → VarDiff D
  set_current diff v = record v {
    current_diff = diff;
    ssdc = 0;
    first_share = none;
    last_share = none;
    last_diff_change = none;
  }
