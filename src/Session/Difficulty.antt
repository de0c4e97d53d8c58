-- ===== src/Session/Difficulty.antt =====
-- The difficulty of a hash, and the one that a share has to meet, of `handle_submit` in
-- yumtech/mkpool-src/src/client_session.cpp.
use mathlib.Core.List.{reverse}
use yumtech_umbrel_apps.Prelude.{◌-◌, ◌^◌, Bool, ◌&&◌, not, [], ◌∷◌, if◌then◌else◌}
use yumtech_umbrel_apps.Session.{Bytes, Outside, Clock, Chain, Session, is_zcash, uses_scrypt}
use yumtech_umbrel_apps.Session.Submit.{Share}

module _ {D : Type 0} (env : Outside D) where
  -- `hash_as_d` of the bytes from the last one, with its `base`.
  unfoldable pub as_real : Bytes → D → D → D
  as_real [] acc base = acc
  as_real (b ∷ bs) acc base =
      as_real bs (env.real.add acc (env.real.mul (env.real.of_nat b) base))
        (env.real.mul base (env.real.of_nat 256))

  unfoldable pub max_target : Chain → D
  max_target chain =
      if is_zcash chain
      then env.real.mul (env.real.of_nat 524287) (env.real.of_nat (2 ^ 224))
      else if uses_scrypt chain
      then env.real.mul (env.real.of_nat 0xffff) (env.real.of_nat (2 ^ 224))
      else env.real.mul (env.real.of_nat 0xffff) (env.real.of_nat (2 ^ 208))

  -- The difficulty of a hash, and of the target of the network.
  unfoldable pub difficulty_of : Chain → Bytes → D
  unfolding as_real max_target
  difficulty_of chain be =
      let n = as_real (reverse be) (env.real.of_nat 0) (env.real.of_nat 1) in
      if env.real.lt (env.real.of_nat 0) n
      then env.real.div (max_target chain) n
      else env.real.of_nat 0

  abbrev pub tolerance : Chain → D
  tolerance chain = if is_zcash chain then env.real.ratio 90 100 else env.real.ratio 99 100

  -- The difficulty that a share has to meet: the former one, within its time of grace.
  unfoldable pub target_difficulty : Clock → Session D → D → D
  target_difficulty clock s share_diff =
      let current = s.vardiff.current_diff in
      let age = env.real.ratio (clock.now - s.last_difficulty_change) 1_000_000_000 in
      if env.real.lt share_diff current
        && (env.real.lt age (env.real.of_nat 40)
            && not
                (env.real.lt share_diff (env.real.mul s.last_difficulty (tolerance s.coin.chain))))
      then s.last_difficulty
      else current

  -- Is the share below the difficulty, with the tolerance of the chain?
  unfoldable pub is_low : Clock → Session D → Share D → Bool
  unfolding target_difficulty difficulty_of
  is_low clock s x =
      let d = difficulty_of s.coin.chain x.hash_be in
      env.real.lt d (env.real.mul (target_difficulty clock s d) (tolerance s.coin.chain))
