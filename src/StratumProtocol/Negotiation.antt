-- ===== src/StratumProtocol/Negotiation.antt =====
-- Which versions a miner may submit after `negotiate_configure`.
use yumtech_umbrel_apps.Prelude.{
  ℕ, ◌^◌, ◌<◌, ◌≡◌, refl, sym, ap, ◌∙◌, inl, inr, bit_and, true, List, [], ◌∷◌, Option, none, some,
  Bool-cases, Option-cases, ◌==◌, arith,
}
use yumtech_umbrel_apps.Prelude.Texts.{Text}
use yumtech_umbrel_apps.Prelude.And.{bit, bit-bit_and, bit_and-below, zero-bit_and}
use yumtech_umbrel_apps.StratumProtocol.{
  validate_version, Json, ConfigureResult, stoul, has_feature, mask_of, negotiate_versions,
  negotiate_rest, negotiate_params, negotiate_configure, version_rolling_name,
  minimum_difficulty_name, subscribe_extranonce_name, version_rolling_mask,
}
use yumtech_umbrel_apps.StratumProtocol.Versions.{validate_version-bits}

-- The mask is a part of the pool's.
abbrev IsWithin : ℕ → ℕ → Type 0
IsWithin mask pool = (m : ℕ) × (m < 2 ^ 32) × (mask ≡ bit_and m pool)

module _ {J N : Type 0} (json : Json J N) where
  mask_of-below : (o : Option J) → mask_of json o < 2 ^ 32
  unfolding mask_of
  mask_of-below none = omega arith
  mask_of-below (some v) = elim (Option-cases (json.text v)) [
    | inl e ↦ rw (e, mask_of) (omega arith)
    | inr (t, e) ↦
        rw (e, mask_of)
          (elim (Option-cases (stoul t)) [
            | inl f ↦ rw (f, mask_of) (omega arith)
            | inr (m, f) ↦ rw (f, mask_of) (omega arith)
          ])
  ]

  nothing-IsWithin : (pool : ℕ) → IsWithin 0 pool
  nothing-IsWithin pool = (0, omega arith, sym (zero-bit_and pool))

  negotiate_versions-IsWithin :
      (features : List J) (extra : Text → Option J) (pool : ℕ)
      → IsWithin (negotiate_versions json features extra pool).version_mask pool
  unfolding negotiate_versions
  negotiate_versions-IsWithin features extra pool =
      elim (Bool-cases (has_feature json features version_rolling_name)) [
        | inr unasked ↦ rw unasked (nothing-IsWithin pool)
        | inl asked ↦
            elim (Bool-cases (bit_and (mask_of json (extra version_rolling_mask)) pool == 0)) [
              | inl none_left ↦ rw (asked, none_left) (nothing-IsWithin pool)
              | inr some_left ↦
                  rw (asked, some_left)
                    (
                      mask_of json (extra version_rolling_mask),
                      mask_of-below (extra version_rolling_mask),
                      refl,
                    )
            ]
      ]

  negotiate_rest-mask :
      (features : List J) (extra : Text → Option J) (r : ConfigureResult N)
      → (negotiate_rest json features extra r).version_mask ≡ r.version_mask
  unfolding negotiate_rest
  negotiate_rest-mask features extra r =
      elim (Bool-cases (has_feature json features minimum_difficulty_name)) [
        | inl asked ↦ elim (Bool-cases (has_feature json features subscribe_extranonce_name)) [
          | inl also ↦ rw (asked, also) refl
          | inr not_that ↦ rw (asked, not_that) refl
        ]
        | inr unasked ↦ elim (Bool-cases (has_feature json features subscribe_extranonce_name)) [
          | inl also ↦ rw (unasked, also) refl
          | inr not_that ↦ rw (unasked, not_that) refl
        ]
      ]

  negotiate_params-IsWithin :
      (items : List J) (pool : ℕ) → IsWithin (negotiate_params json items pool).version_mask pool
  unfolding negotiate_params
  negotiate_params-IsWithin [] pool = nothing-IsWithin pool
  negotiate_params-IsWithin (a ∷ []) pool = nothing-IsWithin pool
  negotiate_params-IsWithin (a ∷ b ∷ more) pool = elim (Option-cases (json.elements a)) [
    | inl e ↦ rw (e, negotiate_params) (nothing-IsWithin pool)
    | inr (features, e) ↦
        rw (e, negotiate_params)
          (elim (Option-cases (json.members b)) [
            | inl f ↦ rw (f, negotiate_params) (nothing-IsWithin pool)
            | inr (extra, f) ↦
                rw
                  (
                    f,
                    negotiate_params,
                    negotiate_rest-mask features extra
                        (negotiate_versions json features extra pool),
                  )
                  (negotiate_versions-IsWithin features extra pool)
          ])
  ]

  negotiate_configure-IsWithin :
      (params : J) (pool : ℕ) → IsWithin (negotiate_configure json params pool).version_mask pool
  unfolding negotiate_configure
  negotiate_configure-IsWithin params pool = elim (Option-cases (json.elements params)) [
    | inl e ↦ rw (e, negotiate_configure) (nothing-IsWithin pool)
    | inr (items, e) ↦ rw (e, negotiate_configure) (negotiate_params-IsWithin items pool)
  ]

  -- Whatever a miner asks for, a version that is accepted under the mask that is granted has the
  -- digits of the template wherever the pool's mask has the digit 0.
  pub negotiate_configure-versions :
      (params : J) (pool submitted templ i : ℕ)
      → submitted < 2 ^ 32
      → templ < 2 ^ 32
      → i < 32
      → bit i pool ≡ 0
      → validate_version submitted templ (negotiate_configure json params pool).version_mask ≡ true
      → bit i submitted ≡ bit i templ
  negotiate_configure-versions params pool s t i hs ht h z e =
      let (m, small, same) = negotiate_configure-IsWithin params pool in
      let mask = (negotiate_configure json params pool).version_mask in
      (validate_version-bits s t mask hs ht (rw same (bit_and-below 32 m pool small))).0 e i h
        (ap (bit i) same ∙ omega (arith, bit-bit_and i m pool))
