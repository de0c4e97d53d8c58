-- ===== src/RateLimiter/Tokens.antt =====
-- The token bucket of one address: how many connections it lets through.
use yumtech_umbrel_apps.Prelude.{
  ℕ, ◌+◌, ◌-◌, ◌≤◌, ◌<◌, ◌≡◌, refl, ◌⊎◌, inl, inr, true, false, List, [], ◌∷◌, ltb, leb,
  if◌then◌else◌, Bool-cases, ltb→lt, leb→le, ltb_false→le, leb_false→lt, arith,
}
use yumtech_umbrel_apps.RateLimiter.{
  RateLimitConfig, Bucket, token, refill_locked, first_use, take_token,
}

-- The grants among calls at the given times.
unfoldable pub granted : RateLimitConfig → Bucket → List ℕ → ℕ
granted cfg b [] = 0
granted cfg b (t ∷ ts) =
    let (b', answer) = take_token cfg b t in
    let rest = granted cfg b' ts in (if answer then 1 else 0) + rest

-- The times do not go back.
abbrev pub NonDecreasing : ℕ → List ℕ → Type 0
NonDecreasing t [] = Unit {0}
NonDecreasing t (u ∷ us) = (t ≤ u) × NonDecreasing u us

abbrev pub end : ℕ → List ℕ → ℕ
end t [] = t
end t (u ∷ us) = end u us

-- A grant takes a token and a place; a refusal takes neither, and needs a reason.
pub take_token-cases :
    (cfg : RateLimitConfig) (b : Bucket) (now : ℕ)
    → let full = refill_locked cfg (first_use cfg b now) now in
      ((take_token cfg b now ≡ (
        record full { tokens = full.tokens - token; open_connections = full.open_connections + 1 },
        true,
      ))
        × (token ≤ full.tokens)
        × (full.open_connections < cfg.max_connections_per_ip))
      ⊎ ((take_token cfg b now ≡ (full, false))
          × ((full.tokens < token) ⊎ (cfg.max_connections_per_ip ≤ full.open_connections)))
unfolding take_token
take_token-cases cfg b now =
    let full = refill_locked cfg (first_use cfg b now) now in
    elim (Bool-cases (ltb full.tokens token)) [
      | inl empty ↦ inr (rw empty refl, inl (ltb→lt full.tokens token empty))
      | inr ready ↦ elim (Bool-cases (leb cfg.max_connections_per_ip full.open_connections)) [
        | inl full' ↦ inr (rw (ready, full') refl, inr (leb→le _ _ full'))
        | inr room ↦ inl (rw (ready, room) refl, ltb_false→le _ _ ready, leb_false→lt _ _ room)
      ]
    ]

-- The open connections of an address stay within the limit.
pub take_token-limit :
    (cfg : RateLimitConfig) (b : Bucket) (now : ℕ)
    → b.open_connections ≤ cfg.max_connections_per_ip
    → (take_token cfg b now).0.open_connections ≤ cfg.max_connections_per_ip
unfolding take_token
take_token-limit cfg b now h = ground arith
