-- ===== src/RateLimiter/Limit.antt =====
-- The limit on open connections, through any calls of the limiter.
use yumtech_umbrel_apps.Prelude.{
  ℕ, ◌+◌, ◌≤◌, ◌≡◌, refl, ap, ◌∙◌, Option-cases, inl, inr, List, [], ◌∷◌, ltb, leb, Bool-cases,
  arith,
}
use yumtech_umbrel_apps.Prelude.Texts.{Text}
use yumtech_umbrel_apps.RateLimiter.Maps.{lookup, insert, lookup-insert}
use yumtech_umbrel_apps.RateLimiter.{
  RateLimitConfig, Bucket, init, RateLimiter, take_token, is_banned, bucket_at, put_bucket, admit,
  allow_connection, on_disconnect, ban, open_window, record_invalid_share, clear_invalid,
}
use yumtech_umbrel_apps.RateLimiter.Bans.{
  bucket_at-found, banned-refused, allow-admit, admit_free, admit_expired,
}
use yumtech_umbrel_apps.RateLimiter.Tokens.{take_token-limit}

-- The calls of the limiter; `admits` is the second part of a connection's call alone, behind other
-- calls that came after its first part.
pub data Call : Type 0 where
  connects admits : Text → ℕ → Call
  disconnects : Text → Call
  sets_ban : Text → ℕ → ℕ → Call
  invalid_share : Text → ℕ → Call
  clears : Text → Call

abbrev pub step : Call → RateLimiter → RateLimiter
step (connects ip now) l = (allow_connection ip now l).0
step (admits ip now) l = (admit ip now l).0
step (disconnects ip) l = on_disconnect ip l
step (sets_ban ip duration now) l = ban ip duration now l
step (invalid_share ip now) l = (record_invalid_share ip now l).0
step (clears ip) l = clear_invalid ip l

unfoldable pub run : List Call → RateLimiter → RateLimiter
run [] l = l
run (c ∷ cs) l = run cs (step c l)

-- Every address has at most the configured number of open connections.
pub record Within (limit : ℕ) (l : RateLimiter) : Type 0 where
  pub configured : l.cfg.max_connections_per_ip ≡ limit
  pub counts : (ip : Text) → (bucket_at ip l).open_connections ≤ limit

-- One bucket is replaced by another within the limit.
replace-Within :
    (limit : ℕ) (ip : Text) (b : Bucket) (l l' : RateLimiter)
    → Within limit l
    → b.open_connections ≤ limit
    → l'.cfg ≡ l.cfg
    → l'.buckets ≡ insert ip b l.buckets
    → Within limit l'
replace-Within limit ip b l l' w h ec eb = record {
  configured = ap (λ c. c.max_connections_per_ip) ec ∙ w.configured;
  counts = λ j. ground (arith, ap (lookup j) eb, lookup-insert ip j b l.buckets, w.counts j);
}

admit-Within :
    (limit : ℕ) (ip : Text) (now : ℕ) (l : RateLimiter)
    → Within limit l
    → Within limit (admit ip now l).0
unfolding put_bucket
admit-Within limit ip now l w = elim (Option-cases (lookup ip l.bans)) [
  | inl free ↦ rw (admit_free ip now l free) (replace-Within limit ip _ l _ w taken refl refl)
  | inr (until, old) ↦ elim (Bool-cases (leb until now)) [
    | inl over ↦
        rw (admit_expired ip now until l old over) (replace-Within limit ip _ l _ w taken refl refl)
    | inr holds ↦ unfold admit in rw (old, admit) (rw holds w)
  ]
]
  where
    taken : (take_token l.cfg (bucket_at ip l) now).0.open_connections ≤ limit
    taken =
        let e = w.configured in
        omega
          (arith, e, take_token-limit l.cfg (bucket_at ip l) now (omega (arith, w.counts ip, e)))

on_disconnect-Within :
    (limit : ℕ) (ip : Text) (l : RateLimiter) → Within limit l → Within limit (on_disconnect ip l)
on_disconnect-Within limit ip l w = elim (Option-cases (lookup ip l.buckets)) [
  | inl e ↦ unfold on_disconnect in rw (e, on_disconnect) w
  | inr (b, e) ↦ elim (Bool-cases (ltb 0 b.open_connections)) [
    | inl f ↦
        unfold on_disconnect in
        rw (e, on_disconnect, f)
          (replace-Within limit ip _ l _ w
            (omega (arith, ap (λ c. c.open_connections) (bucket_at-found ip b l e), w.counts ip))
            refl refl)
    | inr f ↦ unfold on_disconnect in rw (e, on_disconnect, f) w
  ]
]

clear_invalid-Within :
    (limit : ℕ) (ip : Text) (l : RateLimiter) → Within limit l → Within limit (clear_invalid ip l)
clear_invalid-Within limit ip l w = elim (Option-cases (lookup ip l.buckets)) [
  | inl e ↦ unfold clear_invalid in rw (e, clear_invalid) w
  | inr (b, e) ↦
      unfold clear_invalid in
      rw (e, clear_invalid)
        (replace-Within limit ip _ l _ w
          (omega (arith, ap (λ c. c.open_connections) (bucket_at-found ip b l e), w.counts ip)) refl
          refl)
]

open_window-counts :
    (cfg : RateLimitConfig) (b : Bucket) (now : ℕ)
    → (open_window cfg b now).open_connections ≡ b.open_connections
open_window-counts cfg b now = ground arith

record_invalid_share-Within :
    (limit : ℕ) (ip : Text) (now : ℕ) (l : RateLimiter)
    → Within limit l
    → Within limit (record_invalid_share ip now l).0
record_invalid_share-Within limit ip now l w =
    elim (Bool-cases (leb l.cfg.invalid_share_ban_threshold (b.invalid_shares + 1))) [
      | inl e ↦
          unfold record_invalid_share in
          rw e (replace-Within limit ip (record b { invalid_shares = 0 }) l _ w same refl refl)
      | inr e ↦
          unfold record_invalid_share in
          rw e (
            replace-Within limit ip (record b { invalid_shares = b.invalid_shares + 1 }) l _ w same
              refl refl)
    ]
  where
    b : Bucket
    b = open_window l.cfg (bucket_at ip l) now

    same : b.open_connections ≤ limit
    same = omega (arith, open_window-counts l.cfg (bucket_at ip l) now, w.counts ip)

allow_connection-Within :
    (limit : ℕ) (ip : Text) (now : ℕ) (l : RateLimiter)
    → Within limit l
    → Within limit (allow_connection ip now l).0
allow_connection-Within limit ip now l w = elim (Bool-cases (is_banned ip now l)) [
  | inl banned ↦ rw ((banned-refused ip now l banned).0) w
  | inr free ↦ rw (allow-admit ip now l free) (admit-Within limit ip now l w)
]

step-Within : (limit : ℕ) (c : Call) (l : RateLimiter) → Within limit l → Within limit (step c l)
unfolding ban
step-Within limit (connects ip now) l w = allow_connection-Within limit ip now l w
step-Within limit (admits ip now) l w = admit-Within limit ip now l w
step-Within limit (disconnects ip) l w = on_disconnect-Within limit ip l w
step-Within limit (sets_ban ip duration now) l w = record {
  configured = w.configured;
  counts = w.counts;
}
step-Within limit (invalid_share ip now) l w = record_invalid_share-Within limit ip now l w
step-Within limit (clears ip) l w = clear_invalid-Within limit ip l w

run-Within :
    (limit : ℕ) (cs : List Call) (l : RateLimiter) → Within limit l → Within limit (run cs l)
unfolding run
run-Within limit [] l w = w
run-Within limit (c ∷ cs) l w = run-Within limit cs (step c l) (step-Within limit c l w)

-- Whatever calls a new limiter sees, in any order and at any times, no address ever has more open
-- connections than the configuration allows.
pub run-limit :
    (cfg : RateLimitConfig) (cs : List Call) (ip : Text)
    → (bucket_at ip (run cs (init cfg))).open_connections ≤ cfg.max_connections_per_ip
unfolding lookup
run-limit cfg cs ip =
    Within.counts
      (run-Within cfg.max_connections_per_ip cs (init cfg)
        (unfold init in record { configured = refl; counts = λ j. omega arith }))
      ip
