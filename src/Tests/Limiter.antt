-- ===== src/Tests/Limiter.antt =====
-- The rate limiter at concrete inputs.
use yumtech_umbrel_apps.Prelude.{◌≤◌, ◌≡◌, refl, true, false, List, [], ◌∷◌}
use yumtech_umbrel_apps.Prelude.Texts.{Text, text_eq}
use yumtech_umbrel_apps.RateLimiter.Maps.{lookup, insert, erase}
use yumtech_umbrel_apps.RateLimiter.{
  RateLimitConfig, Bucket, new_bucket, RateLimiter, init, refill_locked, first_use, take_token,
  bucket_at, is_banned, put_bucket, admit, allow_connection, ban,
}
use yumtech_umbrel_apps.RateLimiter.Tokens.{granted}
use yumtech_umbrel_apps.RateLimiter.Limit.{
  Call, connects, disconnects, invalid_share, run, run-limit,
}

abbrev config : RateLimitConfig
config = record {
  max_connections_per_ip = 2;
  accept_burst = 3;
  accept_refill_per_sec = 1;
  invalid_share_ban_threshold = 2;
  invalid_share_window = 1_000_000_000;
  ban_duration = 5_000_000_000;
}

abbrev alice : Text
alice = b'1' ∷ b'0' ∷ []

abbrev bob : Text
bob = b'1' ∷ b'1' ∷ []

abbrev fresh : RateLimiter
fresh = init config

abbrev banned : RateLimiter
banned = ban alice 1000 10 fresh

-- The third call finds a token, and two connections open.
two_granted : granted config new_bucket (5 ∷ 6 ∷ 7 ∷ []) ≡ 2
unfolding granted take_token refill_locked first_use
two_granted = refl

abbrev after : Bucket
after = refill_locked config (first_use config new_bucket 5) 5

alice_free : is_banned alice 1010 banned ≡ false
unfolding is_banned ban init lookup insert text_eq
alice_free = refl

alice_not_bob : text_eq alice bob ≡ false
unfolding text_eq
alice_not_bob = refl

alice_let_in : (allow_connection alice 1010 banned).1 ≡ true
unfolding is_banned ban init lookup insert erase text_eq allow_connection admit put_bucket
    take_token refill_locked first_use
alice_let_in = refl

abbrev calls : List Call
calls =
    connects alice 10
    ∷ connects alice 11
    ∷ connects bob 12
    ∷ connects alice 13
    ∷ disconnects alice
    ∷ invalid_share alice 14
    ∷ []

run-limit_example :
    (bucket_at alice (run calls (init config))).open_connections ≤ config.max_connections_per_ip
run-limit_example = run-limit config calls alice
