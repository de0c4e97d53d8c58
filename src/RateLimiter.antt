-- ===== src/RateLimiter.antt =====
-- The per-IP limiter: yumtech/mkpool-src/src/rate_limiter.hpp and rate_limiter.cpp. A time is the
-- count of nanoseconds of the steady clock, an argument of each call; 0 is the empty time point.
-- Tokens are counted exactly, in units of 10^-9, where the source rounds in `double`; the refill rate
-- is a whole number of tokens per second, which is as many units per nanosecond. A method holds the
-- lock for its body, and `allow_connection` for each of its two parts. A map is an association list.
pub mod Maps
pub mod Tokens
pub mod Bans
pub mod Limit
use yumtech_umbrel_apps.Prelude.{
  ℕ, suc, ◌+◌, ◌-◌, ◌*◌, ◌^◌, min, Bool, true, false, List, [], ◌∷◌, Option, none, some, length,
  ltb, leb, ◌==◌, if◌then◌else◌,
}
use yumtech_umbrel_apps.Prelude.Texts.{Text}
use yumtech_umbrel_apps.RateLimiter.Maps.{Map, lookup, insert, erase}

pub record RateLimitConfig : Type 0 where
  pub max_connections_per_ip : ℕ
  pub accept_burst : ℕ
  pub accept_refill_per_sec : ℕ
  pub invalid_share_ban_threshold : ℕ
  pub invalid_share_window : ℕ
  pub ban_duration : ℕ

-- One token.
abbrev pub token : ℕ
token = 1_000_000_000

pub record Bucket : Type 0 where
  pub tokens : ℕ
  pub last : ℕ
  pub open_connections : ℕ
  pub invalid_shares : ℕ
  pub invalid_window_start : ℕ

-- What `operator[]` makes of a new key.
abbrev pub new_bucket : Bucket
new_bucket = record {
  tokens = 0;
  last = 0;
  open_connections = 0;
  invalid_shares = 0;
  invalid_window_start = 0;
}

-- A ban is the time `until` which it holds.
pub record RateLimiter : Type 0 where
  pub cfg : RateLimitConfig
  pub buckets : Map Bucket
  pub bans : Map ℕ

unfoldable pub init : RateLimitConfig → RateLimiter
init cfg = record { cfg = cfg; buckets = []; bans = [] }

unfoldable pub refill_locked : RateLimitConfig → Bucket → ℕ → Bucket
refill_locked cfg b now =
    if ltb b.last now
    then record b {
      tokens =
          min (cfg.accept_burst * token) (b.tokens + (now - b.last) * cfg.accept_refill_per_sec);
      last = now;
    }
    else b

-- `buckets_[ip]`.
abbrev pub bucket_at : Text → RateLimiter → Bucket
bucket_at ip l = elim (lookup ip l.buckets) [ none ↦ new_bucket | some b ↦ b ]

-- A bucket that has not been used is filled.
unfoldable pub first_use : RateLimitConfig → Bucket → ℕ → Bucket
first_use cfg b now =
    if b.last == 0 then record b { tokens = cfg.accept_burst * token; last = now } else b

-- The part of `allow_connection` on the bucket.
unfoldable pub take_token : RateLimitConfig → Bucket → ℕ → Bucket × Bool
unfolding refill_locked first_use
take_token cfg b now =
    let r = refill_locked cfg (first_use cfg b now) now in
    if ltb r.tokens token
    then (r, false)
    else if leb cfg.max_connections_per_ip r.open_connections
    then (r, false)
    else (record r { tokens = r.tokens - token; open_connections = r.open_connections + 1 }, true)

-- The first part, under the shared lock: is the address banned?
unfoldable pub is_banned : Text → ℕ → RateLimiter → Bool
is_banned ip now l = elim (lookup ip l.bans) [ none ↦ false | some until ↦ ltb now until ]

unfoldable pub put_bucket : Text → Bucket × Bool → RateLimiter → RateLimiter × Bool
put_bucket ip (b, answer) l = (record l { buckets = insert ip b l.buckets }, answer)

-- The second part, under the unique lock.
unfoldable pub admit : Text → ℕ → RateLimiter → RateLimiter × Bool
admit ip now l = elim (lookup ip l.bans) [
  | none ↦ put_bucket ip (take_token l.cfg (bucket_at ip l) now) l
  | some until ↦
      if leb until now
      then put_bucket ip (take_token l.cfg (bucket_at ip l) now)
          (record l { bans = erase ip l.bans })
      else (l, false)
]

-- The two parts in a row.
unfoldable pub allow_connection : Text → ℕ → RateLimiter → RateLimiter × Bool
allow_connection ip now l = if is_banned ip now l then (l, false) else admit ip now l

unfoldable pub on_disconnect : Text → RateLimiter → RateLimiter
on_disconnect ip l = elim (lookup ip l.buckets) [
  | none ↦ l
  | some b ↦
      if ltb 0 b.open_connections
      then record l {
        buckets = insert ip (record b { open_connections = b.open_connections - 1 }) l.buckets;
      }
      else l
]

unfoldable pub ban : Text → ℕ → ℕ → RateLimiter → RateLimiter
ban ip duration now l = record l { bans = insert ip (now + duration) l.bans }

-- The start of a new window of invalid shares.
abbrev pub open_window : RateLimitConfig → Bucket → ℕ → Bucket
open_window cfg b now =
    if b.invalid_window_start == 0
    then record b { invalid_window_start = now; invalid_shares = 0 }
    else if ltb cfg.invalid_share_window (now - b.invalid_window_start)
    then record b { invalid_window_start = now; invalid_shares = 0 }
    else b

unfoldable pub record_invalid_share : Text → ℕ → RateLimiter → RateLimiter × Bool
record_invalid_share ip now l =
    let b = open_window l.cfg (bucket_at ip l) now in
    let n = b.invalid_shares + 1 in
    if leb l.cfg.invalid_share_ban_threshold n
    then (
      record l {
        bans = insert ip (now + l.cfg.ban_duration) l.bans;
        buckets = insert ip (record b { invalid_shares = 0 }) l.buckets;
      },
      true,
    )
    else (record l { buckets = insert ip (record b { invalid_shares = n }) l.buckets }, false)

unfoldable pub clear_invalid : Text → RateLimiter → RateLimiter
clear_invalid ip l = elim (lookup ip l.buckets) [
  | none ↦ l
  | some b ↦ record l { buckets = insert ip (record b { invalid_shares = 0 }) l.buckets }
]

pub record Snapshot : Type 0 where
  pub connections : ℕ
  pub banned : ℕ

sum_connections : Map Bucket → ℕ
sum_connections [] = 0
sum_connections ((ip, b) ∷ m) = b.open_connections + sum_connections m

unfoldable pub snapshot : RateLimiter → Snapshot
unfolding sum_connections
snapshot l = record { connections = sum_connections l.buckets; banned = length l.bans }
