-- ===== src/RateLimiter/Bans.antt =====
-- Bans, and what the methods leave of other addresses.
use yumtech_umbrel_apps.Prelude.{
  ℕ, ◌+◌, ◌-◌, ◌≡◌, refl, sym, ap, ◌∙◌, inl, inr, Bool, true, false, none, some, Option-cases, ltb,
  leb, if◌then◌else◌, Bool-cases, arith,
}
use yumtech_umbrel_apps.Prelude.Texts.{Text, text_eq, text_eq_refl}
use yumtech_umbrel_apps.RateLimiter.Maps.{Map, lookup, insert, erase, lookup-insert, lookup-erase}
use yumtech_umbrel_apps.RateLimiter.{
  RateLimitConfig, Bucket, RateLimiter, take_token, bucket_at, is_banned, put_bucket, admit,
  allow_connection, on_disconnect, ban, record_invalid_share, clear_invalid,
}

lookup-insert_self {ℓ} :
    {V : Type ℓ} (k : Text) (v : V) (m : Map V) → lookup k (insert k v m) ≡ some v
lookup-insert_self k v m = lookup-insert k k v m ∙ rw (text_eq_refl k) refl

-- A ban holds for its address until its end, and changes nothing for another.
pub is_banned-ban :
    (ip j : Text) (duration now t : ℕ) (l : RateLimiter)
    → is_banned j t (ban ip duration now l)
      ≡ (if text_eq ip j then ltb t (now + duration) else is_banned j t l)
unfolding is_banned ban
is_banned-ban ip j duration now t l = ground (arith, lookup-insert ip j (now + duration) l.bans)

pub banned-refused :
    (ip : Text) (now : ℕ) (l : RateLimiter)
    → is_banned ip now l ≡ true
    → (allow_connection ip now l ≡ (l, false)) × (admit ip now l ≡ (l, false))
unfolding allow_connection is_banned admit
banned-refused ip now l h = ground arith

pub allow-admit :
    (ip : Text) (now : ℕ) (l : RateLimiter)
    → is_banned ip now l ≡ false
    → allow_connection ip now l ≡ admit ip now l
unfolding allow_connection
allow-admit ip now l h = rw h refl

pub admit_free :
    (ip : Text) (now : ℕ) (l : RateLimiter)
    → lookup ip l.bans ≡ none
    → admit ip now l ≡ put_bucket ip (take_token l.cfg (bucket_at ip l) now) l
unfolding admit
admit_free ip now l h = rw (h, admit) refl

pub admit_expired :
    (ip : Text) (now until : ℕ) (l : RateLimiter)
    → lookup ip l.bans ≡ some until
    → leb until now ≡ true
    → admit ip now l
      ≡ put_bucket ip (take_token l.cfg (bucket_at ip l) now) (record l { bans = erase ip l.bans })
unfolding admit
admit_expired ip now until l h e = rw (h, admit) (rw e refl)

put_bucket-result :
    (ip : Text) (r : Bucket × Bool) (l : RateLimiter)
    → lookup ip l.bans ≡ none
    → ((put_bucket ip r l).1 ≡ r.1)
      × (lookup ip (put_bucket ip r l).0.buckets ≡ some r.0)
      × (lookup ip (put_bucket ip r l).0.bans ≡ none)
unfolding put_bucket
put_bucket-result ip (b, answer) l h = (refl, lookup-insert_self ip b l.buckets, h)

-- An address that is not banned is let in as its bucket says, and its old ban is gone.
pub unbanned-admitted :
    (ip : Text) (now : ℕ) (l : RateLimiter)
    → is_banned ip now l ≡ false
    → let (l', answer) = allow_connection ip now l in
      (answer ≡ (take_token l.cfg (bucket_at ip l) now).1)
      × (lookup ip l'.buckets ≡ some (take_token l.cfg (bucket_at ip l) now).0)
      × (lookup ip l'.bans ≡ none)
unbanned-admitted ip now l h = elim (Option-cases (lookup ip l.bans)) [
  | inl free ↦
      rw (allow-admit ip now l h, admit_free ip now l free)
        (put_bucket-result ip (take_token l.cfg (bucket_at ip l) now) l free)
  | inr (until, old) ↦
      rw
        (
          allow-admit ip now l h,
          admit_expired ip now until l old (unfold is_banned in ground arith),
        )
        (put_bucket-result ip (take_token l.cfg (bucket_at ip l) now)
          (record l { bans = erase ip l.bans })
          (lookup-erase ip ip l.bans ∙ rw (text_eq_refl ip) refl))
]

put_bucket-other :
    (ip j : Text) (r : Bucket × Bool) (l : RateLimiter)
    → text_eq ip j ≡ false
    → lookup j (put_bucket ip r l).0.buckets ≡ lookup j l.buckets
unfolding put_bucket
put_bucket-other ip j (b, answer) l h = lookup-insert ip j b l.buckets ∙ rw h refl

admit-other :
    (ip j : Text) (now : ℕ) (l : RateLimiter)
    → text_eq ip j ≡ false
    → lookup j (admit ip now l).0.buckets ≡ lookup j l.buckets
admit-other ip j now l h = elim (Option-cases (lookup ip l.bans)) [
  | inl free ↦ rw (admit_free ip now l free) (put_bucket-other ip j _ l h)
  | inr (until, old) ↦ elim (Bool-cases (leb until now)) [
    | inl over ↦ rw (admit_expired ip now until l old over) (put_bucket-other ip j _ _ h)
    | inr holds ↦ unfold admit in rw (old, admit) (rw holds refl)
  ]
]

-- A call for one address leaves the buckets of all others alone.
pub calls-other :
    (ip j : Text) (now : ℕ) (l : RateLimiter)
    → text_eq ip j ≡ false
    → (lookup j (allow_connection ip now l).0.buckets ≡ lookup j l.buckets)
      × (lookup j (record_invalid_share ip now l).0.buckets ≡ lookup j l.buckets)
      × (lookup j (on_disconnect ip l).buckets ≡ lookup j l.buckets)
      × (lookup j (clear_invalid ip l).buckets ≡ lookup j l.buckets)
unfolding allow_connection record_invalid_share on_disconnect clear_invalid
calls-other ip j now l h = (
  ground (arith, admit-other ip j now l),
  grind (arith, lookup-insert),
  grind (arith, lookup-insert),
  grind (arith, lookup-insert),
)

pub bucket_at-found :
    (ip : Text) (b : Bucket) (l : RateLimiter) → lookup ip l.buckets ≡ some b → bucket_at ip l ≡ b
bucket_at-found ip b l h = rw (bucket_at, h) refl

disconnected :
    (ip : Text) (b : Bucket) (l : RateLimiter)
    → lookup ip l.buckets ≡ some b
    → (c : Bucket) × (lookup ip (on_disconnect ip l).buckets ≡ some c)
      × (c.open_connections ≡ b.open_connections - 1)
unfolding on_disconnect
disconnected ip b l h = elim (Bool-cases (ltb 0 b.open_connections)) [
  | inl some' ↦ (
    record b { open_connections = b.open_connections - 1 },
    rw (h, on_disconnect) (rw some' (lookup-insert_self ip _ l.buckets)),
    refl,
  )
  | inr no' ↦ (b, rw (h, on_disconnect) (rw no' h), ground arith)
]

granted_place :
    (cfg : RateLimitConfig) (b : Bucket) (now : ℕ)
    → (take_token cfg b now).1 ≡ true
    → (take_token cfg b now).0.open_connections ≡ b.open_connections + 1
unfolding take_token
granted_place cfg b now h = ground arith

-- A connection that was let in takes a place of its address, and gives it back when it goes.
pub on_disconnect-allow_connection :
    (ip : Text) (now : ℕ) (l : RateLimiter)
    → (allow_connection ip now l).1 ≡ true
    → let l' = (allow_connection ip now l).0 in
      (c : Bucket) × (lookup ip (on_disconnect ip l').buckets ≡ some c)
      × (c.open_connections ≡ (bucket_at ip l).open_connections)
      × ((bucket_at ip l').open_connections ≡ (bucket_at ip l).open_connections + 1)
on_disconnect-allow_connection ip now l h = elim (Bool-cases (is_banned ip now l)) [
  | inl banned ↦ absurd (cc (h, ap (λ p. p.1) (banned-refused ip now l banned).0))
  | inr free ↦
      let after = (take_token l.cfg (bucket_at ip l) now).0 in
      let (answer, found, gone) = unbanned-admitted ip now l free in
      let place = granted_place l.cfg (bucket_at ip l) now (sym answer ∙ h) in
      let (c, left, count) = disconnected ip after (allow_connection ip now l).0 found in
      (
        c,
        left,
        omega (arith, count, place),
        ap (λ b. b.open_connections) (bucket_at-found ip after (allow_connection ip now l).0 found)
            ∙ place,
      )
]
