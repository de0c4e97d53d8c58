-- ===== src/Session/Replies.antt =====
-- What a rejection does to a session: `reject` of `handle_submit` and `on_disconnect_local` of
-- yumtech/mkpool-src/src/client_session.cpp, and the counts of shares.
use yumtech_umbrel_apps.Prelude.{ℕ, ◌+◌, Bool, true, if◌then◌else◌}
use yumtech_umbrel_apps.Prelude.Texts.{Text, codes}
use yumtech_umbrel_apps.RateLimiter.{record_invalid_share, on_disconnect}
use yumtech_umbrel_apps.Session.{Clock, World, reply_error, presence_offline, disconnected, emit}
use yumtech_umbrel_apps.Session.Coinbase.{is_empty}

module _ {D : Type 0} where
  abbrev pub count_rejected : World D → World D
  count_rejected w = record w {
    session = record w.session { shares_rejected = w.session.shares_rejected + 1 };
  }

  abbrev pub count_accepted : World D → World D
  count_accepted w = record w {
    session = record w.session { shares_accepted = w.session.shares_accepted + 1 };
  }

  -- `on_disconnect_local`. A second call does nothing.
  unfoldable pub on_disconnect_local : Text → World D → World D
  on_disconnect_local reason w =
      let s = w.session in
      let w1 = record w { session = record s { closed = true } } in
      let w2 =
        if is_empty s.worker_address then w1 else emit (presence_offline s.worker_address) w1 in
      if s.closed
      then w
      else emit (disconnected reason) (record w2 { limiter = on_disconnect s.client_ip w2.limiter })

  -- What follows a count of invalid shares.
  unfoldable pub after_invalid : Bool → World D → World D
  unfolding on_disconnect_local
  after_invalid banned w =
      if banned then on_disconnect_local (codes "ban: too many invalid shares") w else w

  unfoldable pub reject : Clock → ℕ → Text → World D → World D
  unfolding after_invalid
  reject clock code reason w =
      let w1 = count_rejected (emit (reply_error code reason) w) in
      let r = record_invalid_share w.session.client_ip clock.now w1.limiter in
      after_invalid r.1 (record w1 { limiter = r.0 })

  -- A rejection that does not count as an invalid share.
  unfoldable pub refuse : ℕ → Text → World D → World D
  refuse code reason w = count_rejected (emit (reply_error code reason) w)
