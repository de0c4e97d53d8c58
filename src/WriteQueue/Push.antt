-- ===== src/WriteQueue/Push.antt =====
-- A call of `push` keeps the invariant of `WriteQueue.Invariant`.
use yumtech_umbrel_apps.Prelude.{
  ℕ, ◌+◌, ◌≡◌, refl, sym, ap, ◌∙◌, inl, inr, true, false, List, [], ◌∷◌, ◌++◌, append-nil,
  append_assoc, length, ltb, Bool-cases, arith,
}
use yumtech_umbrel_apps.WriteQueue.{Message, Owner, WriteQueue, call_drop, do_write, push}
use yumtech_umbrel_apps.WriteQueue.Invariant.{
  System, writes, total, after_push, Flight, Inv, total-append, do_write-Inv,
}

abbrev pub with_bytes : ℕ → WriteQueue → WriteQueue
with_bytes n q = record q { queued_bytes = n }

abbrev pub enqueued : Message → WriteQueue → WriteQueue
enqueued msg q = record q {
  queued_bytes = q.queued_bytes + length msg;
  queue = q.queue ++ (msg ∷ []);
}

-- `push` on each of its branches.
module _ (owner : Owner) (msg : Message) (q : WriteQueue) where
  pub push_stopped :
      q.stopped ≡ true → push owner msg q ≡ (record { state = q; effects = [] }, false)
  unfolding push
  push_stopped s = rw s refl

  pub push_over :
      q.stopped ≡ false
      → ltb q.high_water (q.queued_bytes + length msg) ≡ true
      → push owner msg q ≡ (
        record { state = with_bytes (q.queued_bytes + length msg) q; effects = call_drop q },
        false,
      )
  unfolding push
  push_over s o = rw (s, o) refl

  pub push_behind :
      q.stopped ≡ false
      → ltb q.high_water (q.queued_bytes + length msg) ≡ false
      → q.writing ≡ true
      → push owner msg q ≡ (record { state = enqueued msg q; effects = [] }, true)
  unfolding push
  push_behind s o w = rw (s, o, w) refl

  pub push_first :
      q.stopped ≡ false
      → ltb q.high_water (q.queued_bytes + length msg) ≡ false
      → q.writing ≡ false
      → push owner msg q ≡ (do_write owner (record (enqueued msg q) { writing = true }), true)
  unfolding push
  push_first s o w = rw (s, o, w) refl

pub writes-call_drop : (q : WriteQueue) → writes (call_drop q) ≡ []
writes-call_drop q = ground arith

front_of :
    (xs : List Message) (x : Message)
    → (m : Message) × (r : List Message) × (xs ++ (x ∷ []) ≡ m ∷ r)
front_of [] x = (x, [], refl)
front_of (y ∷ xs) x = (y, xs ++ (x ∷ []), refl)

behind-Flight :
    (fs : List Message) (q : WriteQueue) (msg : Message)
    → Flight fs q
    → Flight (fs ++ []) (enqueued msg q)
behind-Flight fs q msg (inl (e, w)) = inl (rw e refl, w)
behind-Flight fs q msg (inr (m, rest, e, w, f)) =
    inr (m, rest ++ (msg ∷ []), rw e refl, w, rw f refl)

idle : (fs : List Message) (q : WriteQueue) → Flight fs q → q.writing ≡ false → fs ≡ []
idle fs q (inl (e, w)) h = e
idle fs q (inr (m, rest, e, w, f)) h = cc

module _ (owner : Owner) (msg : Message) (s : System) (i : Inv s) where
  in_order-append : s.delivered ++ (s.q.queue ++ (msg ∷ [])) ≡ s.accepted ++ (msg ∷ [])
  in_order-append =
      sym (append_assoc s.delivered s.q.queue (msg ∷ [])) ∙ ap (λ a. a ++ (msg ∷ [])) i.in_order

  counted-append : s.q.queued_bytes + length msg ≡ total (s.q.queue ++ (msg ∷ [])) + s.refused_bytes
  counted-append = omega (arith, i.counted, total-append s.q.queue (msg ∷ []))

  refused-Inv :
      s.q.stopped ≡ false
      → Inv (
          after_push s msg (
            record {
              state = with_bytes (s.q.queued_bytes + length msg) s.q;
              effects = call_drop s.q;
            },
            false,
          ))
  refused-Inv st = record {
    in_order = i.in_order;
    counted = ground (arith, i.counted);
    flight = rw (writes-call_drop s.q, append-nil) i.flight;
  }

  first-Inv :
      s.q.stopped ≡ false
      → s.q.writing ≡ false
      → Inv (after_push s msg (do_write owner (record (enqueued msg s.q) { writing = true }), true))
  first-Inv st w =
      let (m, rest, e) = front_of s.q.queue msg in
      do_write-Inv owner
        (record s {
          q = record (enqueued msg s.q) { writing = true };
          accepted = s.accepted ++ (msg ∷ []);
        })
        m rest st refl e (idle s.in_flight s.q i.flight w) in_order-append counted-append

  pub push-Inv : Inv (after_push s msg (push owner msg s.q))
  push-Inv = elim (Bool-cases s.q.stopped) [
    | inl st ↦ rw (push_stopped owner msg s.q st) (record {
      in_order = i.in_order;
      counted = ground (arith, i.counted);
      flight = rw append-nil i.flight;
    })
    | inr st ↦ elim (Bool-cases (ltb s.q.high_water (s.q.queued_bytes + length msg))) [
      | inl over ↦ rw (push_over owner msg s.q st over) (refused-Inv st)
      | inr fits ↦ elim (Bool-cases s.q.writing) [
        | inl w ↦ rw (push_behind owner msg s.q st fits w) (record {
          in_order = in_order-append;
          counted = counted-append;
          flight = behind-Flight s.in_flight s.q msg i.flight;
        })
        | inr w ↦ rw (push_first owner msg s.q st fits w) (first-Inv st w)
      ]
    ]
  ]
