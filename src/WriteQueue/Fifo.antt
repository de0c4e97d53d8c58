-- ===== src/WriteQueue/Fifo.antt =====
-- A completion keeps the invariant, so every step does: messages are delivered in the order in which
-- they were accepted, with one write in flight at most.
use yumtech_umbrel_apps.Prelude.{
  ◌+◌, ◌-◌, ◌≡◌, refl, sym, ap, ◌∙◌, inl, inr, Bool, true, false, List, [], ◌∷◌, ◌++◌, append-nil,
  append_assoc, length, Bool-cases, if◌then◌else◌, arith,
}
use yumtech_umbrel_apps.WriteQueue.{
  Message, Owner, WriteQueue, stop, call_drop, do_write, on_written,
}
use yumtech_umbrel_apps.WriteQueue.Invariant.{
  System, total, after_written, Step, pushes, completes, stops, Flight, Inv, do_write-Inv,
}
use yumtech_umbrel_apps.WriteQueue.Push.{push-Inv, writes-call_drop}

abbrev without_front : List Message → Message → WriteQueue → WriteQueue
without_front items m q = record q { queue = items; queued_bytes = q.queued_bytes - length m }

-- The completion handler on each of its branches.
module _ (owner : Owner) (q : WriteQueue) where
  written_failed :
      on_written owner true q
      ≡ record { state = record q { writing = false }; effects = call_drop q }
  unfolding on_written
  written_failed = refl

  written_stopped :
      q.stopped ≡ true
      → on_written owner false q ≡ record { state = record q { writing = false }; effects = [] }
  unfolding on_written
  written_stopped s = rw s refl

  written_last :
      (m : Message)
      → q.stopped ≡ false
      → q.queue ≡ m ∷ []
      → on_written owner false q
        ≡ record { state = record (without_front [] m q) { writing = false }; effects = [] }
  unfolding on_written
  written_last m s e = rw (s, e) refl

  written_more :
      (m n : Message) (items : List Message)
      → q.stopped ≡ false
      → q.queue ≡ m ∷ n ∷ items
      → on_written owner false q ≡ do_write owner (without_front (n ∷ items) m q)
  unfolding on_written
  written_more m n items s e = rw (s, e) refl

single :
    (before after : List Message) (m n : Message)
    → n ∷ [] ≡ before ++ (m ∷ after)
    → (before ++ after ≡ []) × (n ≡ m)
single [] after m n h = (cc, cc)
single (b ∷ []) after m n h = cc
single (b ∷ c ∷ before) after m n h = cc

nonempty : (before after : List Message) (m : Message) → [] ≡ before ++ (m ∷ after) → ⊥
nonempty [] after m h = cc
nonempty (b ∷ before) after m h = cc

-- The write that completes is the only one, and its message is at the front.
alone :
    (fs before after : List Message) (m : Message) (q : WriteQueue)
    → Flight fs q
    → fs ≡ before ++ (m ∷ after)
    → (before ++ after ≡ []) × (q.writing ≡ true) × ((rest : List Message) × (q.queue ≡ m ∷ rest))
alone fs before after m q (inl (e, w)) h = absurd (nonempty before after m (sym e ∙ h))
alone fs before after m q (inr (n, rest, e, w, f)) h =
    let (gone, same) = single before after m n (sym e ∙ h) in (gone, w, (rest, rw same at f))

module _ (owner : Owner) (s : System) (i : Inv s) (before : List Message) (m : Message)
    (after : List Message) (gone : before ++ after ≡ []) where
  failed-Inv : Inv (after_written s before m after true (on_written owner true s.q))
  failed-Inv = rw (written_failed owner s.q) (record {
    in_order = rw append-nil i.in_order;
    counted = i.counted;
    flight = inl (rw (gone, writes-call_drop s.q) refl, refl);
  })

  stopped-Inv :
      s.q.stopped ≡ true → Inv (after_written s before m after false (on_written owner false s.q))
  stopped-Inv st = rw (written_stopped owner s.q st) (record {
    in_order = rw (st, append-nil) i.in_order;
    counted = i.counted;
    flight = inl (rw gone refl, refl);
  })

  popped :
      (rest : List Message)
      → s.q.stopped ≡ false
      → s.q.queue ≡ m ∷ rest
      → (s.delivered ++ (if s.q.stopped then [] else m ∷ [])) ++ rest ≡ s.accepted
  popped rest st e = rw (st, append_assoc) (ap (λ items. s.delivered ++ items) (sym e) ∙ i.in_order)

  left :
      (rest : List Message)
      → s.q.queue ≡ m ∷ rest
      → s.q.queued_bytes - length m ≡ total rest + s.refused_bytes
  left rest e = omega (arith, i.counted, ap total e)

  running-Inv :
      (rest : List Message)
      → s.q.stopped ≡ false
      → s.q.writing ≡ true
      → s.q.queue ≡ m ∷ rest
      → Inv (after_written s before m after false (on_written owner false s.q))
  running-Inv [] st w e =
      rw (written_last owner s.q m st e) (record {
        in_order = popped [] st e;
        counted = left [] e;
        flight = inl (rw gone refl, refl);
      })
  running-Inv (n ∷ items) st w e = rw (written_more owner s.q m n items st e) (
      do_write-Inv owner
        (record s {
          q = without_front (n ∷ items) m s.q;
          delivered = s.delivered ++ (if s.q.stopped then [] else m ∷ []);
          in_flight = before ++ after;
        })
        n items st w refl gone (popped (n ∷ items) st e) (left (n ∷ items) e))

  written-Inv :
      (ec : Bool) (rest : List Message)
      → s.q.writing ≡ true
      → s.q.queue ≡ m ∷ rest
      → Inv (after_written s before m after ec (on_written owner ec s.q))
  written-Inv true rest w e = failed-Inv
  written-Inv false rest w e = elim (Bool-cases s.q.stopped) [
    | inl st ↦ stopped-Inv st
    | inr st ↦ running-Inv rest st w e
  ]

pub step-Inv : {s t : System} → Step s t → Inv s → Inv t
step-Inv {s} (pushes owner msg) i = push-Inv owner msg s i
step-Inv {s} (completes owner ec before m after e) i =
    let (gone, w, (rest, front)) = alone s.in_flight before after m s.q i.flight e in
    written-Inv owner s i before m after gone ec rest w front
step-Inv {s} stops i =
    unfold stop in record { in_order = i.in_order; counted = i.counted; flight = i.flight }
