-- ===== src/WriteQueue/Invariant.antt =====
-- A queue with the world around it: the writes in flight, and what was accepted, delivered and
-- refused so far. `Step` is one call of the queue, in any order that the strand may run them.
use yumtech_umbrel_apps.Prelude.{
  ℕ, ◌+◌, ◌≡◌, refl, ◌⊎◌, inl, inr, Bool, true, false, ◌||◌, List, [], ◌∷◌, ◌++◌, length,
  if◌then◌else◌, arith,
}
use yumtech_umbrel_apps.WriteQueue.{
  Message, Owner, not_set, alive, gone, Effect, async_write, drop_handler, WriteQueue, Outcome,
  init, stop, do_write, push, on_written,
}

pub record System : Type 0 where
  pub q : WriteQueue
  pub in_flight : List Message
  pub accepted : List Message
  pub delivered : List Message
  pub refused_bytes : ℕ

-- The messages handed to `async_write`.
abbrev pub writes : List Effect → List Message
writes [] = []
writes (async_write m ∷ es) = m ∷ writes es
writes (drop_handler ∷ es) = writes es

abbrev pub total : List Message → ℕ
total [] = 0
total (m ∷ ms) = length m + total ms

-- A call of `push` that returned `true` accepts the message; one that returned `false` on a queue
-- that runs has counted its bytes all the same.
abbrev pub after_push : System → Message → Outcome × Bool → System
after_push s msg (o, true) = record s {
  q = o.state;
  in_flight = s.in_flight ++ writes o.effects;
  accepted = s.accepted ++ (msg ∷ []);
}
after_push s msg (o, false) = record s {
  q = o.state;
  in_flight = s.in_flight ++ writes o.effects;
  refused_bytes = s.refused_bytes + (if s.q.stopped then 0 else length msg);
}

-- A completion of the write of `m`, which stood between `before` and `after`.
abbrev pub after_written : System → List Message → Message → List Message → Bool → Outcome → System
after_written s before m after ec o = record s {
  q = o.state;
  in_flight = (before ++ after) ++ writes o.effects;
  delivered = s.delivered ++ (if ec || s.q.stopped then [] else m ∷ []);
}

pub data Step (s : System) : System → Type 0 where
  pushes : (owner : Owner) (msg : Message) → Step s (after_push s msg (push owner msg s.q))
  completes :
      (owner : Owner) (ec : Bool) (before : List Message) (m : Message) (after : List Message)
      → s.in_flight ≡ before ++ (m ∷ after)
      → Step s (after_written s before m after ec (on_written owner ec s.q))
  stops : Step s (record s { q = stop s.q })

pub data Reach (s : System) : System → Type 0 where
  here : Reach s s
  next : {t u : System} → Reach s t → Step t u → Reach s u

-- Either no write is in flight and `writing_` is clear, or it is set and the write in flight is
-- that of the front item.
abbrev pub Flight : List Message → WriteQueue → Type 0
Flight fs q =
    ((fs ≡ []) × (q.writing ≡ false))
    ⊎ ((m : Message) × (rest : List Message) × (fs ≡ m ∷ [])
        × (q.writing ≡ true)
        × (q.queue ≡ m ∷ rest))

pub record Inv (s : System) : Type 0 where
  pub in_order : s.delivered ++ s.q.queue ≡ s.accepted
  pub counted : s.q.queued_bytes ≡ total s.q.queue + s.refused_bytes
  pub flight : Flight s.in_flight s.q

unfoldable pub start : WriteQueue → System
start q = record { q = q; in_flight = []; accepted = []; delivered = []; refused_bytes = 0 }

pub start-Inv : (high_water : ℕ) → Inv (start (init high_water))
unfolding start init
start-Inv high_water = record { in_order = refl; counted = refl; flight = inl (refl, refl) }

pub total-append : (xs ys : List Message) → total (xs ++ ys) ≡ total xs + total ys
total-append [] ys = omega arith
total-append (x ∷ xs) ys = omega (arith, total-append xs ys)

-- On a queue that runs and has a front item, `do_write` writes that item or gives up.
do_write-cases :
    (owner : Owner) (q : WriteQueue) (m : Message) (rest : List Message)
    → q.stopped ≡ false
    → q.queue ≡ m ∷ rest
    → (do_write owner q ≡ record { state = record q { writing = false }; effects = [] })
      ⊎ (do_write owner q ≡ record { state = q; effects = async_write m ∷ [] })
unfolding do_write
do_write-cases gone q m rest s e = inl (rw s refl)
do_write-cases alive q m rest s e = inr (rw (s, e) refl)
do_write-cases not_set q m rest s e = inr (rw (s, e) refl)

-- What a call leaves to `do_write`, once its bookkeeping is done and `writing_` is set.
pub do_write-Inv :
    (owner : Owner) (s : System) (m : Message) (rest : List Message)
    → s.q.stopped ≡ false
    → s.q.writing ≡ true
    → s.q.queue ≡ m ∷ rest
    → s.in_flight ≡ []
    → s.delivered ++ s.q.queue ≡ s.accepted
    → s.q.queued_bytes ≡ total s.q.queue + s.refused_bytes
    → let o = do_write owner s.q in
      Inv (record s { q = o.state; in_flight = s.in_flight ++ writes o.effects })
do_write-Inv owner s m rest stop' w e f io c = elim (do_write-cases owner s.q m rest stop' e) [
  | inl quiet ↦ rw quiet (record { in_order = io; counted = c; flight = inl (rw f refl, refl) })
  | inr busy ↦
      rw busy (record { in_order = io; counted = c; flight = inr (m, rest, rw f refl, w, e) })
]
