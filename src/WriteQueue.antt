-- ===== src/WriteQueue.antt =====
-- The outbound queue of a session: yumtech/mkpool-src/src/write_queue.hpp. All calls come from the
-- session's strand, so each is one step: a call of `push` or `stop`, or a completion of
-- `async_write`. A message is the list of its bytes. The queue's effects are the calls of
-- `async_write` and of the drop handler. The owner is alive as long as a call runs, except where
-- `owner_.lock()` is asked: `Owner` says what it finds.
pub mod Invariant
pub mod Push
pub mod Fifo
pub mod Backpressure
use yumtech_umbrel_apps.Prelude.{
  ℕ, ◌+◌, ◌-◌, ◌<◌, Bool, true, false, ◌||◌, List, [], ◌∷◌, ◌++◌, length, ltb, if◌then◌else◌,
}

abbrev pub Message : Type 0
Message = List ℕ

-- `has_owner_` and `owner_.lock()`.
pub data Owner : Type 0 where
  not_set alive gone : Owner

-- What a call asks of the outside.
pub data Effect : Type 0 where
  async_write : Message → Effect
  drop_handler : Effect

pub record WriteQueue : Type 0 where
  pub queue : List Message
  pub queued_bytes : ℕ
  pub high_water : ℕ
  pub writing : Bool
  pub has_drop : Bool
  pub stopped : Bool

pub record Outcome : Type 0 where
  pub state : WriteQueue
  pub effects : List Effect

unfoldable pub init : ℕ → WriteQueue
init high_water = record {
  queue = [];
  queued_bytes = 0;
  high_water = high_water;
  writing = false;
  has_drop = false;
  stopped = false;
}

unfoldable pub set_drop_handler : WriteQueue → WriteQueue
set_drop_handler q = record q { has_drop = true }

unfoldable pub stop : WriteQueue → WriteQueue
stop q = record q { stopped = true }

-- `if (drop_) drop_();`
abbrev pub call_drop : WriteQueue → List Effect
call_drop q = if q.has_drop then drop_handler ∷ [] else []

-- The write of the front item, unless the owner is gone. `queue_.front()` of an empty deque is not
-- defined; here it does nothing.
unfoldable pub write_front : Owner → List Message → WriteQueue → Outcome
write_front gone items q = record { state = record q { writing = false }; effects = [] }
write_front not_set [] q = record { state = q; effects = [] }
write_front not_set (m ∷ items) q = record { state = q; effects = async_write m ∷ [] }
write_front alive [] q = record { state = q; effects = [] }
write_front alive (m ∷ items) q = record { state = q; effects = async_write m ∷ [] }

unfoldable pub do_write : Owner → WriteQueue → Outcome
unfolding write_front
do_write owner q =
    if q.stopped
    then record { state = record q { writing = false }; effects = [] }
    else write_front owner q.queue q

-- The new state with its effects, and the result.
unfoldable pub push : Owner → Message → WriteQueue → Outcome × Bool
unfolding do_write
push owner msg q =
    let bytes = q.queued_bytes + length msg in
    let counted = record q { queued_bytes = bytes } in
    let queued = record counted { queue = q.queue ++ (msg ∷ []) } in
    if q.stopped
    then (record { state = q; effects = [] }, false)
    else if ltb q.high_water bytes
    then (record { state = counted; effects = call_drop q }, false)
    else if q.writing
    then (record { state = queued; effects = [] }, true)
    else (do_write owner (record queued { writing = true }), true)

-- The tail of the handler, on a queue that is not empty.
unfoldable pub sent : Owner → List Message → WriteQueue → Outcome
unfolding do_write
sent owner [] q = record { state = record q { writing = false }; effects = [] }
sent owner (m ∷ []) q = record {
  state = record q { queue = []; queued_bytes = q.queued_bytes - length m; writing = false };
  effects = [];
}
sent owner (m ∷ n ∷ items) q =
    do_write owner (record q { queue = n ∷ items; queued_bytes = q.queued_bytes - length m })

-- The completion handler; `ec` is set if the write failed.
unfoldable pub on_written : Owner → Bool → WriteQueue → Outcome
unfolding sent
on_written owner ec q =
    if ec
    then record { state = record q { writing = false }; effects = call_drop q }
    else if q.stopped
    then record { state = record q { writing = false }; effects = [] }
    else sent owner q.queue q
