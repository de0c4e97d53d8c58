-- ===== src/WriteQueue/Backpressure.antt =====
-- When `push` takes a message, and what it leaves of the queue.
use yumtech_umbrel_apps.Prelude.{
  ◌+◌, ◌≤◌, ◌≡◌, refl, ◌↔◌, inl, inr, true, false, length, ltb, le→ltb, Bool-cases, arith,
}
use yumtech_umbrel_apps.WriteQueue.{Message, Owner, WriteQueue, push}
use yumtech_umbrel_apps.WriteQueue.Push.{push_stopped, push_over, push_behind, push_first}

-- `push` takes a message exactly when the queue runs and the message fits under the watermark.
pub push-accepts :
    (owner : Owner) (msg : Message) (q : WriteQueue)
    → ((push owner msg q).1 ≡ true)
      ↔ ((q.stopped ≡ false) × (q.queued_bytes + length msg ≤ q.high_water))
push-accepts owner msg q = elim (Bool-cases q.stopped) [
  | inl st ↦ rw (push_stopped owner msg q st) ((λ e. cc), (λ h. cc (st, h.0)))
  | inr st ↦ elim (Bool-cases (ltb q.high_water (q.queued_bytes + length msg))) [
    | inl over ↦
        rw (push_over owner msg q st over)
          ((λ e. cc), (λ h. cc (over, le→ltb q.high_water (q.queued_bytes + length msg) h.1)))
    | inr fits ↦ elim (Bool-cases q.writing) [
      | inl w ↦ rw (push_behind owner msg q st fits w) ((λ e. (st, ground arith)), (λ h. refl))
      | inr w ↦ rw (push_first owner msg q st fits w) ((λ e. (st, ground arith)), (λ h. refl))
    ]
  ]
]
