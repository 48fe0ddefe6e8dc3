-- ===== src/ThreadQueue/Wakeups.antt =====
-- What the steps of `thread_queue` notify (include/mqtt/thread_queue.h).
use paho_mqtt_cpp.Prelude.{
  ℕ, ◌-◌, ◌==◌, leb, ◌≡◌, Bool, true, false, not, ◌&&◌, some, [], ◌∷◌, length-append, arith,
}
use paho_mqtt_cpp.ThreadQueue.{
  silent, one, all, Wake, Queue, Done, Call, calls_put, calls_try_put, calls_try_put_for, size,
  step,
}

-- As many threads are notified as can go on: none, one, or all of them.
abbrev pub is_enough : ℕ → Wake → Bool
is_enough n silent = n == 0
is_enough n one = leb n 1
is_enough n all = true

-- A queue that is closed notifies all.
abbrev pub is_told : Bool → Wake → Bool
is_told false wake = true
is_told true all = true
is_told true wake = false

module _ {A : Type 0} where
  -- How many items a queue has room for.
  abbrev pub room : Queue A → ℕ
  room q = q.cap - size q

  -- A step that puts items in notifies as many threads that wait for one as there are new items,
  -- and a step that makes room as many threads that wait for room as there is new room, also where
  -- there were items or there was room before; and a step that closes the queue notifies all
  -- threads that wait.
  pub step-notifies :
      (c : Call A) (q : Queue A) (d : Done A)
      → step c q ≡ some d
      → (is_enough (size d.queue - size q) d.not_empty ≡ true)
        × (is_enough (room d.queue - room q) d.not_full ≡ true)
        × (is_told (not q.closed && d.queue.closed) d.not_empty ≡ true)
        × (is_told (not q.closed && d.queue.closed) d.not_full ≡ true)
  unfolding step
  step-notifies (calls_put val) q d e = ground (arith, length-append q.que (val ∷ []))
  step-notifies (calls_try_put val) q d e = ground (arith, length-append q.que (val ∷ []))
  step-notifies (calls_try_put_for val) q d e = ground (arith, length-append q.que (val ∷ []))
  step-notifies c q d e = ground arith
