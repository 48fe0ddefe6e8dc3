-- ===== src/ThreadQueue/Tests.antt =====
-- The queue at concrete items.
use paho_mqtt_cpp.Prelude.{
  ◌-◌, not, ◌&&◌, ℕ, ◌≤◌, ◌≡◌, refl, true, false, none, some, [], ◌∷◌, ◌++◌, arith, max, ◌||◌,
}
use paho_mqtt_cpp.ThreadQueue.{
  Queue, Done, item, silent, one, calls_put, calls_get, put_ready, get_ready, size, step, put, get,
}
use paho_mqtt_cpp.ThreadQueue.Order.{here, next, run_fifo, step_bounds}
use paho_mqtt_cpp.ThreadQueue.Wakeups.{is_enough, is_told, room, step-notifies}

-- A full queue, of capacity 2.
abbrev full : Queue ℕ
full = record { cap = 2; closed = false; que = 4 ∷ 5 ∷ [] }

abbrev got : Done ℕ
got = record {
  queue = record { cap = 2; closed = false; que = 5 ∷ [] };
  reply = item 4;
  not_empty = silent;
  not_full = one;
}

abbrev shut : Queue ℕ
shut = record { cap = 2; closed = true; que = 4 ∷ 5 ∷ [] }

full_waits : step (calls_put 6) full ≡ none
unfolding step put put_ready
full_waits = refl

step-got : step calls_get full ≡ some got
unfolding step get get_ready
step-got = refl

run_fifo_example : full.que ++ [] ≡ 4 ∷ got.queue.que
run_fifo_example = run_fifo full (next here calls_get got step-got)

step-notifies_example :
    (is_enough (size got.queue - size full) got.not_empty ≡ true)
    × (is_enough (room got.queue - room full) got.not_full ≡ true)
    × (is_told (not full.closed && got.queue.closed) got.not_empty ≡ true)
    × (is_told (not full.closed && got.queue.closed) got.not_full ≡ true)
step-notifies_example = step-notifies calls_get full got step-got

step_bounds_example :
    (1 ≤ got.queue.cap)
    × (size got.queue ≤ max (size full) 2)
    × ((put_ready full || get_ready full) ≡ true)
step_bounds_example = step_bounds calls_get full got (omega arith) step-got
