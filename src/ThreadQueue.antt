-- ===== src/ThreadQueue.antt =====
-- `thread_queue<T>` of include/mqtt/thread_queue.h. Each function holds the lock while it runs, and
-- gives it up only to wait, so a call is one step from the moment that its wait ends: `none` means
-- that the call still waits. The two condition variables are seen through what a step notifies.
pub mod Order
pub mod Wakeups
mod Tests
use paho_mqtt_cpp.Prelude.{
  ℕ, suc, ◌^◌, ◌-◌, max, ltb, leb, if◌then◌else◌, Bool, true, false, not, ◌&&◌, ◌||◌, Option, none,
  some, List, [], ◌∷◌, ◌++◌, length,
}

-- `MAX_CAPACITY`, for a 64-bit `size_type`.
abbrev pub max_capacity : ℕ
max_capacity = 2 ^ 64 - 1

-- The head of `que` is the front.
pub record Queue (A : Type 0) : Type 0 where
  pub cap : ℕ
  pub closed : Bool
  pub que : List A

-- `notify_one`, `notify_all`, or neither.
pub data Wake : Type 0 where
  silent one all : Wake

pub data Reply (A : Type 0) : Type 0 where
  unit : Reply A
  bool : Bool → Reply A
  -- true, with the item stored through the pointer
  stored : A → Reply A
  item : A → Reply A
  throws_closed : Reply A

pub record Done (A : Type 0) : Type 0 where
  pub queue : Queue A
  pub reply : Reply A
  pub not_empty : Wake
  pub not_full : Wake

module _ {A : Type 0} where
  -- The constructors.
  unfoldable pub new : Queue A
  new = record { cap = max_capacity; closed = false; que = [] }

  pub with_capacity : ℕ → Queue A
  with_capacity cap = record { cap = max cap 1; closed = false; que = [] }

  abbrev pub size : Queue A → ℕ
  size q = length q.que

  unfoldable pub is_empty : List A → Bool
  is_empty [] = true
  is_empty (x ∷ xs) = false

  -- `is_done`
  unfoldable pub is_done : Queue A → Bool
  unfolding is_empty
  is_done q = q.closed && is_empty q.que

  -- The predicates that `notFullCond_` and `notEmptyCond_` are waited on with.
  unfoldable pub put_ready : Queue A → Bool
  put_ready q = ltb (size q) q.cap || q.closed

  unfoldable pub get_ready : Queue A → Bool
  unfolding is_empty
  get_ready q = not (is_empty q.que) || q.closed

  abbrev quietly : Queue A → Reply A → Done A
  quietly q r = record { queue = q; reply = r; not_empty = silent; not_full = silent }

  -- `que_.emplace(val); notEmptyCond_.notify_one();`
  abbrev emplaced : Queue A → A → Reply A → Done A
  emplaced q val r = record {
    queue = record q { que = q.que ++ (val ∷ []) };
    reply = r;
    not_empty = one;
    not_full = silent;
  }

  -- `que_.pop(); notFullCond_.notify_one();`
  abbrev popped : Queue A → List A → Reply A → Done A
  popped q rest r = record {
    queue = record q { que = rest };
    reply = r;
    not_empty = silent;
    not_full = one;
  }

  -- `capacity(cap)`
  pub set_capacity : ℕ → Queue A → Done A
  set_capacity cap q =
      let cap' = max cap 1 in
      record {
        queue = record q { cap = cap' };
        reply = unit;
        not_empty = silent;
        not_full = if ltb (size q) cap' then all else silent;
      }

  unfoldable pub close : Queue A → Done A
  close q = record {
    queue = record q { closed = true };
    reply = unit;
    not_empty = all;
    not_full = all;
  }

  unfoldable pub clear : Queue A → Done A
  clear q = record {
    queue = record q { que = [] };
    reply = unit;
    not_empty = silent;
    not_full = all;
  }

  -- `put`, once its wait is over.
  unfoldable pub put : A → Queue A → Option (Done A)
  put val q =
      if put_ready q
      then some (if q.closed then quietly q throws_closed else emplaced q val unit)
      else none

  pub try_put : A → Queue A → Done A
  try_put val q =
      if leb q.cap (size q) || q.closed then quietly q (bool false) else emplaced q val (bool true)

  -- `try_put_for` and `try_put_until`, when the wait ends; it returns the predicate's value then.
  pub try_put_for : A → Queue A → Done A
  try_put_for val q =
      let to = not (put_ready q) in
      if to || q.closed then quietly q (bool false) else emplaced q val (bool true)

  front : List A → Done A → (A → List A → Done A) → Done A
  front [] closed found = closed
  front (x ∷ xs) closed found = found x xs

  -- `get()`, once its wait is over.
  unfoldable pub get : Queue A → Option (Done A)
  unfolding front
  get q =
      if get_ready q
      then some (front q.que (quietly q throws_closed) (λ x xs. popped q xs (item x)))
      else none

  -- `get(val)`, once its wait is over; the flag tells a pointer that is not null.
  pub get_to : Bool → Queue A → Option (Done A)
  unfolding front
  get_to false q = some (quietly q (bool false))
  get_to true q =
      if get_ready q
      then some (front q.que (quietly q (bool false)) (λ x xs. popped q xs (stored x)))
      else none

  -- `try_get`, and `try_get_for` and `try_get_until` when their wait ends.
  unfoldable pub try_get : Bool → Queue A → Done A
  unfolding front
  try_get false q = quietly q (bool false)
  try_get true q = front q.que (quietly q (bool false)) (λ x xs. popped q xs (stored x))

-- A call of any thread.
pub data Call (A : Type 0) : Type 0 where
  calls_put calls_try_put calls_try_put_for : A → Call A
  calls_get calls_close calls_clear : Call A
  calls_get_to calls_try_get : Bool → Call A
  calls_set_capacity : ℕ → Call A

module _ {A : Type 0} where
  pub step : Call A → Queue A → Option (Done A)
  unfolding put try_put try_put_for get get_to try_get close clear set_capacity
  step (calls_put val) q = put val q
  step (calls_try_put val) q = some (try_put val q)
  step (calls_try_put_for val) q = some (try_put_for val q)
  step calls_get q = get q
  step calls_close q = some (close q)
  step calls_clear q = some (clear q)
  step (calls_get_to to) q = get_to to q
  step (calls_try_get to) q = some (try_get to q)
  step (calls_set_capacity cap) q = some (set_capacity cap q)
