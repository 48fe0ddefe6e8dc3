-- ===== src/ThreadQueue/Order.antt =====
-- The order, the size and the closing of `thread_queue`, over any interleaving of calls.
use paho_mqtt_cpp.Prelude.{
  ℕ, zero, suc, ◌+◌, ◌≤◌, ◌≡◌, ◌≢◌, ap, sym, ◌∙◌, true, none, some, List, [], ◌∷◌, ◌++◌,
  append_assoc, append-nil, map, length, length-append, arith, max, ◌||◌, Option-cases, inl, inr,
}
use paho_mqtt_cpp.ThreadQueue.{
  Queue, Done, Reply, unit, bool, stored, item, throws_closed, Call, calls_put, calls_try_put,
  calls_try_put_for, calls_get, calls_clear, calls_get_to, calls_try_get, put_ready, get_ready,
  size, step, get,
}

module _ {A : Type 0} where
  -- The items that a call with this reply put into the queue.
  abbrev pub accepted : Call A → Reply A → List A
  accepted (calls_put val) unit = val ∷ []
  accepted (calls_try_put val) (bool true) = val ∷ []
  accepted (calls_try_put_for val) (bool true) = val ∷ []
  accepted c r = []

  -- The items that a call with this reply took out of the queue, or discarded.
  abbrev pub removed : Call A → Queue A → Reply A → List A
  removed calls_clear q r = q.que
  removed calls_get q (item x) = x ∷ []
  removed (calls_get_to to) q (stored x) = x ∷ []
  removed (calls_try_get to) q (stored x) = x ∷ []
  removed c q r = []

  step_fifo :
      (c : Call A) (q : Queue A) (d : Done A)
      → step c q ≡ some d
      → q.que ++ accepted c d.reply ≡ removed c q d.reply ++ d.queue.que
  unfolding step
  step_fifo (calls_put val) q d e = ground (arith, append-nil q.que)
  step_fifo c q d e = ground (arith, append-nil q.que)

  -- Any interleaving of calls, with what they put in and took out.
  pub data Run (q : Queue A) : Queue A → List A → List A → Type 0 where
    here : Run q q [] []
    next :
        {r : Queue A} {ins outs : List A}
        → Run q r ins outs
        → (c : Call A) (d : Done A) → step c r ≡ some d
        → Run q d.queue (ins ++ accepted c d.reply) (outs ++ removed c r d.reply)

  -- Whatever calls run, in whatever order: the items leave the queue in the order in which they
  -- entered it, each once, and none is lost or made up.
  pub run_fifo :
      (q : Queue A) {r : Queue A} {ins outs : List A}
      → Run q r ins outs
      → q.que ++ ins ≡ outs ++ r.que
  run_fifo q here = append-nil q.que
  run_fifo q (next {r} {ins} {outs} run c d e) =
      sym (append_assoc q.que ins (accepted c d.reply))
      ∙ ap (λ l. l ++ accepted c d.reply) (run_fifo q run)
      ∙ append_assoc outs r.que (accepted c d.reply)
      ∙ ap (λ l. outs ++ l) (step_fifo c r d e)
      ∙ sym (append_assoc outs (removed c r d.reply) d.queue.que)

  -- If the capacity is at least one, then after a step it is so too, and the queue has grown up to
  -- its capacity only; and the queue before it lets a `put` or a `get` go on, so that threads
  -- never wait for both at the same time.
  pub step_bounds :
      (c : Call A) (q : Queue A) (d : Done A)
      → 1 ≤ q.cap
      → step c q ≡ some d
      → (1 ≤ d.queue.cap)
        × (size d.queue ≤ max (size q) q.cap)
        × ((put_ready q || get_ready q) ≡ true)
  unfolding step put_ready get_ready
  step_bounds (calls_put val) q d h e = ground (arith, length-append q.que (val ∷ []))
  step_bounds (calls_try_put val) q d h e = ground (arith, length-append q.que (val ∷ []))
  step_bounds (calls_try_put_for val) q d h e = ground (arith, length-append q.que (val ∷ []))
  step_bounds c q d h e = ground arith

  stays_closed :
      (c : Call A) (q : Queue A) (d : Done A)
      → q.closed ≡ true
      → step c q ≡ some d
      → (d.queue.closed ≡ true) × (accepted c d.reply ≡ [])
  unfolding step put_ready get_ready
  stays_closed (calls_put val) q d h e = ground arith
  stays_closed c q d h e = ground arith

  closed_ends : (c : Call A) (q : Queue A) → q.closed ≡ true → step c q ≢ none
  unfolding step put_ready get_ready
  closed_ends (calls_put val) q h e = ground arith
  closed_ends c q h e = ground arith

  -- On a closed queue no call waits, and the queue stays closed with nothing put in.
  pub step_closed :
      (c : Call A) (q : Queue A)
      → q.closed ≡ true
      → (d : Done A) × (step c q ≡ some d) × (d.queue.closed ≡ true) × (accepted c d.reply ≡ [])
  step_closed c q h = elim (Option-cases (step c q)) [
    | inl e ↦ absurd (closed_ends c q h e)
    | inr (d, e) ↦ let (closed, refused) = stays_closed c q d h e in (d, e, closed, refused)
  ]

  -- The replies of `n` calls of `get` by one thread; a call that waits ends the list.
  pub gets : ℕ → Queue A → List (Reply A)
  unfolding get
  gets zero q = []
  gets (suc n) q = elim (get q) [ none ↦ [] | some d ↦ d.reply ∷ gets n d.queue ]

  -- From a closed queue every item that is left can still be got, in order; then `get` throws.
  pub gets_closed :
      (xs : List A) (q : Queue A)
      → q.closed ≡ true
      → q.que ≡ xs
      → gets (length xs + 1) q ≡ map item xs ++ throws_closed ∷ []
  unfolding gets get_ready
  gets_closed [] q h e = ground arith
  gets_closed (x ∷ xs) q h e = ground (arith, gets_closed xs (record q { que = xs }) h)
