-- ===== src/Token/Completion.antt =====
-- What a callback of the C library does to a token (src/token.cpp).
use paho_mqtt_cpp.Prelude.{
  ℕ, ◌≡◌, true, false, Option, none, some, List, [], ◌∷◌, ◌++◌, is_zero, arith,
}
use paho_mqtt_cpp.Token.{
  Token, Effect, success_call, failure_call, notify_all, remove_token, Callback, success, success5,
  failure, failure5, complete_with, set_action_callback, with_success_data, with_success_data5,
  SuccessData, SuccessData5,
}

abbrev pub listener_calls : (ℕ → Effect) → Option ℕ → List Effect
listener_calls call none = []
listener_calls call (some l) = call l ∷ []

-- The calls on listeners among the effects.
abbrev pub calls : List Effect → List Effect
calls [] = []
calls (success_call l ∷ es) = success_call l ∷ calls es
calls (failure_call l ∷ es) = failure_call l ∷ calls es
calls (notify_all ∷ es) = calls es
calls (remove_token ∷ es) = calls es

module _ {P : Type 0} where
  -- The kind of call that a callback makes on the listener.
  abbrev pub call_of : Callback P → ℕ → Effect
  call_of (success rsp) = success_call
  call_of (success5 rsp) = success_call
  call_of (failure rsp) = failure_call
  call_of (failure5 rsp) = failure_call

  -- A failure is reported with a return code other than success.
  abbrev pub IsHonest : Callback P → Type 0
  IsHonest (success rsp) = Unit {0}
  IsHonest (success5 rsp) = Unit {0}
  IsHonest (failure none) = Unit {0}
  IsHonest (failure (some rsp)) = is_zero rsp.code ≡ false
  IsHonest (failure5 none) = Unit {0}
  IsHonest (failure5 (some rsp)) = is_zero rsp.code ≡ false

  -- What a callback leaves alone.
  record Kept (t t' : Token P) : Type 0 where
    type_kept : t'.type ≡ t.type
    topics_kept : t'.topics ≡ t.topics
    listener_kept : t'.listener ≡ t.listener
    context_kept : t'.user_context ≡ t.user_context
    expected_kept : t'.num_expected ≡ t.num_expected

  with_success_data-Kept :
      (rsp : Option SuccessData) (t : Token P) → Kept t (with_success_data rsp t)
  unfolding with_success_data
  with_success_data-Kept none t = ground arith
  with_success_data-Kept (some rsp) t = ground arith

  with_success_data5-Kept :
      (rsp : Option (SuccessData5 P)) (t : Token P) → Kept t (with_success_data5 rsp t)
  unfolding with_success_data5
  with_success_data5-Kept none t = ground arith
  with_success_data5-Kept (some rsp) t = ground arith

  -- Whatever the C library calls, the token is complete after it, its listener is called once, if
  -- it has one, with success or failure as the callback says, before the waiting threads are
  -- notified and the client is told to forget the token; its type, topics, listener, user context
  -- and expected number of results are kept.
  pub complete_with-completes :
      (cb : Callback P) (t : Token P)
      → ((complete_with cb t).0.complete ≡ true)
        × ((complete_with cb t).1
            ≡ listener_calls (call_of cb) t.listener ++ notify_all ∷ remove_token ∷ [])
        × ((complete_with cb t).0.type ≡ t.type)
        × ((complete_with cb t).0.topics ≡ t.topics)
        × ((complete_with cb t).0.listener ≡ t.listener)
        × ((complete_with cb t).0.user_context ≡ t.user_context)
        × ((complete_with cb t).0.num_expected ≡ t.num_expected)
  unfolding complete_with
  complete_with-completes (success rsp) t = ground (arith, with_success_data-Kept rsp t)
  complete_with-completes (success5 rsp) t = ground (arith, with_success_data5-Kept rsp t)
  complete_with-completes (failure none) t = ground arith
  complete_with-completes (failure (some rsp)) t = ground arith
  complete_with-completes (failure5 none) t = ground arith
  complete_with-completes (failure5 (some rsp)) t = ground arith

  -- For an incomplete token with no listener, and a callback that reports a failure with a return
  -- code other than success, if at all: a listener that is set before the callback and one that is
  -- set after it are called alike, once, and leave the same token.
  pub set_action_callback_order :
      (cb : Callback P) (l : ℕ) (t : Token P)
      → t.complete ≡ false
      → t.listener ≡ none
      → IsHonest cb
      → let (before, e1) = set_action_callback l t in
        let (t1, e2) = complete_with cb before in
        let (done, e3) = complete_with cb t in
        let (t2, e4) = set_action_callback l done in
        (calls (e1 ++ e2) ≡ call_of cb l ∷ []) × (calls (e3 ++ e4) ≡ call_of cb l ∷ []) × (t1 ≡ t2)
  unfolding complete_with set_action_callback
  set_action_callback_order (success none) l t c n h = (ground arith, ground arith, ground arith)
  set_action_callback_order (success (some rsp)) l t c n h =
      (ground arith, ground arith, ground arith)
  set_action_callback_order (success5 none) l t c n h = (ground arith, ground arith, ground arith)
  set_action_callback_order (success5 (some rsp)) l t c n h =
      (ground arith, ground arith, ground arith)
  set_action_callback_order (failure none) l t c n h = (ground arith, ground arith, ground arith)
  set_action_callback_order (failure (some rsp)) l t c n h =
      (ground arith, ground arith, ground arith)
  set_action_callback_order (failure5 none) l t c n h = (ground arith, ground arith, ground arith)
  set_action_callback_order (failure5 (some rsp)) l t c n h =
      (ground arith, ground arith, ground arith)
