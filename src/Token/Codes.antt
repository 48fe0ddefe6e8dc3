-- ===== src/Token/Codes.antt =====
-- The responses that src/server_response.cpp makes of the structs of MQTT v5, and what is in these.
use paho_mqtt_cpp.Prelude.{
  ℕ, zero, suc, ◌+◌, ◌<◌, ◌≤◌, leb, ◌≡◌, refl, ap, sym, subst, ◌∙◌, not, is_zero, Bool-cases, inl,
  inr, Option-cases, none, some, List, [], ◌∷◌, length, get_elem?, arith,
}
use paho_mqtt_cpp.Token.Response.{
  SuccessData5, ConnectResponse, connect_response5, elements, reason_codes5,
}

elements-length : (k i : ℕ) (a : ℕ → ℕ) → length (elements k i a) ≡ k
unfolding elements
elements-length zero i a = refl
elements-length (suc k) i a = ap suc (elements-length k (suc i) a)

elements-get : (k i j : ℕ) (a : ℕ → ℕ) → j < k → get_elem? (elements k i a) j ≡ some (a (i + j))
unfolding elements
elements-get zero i j a h = absurd (omega (arith, h))
elements-get (suc k) i zero a h = ap (λ n. some (a n)) (omega arith)
elements-get (suc k) i (suc j) a h =
    elements-get k (suc i) j a (omega (arith, h)) ∙ ap (λ n. some (a n)) (omega arith)

module _ {P : Type 0} where
  -- The reason codes of an answer: its own code, if it counts no more than one; else as many as it
  -- counts of its array, in their order; and none where it has no array.
  pub data IsCodes (rsp : SuccessData5 P) : List ℕ → Type 0 where
    alone : rsp.reason_code_count ≤ 1 → IsCodes rsp (rsp.reason_code ∷ [])
    listed :
        (a : ℕ → ℕ) (cs : List ℕ)
        → 1 < rsp.reason_code_count
        → rsp.reason_codes ≡ some a
        → length cs ≡ rsp.reason_code_count
        → ((i : ℕ) → i < rsp.reason_code_count → get_elem? cs i ≡ some (a i))
        → IsCodes rsp cs
    missing : 1 < rsp.reason_code_count → rsp.reason_codes ≡ none → IsCodes rsp []

  -- What a client is told of a connect.
  pub record IsConnected (rsp : SuccessData5 P) (r : ConnectResponse P) : Type 0 where
    pub its_properties : r.properties ≡ some (rsp.properties)
    pub its_uri : r.server_uri ≡ rsp.server_uri
    pub its_version : r.mqtt_version ≡ rsp.mqtt_version
    pub its_session : r.session_present ≡ not (is_zero rsp.session_present)

  pub connect_response5-IsConnected :
      (rsp : SuccessData5 P) → IsConnected rsp (connect_response5 rsp)
  unfolding connect_response5
  connect_response5-IsConnected rsp = ground arith

  IsCodes-by :
      (rsp : SuccessData5 P) {cs : List ℕ}
      → reason_codes5 rsp ≡ cs
      → IsCodes rsp cs
      → IsCodes rsp (reason_codes5 rsp)
  IsCodes-by rsp e h = subst (λ l. IsCodes rsp l) (sym e) h

  pub reason_codes5-IsCodes : (rsp : SuccessData5 P) → IsCodes rsp (reason_codes5 rsp)
  unfolding reason_codes5
  reason_codes5-IsCodes rsp = elim (Bool-cases (leb rsp.reason_code_count 1)) [
    | inl few ↦ elim (Option-cases (rsp.reason_codes)) [
      | inl e ↦ IsCodes-by rsp (rw (e, few) refl) (alone (ground (arith, few)))
      | inr (a, e) ↦ IsCodes-by rsp (rw (e, few) refl) (alone (ground (arith, few)))
    ]
    | inr many ↦ elim (Option-cases (rsp.reason_codes)) [
      | inl e ↦ IsCodes-by rsp (rw (e, many) refl) (missing (ground (arith, many)) e)
      | inr (a, e) ↦ IsCodes-by rsp (rw (e, many) refl) (
          listed a (elements rsp.reason_code_count 0 a) (ground (arith, many)) e
            (elements-length rsp.reason_code_count 0 a)
            (λ i h.
              elements-get rsp.reason_code_count 0 i a h ∙ ap (λ n. some (a n)) (omega arith)))
    ]
  ]
