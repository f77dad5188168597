-- ===== src/Graph/Metadata/Requests.antt =====
-- The requests that `getJSON` makes.
use docker_vrising.Prelude.{
  ℕ, zero, suc, Bool, true, false, ◌≡◌, ◌≤◌, ◌<◌, ◌+◌, Option, some, arith, Option-cases, inl, inr,
  nat_eq, nat_beq, nat_beq_iff, Bool-cases, subst,
}
use docker_vrising.Graph.Metadata.{Response, is_retried, get_json, get_json_from}

module _ {A : Type 0} (client : ℕ → Option (Response A)) (is_cancelled : ℕ → Bool) where
  -- The request was answered with a status that is tried again, and the wait was not cancelled.
  pub record IsRetried (attempt : ℕ) : Type 0 where
    pub response : Response A
    pub answered : client attempt ≡ some response
    pub retried : is_retried response.status ≡ true
    pub waited : is_cancelled attempt ≡ false

  get_json_from-le :
      (left attempt : ℕ)
      → left + attempt ≤ 3
      → (get_json_from client is_cancelled left attempt).1 ≤ 3
  unfolding get_json_from
  get_json_from-le zero attempt h = omega (arith, h)
  get_json_from-le (suc left) attempt h = ground (arith, get_json_from-le left (suc attempt))

  get_json_from-IsRetried :
      (left attempt i : ℕ)
      → attempt ≤ i
      → suc i < (get_json_from client is_cancelled left attempt).1
      → IsRetried i
  unfolding get_json_from
  get_json_from-IsRetried zero attempt i low high = absurd (omega (arith, low, high))
  get_json_from-IsRetried (suc left) attempt i low high = elim (Option-cases (client attempt)) [
    | inl e ↦ absurd (ground (arith, low))
    | inr (r, e) ↦ elim (Bool-cases (nat_beq attempt i)) [
      | inl same ↦
          let p : attempt ≡ i = (nat_beq_iff attempt i).0 same in
          subst IsRetried p
            (record { response = r; answered = e; retried = ground arith; waited = ground arith })
      | inr later ↦
          get_json_from-IsRetried left (suc attempt) i (ground arith) (ground (arith, low))
    ]
  ]

  -- `getJSON` makes at most three requests, and another one only after an answer of 429 or of 500
  -- and more, and a wait that was not cancelled.
  pub get_json-IsRetried :
      ((get_json client is_cancelled).1 ≤ 3)
      × ((i : ℕ) → suc i < (get_json client is_cancelled).1 → IsRetried i)
  unfolding get_json
  get_json-IsRetried =
      (get_json_from-le 3 0 (omega arith), λ i h. get_json_from-IsRetried 3 0 i (omega arith) h)
