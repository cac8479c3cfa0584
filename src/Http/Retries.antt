-- ===== src/Http/Retries.antt =====
-- Which attempt a request ends with.
use tetra_host.Prelude.{
  ℕ, zero, suc, String, Bool, true, false, ◌≡◌, ◌≤◌, ◌<◌, ◌+◌, ◌&&◌, refl, Result, err, arith, ltb,
  Bool-cases, inl, inr,
}
use native.Mathlib.Decide.{dec_lt}
use tetra_host.Http.{
  ProviderApiError, Response, Reply, transport_error, responded, is_transient, request_failed,
  accept, attempts_from, send_with_retries,
}

-- an attempt that is worth another one
unfoldable pub is_retried : Reply → Bool
is_retried transport_error = true
is_retried (responded r) = is_transient r.status_code

module _ (is_error : ℕ → Bool) (service : String) where
  -- what an attempt gives that is not followed by another
  unfoldable pub outcome : Reply → Result ProviderApiError Response
  outcome transport_error = err (request_failed is_error service)
  outcome (responded r) = accept is_error service r

  module _ (max_attempts : ℕ) (net : ℕ → Reply) where
    -- The attempts from `start` to `k` were sent, all but the last were worth another one, and the
    -- last either was not, or was the last that is allowed.
    pub record EndsAt (start k : ℕ) (r : ℕ × Result ProviderApiError Response) : Type 0 where
      pub is_count : r.0 ≡ k
      pub is_result : r.1 ≡ outcome (net k)
      pub starts : start ≤ k
      pub stops : k ≤ max_attempts
      pub retried : (j : ℕ) → start ≤ j → j < k → is_retried (net j) ≡ true
      pub settled : k < max_attempts → is_retried (net k) ≡ false

    more :
        (start k : ℕ) (r : ℕ × Result ProviderApiError Response)
        → is_retried (net start) ≡ true
        → EndsAt (start + 1) k r
        → EndsAt start k r
    more start k r again h = record {
      is_count = h.is_count;
      is_result = h.is_result;
      starts = omega (arith, h.starts);
      stops = h.stops;
      retried = λ j from to. elim (dec_lt start j) [
        | yes later ↦ h.retried j (omega arith) to
        | no now ↦ let same : j ≡ start = omega arith in rw same again
      ];
      settled = h.settled;
    }

    here :
        (start : ℕ) (r : ℕ × Result ProviderApiError Response)
        → r ≡ (start, outcome (net start))
        → start ≤ max_attempts
        → (start < max_attempts → is_retried (net start) ≡ false)
        → EndsAt start start r
    here start r is below over = record {
      is_count = rw is refl;
      is_result = rw is refl;
      starts = omega arith;
      stops = below;
      retried = λ j from to. absurd (omega arith);
      settled = over;
    }

    attempts_from-EndsAt :
        (attempt left : ℕ)
        → attempt + left ≡ max_attempts + 1
        → 1 ≤ left
        → (k : ℕ) × EndsAt attempt k (attempts_from is_error service max_attempts net attempt left)
    unfolding attempts_from outcome is_retried
    attempts_from-EndsAt attempt zero e h = absurd (omega arith)
    attempts_from-EndsAt attempt (suc left) e h =
        elim (Bool-cases (is_retried (net attempt) && ltb attempt max_attempts)) [
          | inl again ↦
              let (k, rest) =
                attempts_from-EndsAt (attempt + 1) left (omega arith) (ground arith) in
              let goes : attempts_from is_error service max_attempts net attempt (suc left)
                  ≡ attempts_from is_error service max_attempts net (attempt + 1) left =
                ground arith in
              (k, rw goes (more attempt k _ (ground arith) rest))
          | inr over ↦ (attempt, here attempt _ (ground arith) (omega arith) (λ b. ground arith))
        ]

    -- A request with one attempt allowed or more ends, after `k` attempts of at most that many, with
    -- the reply of the `k`th: the ones before were all worth a retry, and so was none that is left.
    pub send_with_retries-EndsAt :
        1 ≤ max_attempts
        → (k : ℕ) × EndsAt 1 k (send_with_retries is_error service max_attempts net)
    unfolding send_with_retries
    send_with_retries-EndsAt h = attempts_from-EndsAt 1 max_attempts (omega arith) h
