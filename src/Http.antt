-- ===== src/Http.antt =====
-- app/services/http.py: the requests of the providers' clients. `net` says how each attempt ends, by
-- its number; `is_error` is that of httpx. The pauses between attempts are left out, and the body
-- of a reply is its text, of which an error quotes the first 300 characters.
pub mod Retries
use tetra_host.Prelude.{
  ℕ, zero, suc, String, Bool, true, false, ◌&&◌, ◌||◌, ◌+◌, ◌-◌, ◌==◌, Option, none, some, Result,
  ok, err, ltb, eqb, if◌then◌else◌,
}
use tetra_host.Prelude.Text.{take_chars}
use Prim.Native.String.{◌++◌}

pub record ProviderApiError : Type 0 where
  pub service : String
  pub message : String
  pub status_code : Option ℕ

pub record Response : Type 0 where
  pub status_code : ℕ
  pub text : String

pub data Reply : Type 0 where
  transport_error : Reply
  responded : Response → Reply

-- status_code in {429, 500, 502, 503, 504}
unfoldable pub is_transient : ℕ → Bool
is_transient code = eqb code 429 || eqb code 500 || eqb code 502 || eqb code 503 || eqb code 504

module _ (is_error : ℕ → Bool) (service : String) where
  abbrev pub request_failed : ProviderApiError
  request_failed = record {
    service = service;
    message = service ++ " request failed.";
    status_code = none;
  }

  -- a response that is not retried
  unfoldable pub accept : Response → Result ProviderApiError Response
  accept r =
      if is_error r.status_code
      then err (record {
        service = service;
        message = service ++ " request failed: " ++ take_chars 300 r.text;
        status_code = some r.status_code;
      })
      else ok r

  module _ (max_attempts : ℕ) (net : ℕ → Reply) where
    -- The loop from `attempt` on, with `left` attempts to go: how many were sent, and the result.
    unfoldable pub attempts_from : ℕ → ℕ → ℕ × Result ProviderApiError Response
    attempts_from attempt zero = (attempt - 1, err request_failed)
    attempts_from attempt (suc left) =
        let rest = attempts_from (attempt + 1) left in
        elim (net attempt) [
          | transport_error ↦
              if eqb attempt max_attempts then (attempt, err request_failed) else rest
          | responded r ↦
              if is_transient r.status_code && ltb attempt max_attempts
              then rest
              else (attempt, accept r)
        ]

    unfoldable pub send_with_retries : ℕ × Result ProviderApiError Response
    send_with_retries = attempts_from 1 max_attempts
