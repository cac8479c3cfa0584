-- ===== src/Tests/Http.antt =====
-- Retries.
use tetra_host.Prelude.{
  ℕ, String, Bool, ◌≡◌, ◌≤◌, refl, none, some, Result, ok, err, arith, leb, eqb, if◌then◌else◌,
}
use tetra_host.Http.{
  Response, Reply, transport_error, responded, is_transient, accept, attempts_from,
  send_with_retries,
}
use tetra_host.Http.Retries.{EndsAt, send_with_retries-EndsAt}

abbrev is_error : ℕ → Bool
is_error code = leb 400 code

abbrev busy : Response
busy = record { status_code = 503; text = "busy" }

abbrev fine : Response
fine = record { status_code = 200; text = "{}" }

abbrev net : ℕ → Reply
net n = if eqb n 1 then transport_error else if eqb n 2 then responded busy else responded fine

sends : send_with_retries is_error "coolify" 3 net ≡ (3, ok fine)
unfolding send_with_retries attempts_from accept is_transient
sends = refl

gives_up : send_with_retries is_error "coolify" 2 net ≡ (
  2,
  err (record {
    service = "coolify";
    message = "coolify request failed: busy";
    status_code = some 503;
  }),
)
unfolding send_with_retries attempts_from accept is_transient tetra_host.Prelude.Text.take_chars
gives_up = refl

send_with_retries-EndsAt_example :
    (k : ℕ) × EndsAt is_error "coolify" 3 net 1 k (send_with_retries is_error "coolify" 3 net)
send_with_retries-EndsAt_example = send_with_retries-EndsAt is_error "coolify" 3 net (omega arith)
