-- ===== src/Deploys/LogStream/Ends.antt =====
-- Streams stop: the time limit bounds the number of polls.
use tetra_host.Prelude.{
  ℕ, ◌≡◌, refl, ◌+◌, ◌*◌, ◌≤◌, ◌<◌, Option, List, [], ◌∷◌, ◌++◌, leb, max, some, none, inl, inr,
  arith, length, Bool-cases,
}
use tetra_host.Models.{DeploymentStatus}
use tetra_host.Deploys.LogStream.{Poll, stream_from, stream_deploy_log_events, log_lines}

module _ (interval limit : ℕ) where
  stream_from-stops :
      (sent : ℕ) (last : Option DeploymentStatus) (elapsed : ℕ) (polls more : List Poll)
      → elapsed < limit
      → limit ≤ elapsed + length polls * interval
      → stream_from interval limit sent last elapsed (polls ++ more)
        ≡ stream_from interval limit sent last elapsed polls
  unfolding stream_from
  stream_from-stops sent last elapsed [] more early late = ground arith
  stream_from-stops sent last elapsed (Poll.disconnected ∷ polls) more early late = refl
  stream_from-stops sent last elapsed (Poll.missing ∷ polls) more early late = refl
  stream_from-stops sent last elapsed (Poll.fetched s text ∷ polls) more early late =
      elim (Bool-cases (leb limit (elapsed + interval))) [
        | inl over ↦ ground arith
        | inr under ↦
            let rest =
              stream_from-stops (max sent (length (log_lines text))) (some s) (elapsed + interval)
                polls more (ground arith) (ground arith) in
            rw rest refl
      ]

  -- Once the polls have taken as long as the limit, the stream has ended: further polls change nothing.
  pub stream_deploy_log_events-stops :
      (polls more : List Poll)
      → 0 < limit
      → limit ≤ length polls * interval
      → stream_deploy_log_events interval limit (polls ++ more)
        ≡ stream_deploy_log_events interval limit polls
  unfolding stream_deploy_log_events
  stream_deploy_log_events-stops polls more early late =
      stream_from-stops 0 none 0 polls more early (omega arith)
