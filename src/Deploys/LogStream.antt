-- ===== src/Deploys/LogStream.antt =====
-- app/modules/deploys/service.py, `stream_deploy_log_events`: the log of a build as server-sent
-- events. A poll is what the stream meets when it looks: a client that has gone, or what `fetch`
-- gives. The instants of `elapsed` are multiples of a unit of time.
pub mod Spells
pub mod Ends
use tetra_host.Prelude.{
  ℕ, String, Bool, true, false, not, ◌&&◌, ◌||◌, ◌==◌, ◌+◌, Option, none, some, List, [], ◌∷◌, ◌++◌,
  map, leb, if◌then◌else◌, length, drop, max,
}
use tetra_host.Prelude.Text.{split}
use tetra_host.Models.{DeploymentStatus, is_ready, is_error}
use tetra_host.Deploys.{newline}

pub data LogEvent : Type 0 where
  status done timed_out : DeploymentStatus → LogEvent
  line : String → LogEvent
  not_found : LogEvent

pub data Poll : Type 0 where
  disconnected missing : Poll
  fetched : DeploymentStatus → String → Poll

unfoldable pub is_terminal : DeploymentStatus → Bool
is_terminal s = is_ready s || is_error s

abbrev same_status : DeploymentStatus → DeploymentStatus → Bool
same_status DeploymentStatus.queued DeploymentStatus.queued = true
same_status DeploymentStatus.building DeploymentStatus.building = true
same_status DeploymentStatus.ready DeploymentStatus.ready = true
same_status DeploymentStatus.error DeploymentStatus.error = true
same_status _ _ = false

unfoldable pub status_events : Option DeploymentStatus → DeploymentStatus → List LogEvent
status_events none s = LogEvent.status s ∷ []
status_events (some last) s = if same_status last s then [] else LogEvent.status s ∷ []

unfoldable pub log_lines : String → List String
log_lines text = if text == "" then [] else split newline text

unfoldable pub line_events : List String → List LogEvent
line_events [] = []
line_events (l ∷ ls) = LogEvent.line l ∷ line_events ls

module _ (poll_interval max_time : ℕ) where
  -- the events from a poll on, after `sent` lines and the status `last`, at the time `elapsed`
  unfoldable pub stream_from : ℕ → Option DeploymentStatus → ℕ → List Poll → List LogEvent
  unfolding status_events
  stream_from sent last elapsed [] = []
  stream_from sent last elapsed (Poll.disconnected ∷ polls) = []
  stream_from sent last elapsed (Poll.missing ∷ polls) = LogEvent.not_found ∷ []
  stream_from sent last elapsed (Poll.fetched s text ∷ polls) =
      let lines = log_lines text in
      let later = elapsed + poll_interval in
      let rest = stream_from (max sent (length lines)) (some s) later polls in
      let news = status_events last s ++ line_events (drop sent lines) in
      if is_terminal s
      then news ++ (LogEvent.done s ∷ [])
      else if leb max_time later
      then news ++ (LogEvent.timed_out s ∷ [])
      else news ++ rest

  unfoldable pub stream_deploy_log_events : List Poll → List LogEvent
  stream_deploy_log_events polls = stream_from 0 none 0 polls
