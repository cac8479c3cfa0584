-- ===== src/Deploys/LogStream/Spells.antt =====
-- The lines of a stream, against the text of the log.
use tetra_host.Prelude.{
  ℕ, String, ◌≡◌, refl, ◌+◌, ◌*◌, ◌<◌, true, false, Option, none, some, List, [], ◌∷◌, ◌++◌, leb,
  max, inl, inr, arith, length, drop, All, Bool-cases, ◌∙◌, sym, ap, length-append, eq_iff, ◌==◌,
}
use mathlib.Core.List.{append-nil, append_assoc}
use tetra_host.Prelude.Text.{join, join-split}
use tetra_host.Models.{DeploymentStatus}
use tetra_host.Deploys.{newline}
use tetra_host.Deploys.LogStream.{
  LogEvent, Poll, stream_from, stream_deploy_log_events, is_terminal, log_lines, line_events,
  status_events,
}

-- the data of the `log` events
unfoldable pub emitted : List LogEvent → List String
emitted [] = []
emitted (LogEvent.line l ∷ events) = l ∷ emitted events
emitted (_ ∷ events) = emitted events

-- each poll reads a log that extends the one before
abbrev pub Growing : List String → List Poll → Type 0
Growing lines [] = Unit
Growing lines (Poll.fetched s text ∷ polls) =
    ((more : List String) × (log_lines text ≡ lines ++ more)) × Growing (log_lines text) polls
Growing lines (_ ∷ polls) = Growing lines polls

-- a poll of a build that goes on
abbrev pub Unfinished : Poll → Type 0
Unfinished (Poll.fetched s text) = is_terminal s ≡ false
Unfinished _ = ⊥

emitted-append : (xs ys : List LogEvent) → emitted (xs ++ ys) ≡ emitted xs ++ emitted ys
unfolding emitted
emitted-append [] ys = refl
emitted-append (LogEvent.line l ∷ xs) ys = ap (λ t. l ∷ t) (emitted-append xs ys)
emitted-append (LogEvent.status s ∷ xs) ys = emitted-append xs ys
emitted-append (LogEvent.done s ∷ xs) ys = emitted-append xs ys
emitted-append (LogEvent.timed_out s ∷ xs) ys = emitted-append xs ys
emitted-append (LogEvent.not_found ∷ xs) ys = emitted-append xs ys

emitted-line_events : (ls : List String) → emitted (line_events ls) ≡ ls
unfolding emitted line_events
emitted-line_events [] = refl
emitted-line_events (l ∷ ls) = ap (λ t. l ∷ t) (emitted-line_events ls)

emitted-status_events :
    (last : Option DeploymentStatus) (s : DeploymentStatus) → emitted (status_events last s) ≡ []
unfolding emitted status_events
emitted-status_events none s = refl
emitted-status_events (some t) s = ground arith

drop-append : (xs ys : List String) → drop (length xs) (xs ++ ys) ≡ ys
drop-append [] ys = refl
drop-append (x ∷ xs) ys = drop-append xs ys

resume :
    (before more lines rest : List String)
    → lines ≡ before ++ more
    → before ++ (drop (length before) lines ++ rest) ≡ lines ++ rest
resume before more lines rest grown = rw (grown, drop-append, append_assoc) refl

emitted-news :
    (last : Option DeploymentStatus) (s : DeploymentStatus) (ls : List String)
    (rest : List LogEvent)
    → emitted (status_events last s ++ line_events ls ++ rest) ≡ ls ++ emitted rest
emitted-news last s ls rest =
    rw (emitted-append, emitted-append, emitted-status_events, emitted-line_events) refl

pub join-log_lines : (text : String) → join newline (log_lines text) ≡ text
unfolding log_lines
join-log_lines text = elim (Bool-cases (text == "")) [
  | inl e ↦ rw e (unfold join in sym ((eq_iff text "").0 e))
  | inr e ↦ rw e (join-split newline text)
]

module _ (interval limit : ℕ) (s : DeploymentStatus) (text : String) where
  emitted-stream_from :
      (before : List String) (last : Option DeploymentStatus) (elapsed : ℕ) (polls : List Poll)
      → All Unfinished polls
      → is_terminal s ≡ true
      → Growing before (polls ++ (Poll.fetched s text ∷ []))
      → elapsed + length polls * interval < limit
      → before
          ++ emitted (
              stream_from interval limit
                (length before)
                last
                elapsed
                (polls ++ (Poll.fetched s text ∷ [])))
        ≡ log_lines text
  unfolding stream_from
  emitted-stream_from before last elapsed [] _ finished ((more, grown), _) early =
      rw (finished, grown, emitted-news, drop-append) (unfold emitted in rw append-nil refl)
  emitted-stream_from before last elapsed (Poll.fetched t log ∷ polls) (going, all) finished
        ((more, grown), growing) early =
      let in_time : leb limit (elapsed + interval) ≡ false = ground arith in
      let longest : max (length before) (length (log_lines log)) ≡ length (log_lines log) =
        rw (grown, length-append) (ground arith) in
      let rest =
        emitted-stream_from (log_lines log) (some t) (elapsed + interval) polls all finished growing
          (ground arith) in
      rw (going, in_time, longest, emitted-news) (resume before more (log_lines log) _ grown ∙ rest)
  emitted-stream_from before last elapsed (Poll.missing ∷ polls) (bad, all) finished growing early =
      absurd bad
  emitted-stream_from before last elapsed (Poll.disconnected ∷ polls) (bad, all) finished growing
        early =
      absurd bad

  -- A client that stays until the build has finished, within the time limit, has received the lines
  -- of the whole log, each one once and in order: joined, they are the text of the log.
  pub stream_deploy_log_events-spells :
      (polls : List Poll)
      → All Unfinished polls
      → is_terminal s ≡ true
      → Growing [] (polls ++ (Poll.fetched s text ∷ []))
      → length polls * interval < limit
      → join newline
          (emitted (stream_deploy_log_events interval limit (polls ++ (Poll.fetched s text ∷ []))))
        ≡ text
  unfolding stream_deploy_log_events
  stream_deploy_log_events-spells polls all finished growing early =
      rw (emitted-stream_from [] none 0 polls all finished growing (omega arith))
        (join-log_lines text)
