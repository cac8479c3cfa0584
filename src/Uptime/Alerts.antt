-- ===== src/Uptime/Alerts.antt =====
-- The alerts of a monitor alternate.
use tetra_host.Prelude.{
  ℕ, String, Bool, true, false, ◌≡◌, refl, sym, Option, none, some, All, List, [], ◌∷◌,
  if◌then◌else◌, inl, inr, Bool-cases, ltb,
}
use mathlib.Core.Path.{subst}
use tetra_host.Models.{UptimeMonitor, UptimeStatus}
use tetra_host.Uptime.{
  Outcome, responded, failed, crashed, probe, should_alert, Event, app_down, app_up, event_of,
  Alert, check_monitor, probed,
}

-- A check of a monitor: whether the sweep that it is part of commits, its instant, and what the
-- probe met.
pub record Check : Type 0 where
  pub commits : Bool
  pub now : ℕ
  pub outcome : Outcome

-- a sweep that raises keeps the row as it was, but an alert that was sent is sent
unfoldable pub watched :
    Bool
    → UptimeMonitor
    → Option (UptimeMonitor × Option Alert)
    → (UptimeMonitor → List Event)
    → List Event
watched commits m none later = later m
watched commits m (some (after, alert)) later =
    let events = later (if commits then after else m) in
    elim alert [ none ↦ events | some a ↦ a.event ∷ events ]

-- The events that a monitor sends over its checks.
unfoldable pub watch : List Check → UptimeMonitor → List Event
unfolding watched
watch [] m = []
watch (c ∷ checks) m =
    watched c.commits m (check_monitor c.now m (probe c.outcome)) (λ after. watch checks after)

-- Events that alternate, and begin with `app.up` just where the monitor was down.
abbrev pub Alternates : UptimeStatus → List Event → Type 0
Alternates s [] = Unit
Alternates UptimeStatus.down (app_up ∷ events) = Alternates UptimeStatus.up events
Alternates UptimeStatus.down (app_down ∷ events) = (true ≡ false)
Alternates UptimeStatus.up (app_down ∷ events) = Alternates UptimeStatus.down events
Alternates UptimeStatus.up (app_up ∷ events) = (true ≡ false)
Alternates UptimeStatus.unknown (app_down ∷ events) = Alternates UptimeStatus.down events
Alternates UptimeStatus.unknown (app_up ∷ events) = (true ≡ false)

-- a first `app.down` is due to a monitor that is up as to one that is unknown
Alternates-up :
    (events : List Event)
    → Alternates UptimeStatus.up events
    → Alternates UptimeStatus.unknown events
Alternates-up [] h = tt
Alternates-up (app_down ∷ events) h = h
Alternates-up (app_up ∷ events) h = h

IsSettled : UptimeStatus → Type 0
IsSettled UptimeStatus.unknown = (true ≡ false)
IsSettled UptimeStatus.up = Unit
IsSettled UptimeStatus.down = Unit

AllSettled : Option (UptimeStatus × ℕ × String) → Type 0
AllSettled none = Unit
AllSettled (some result) = IsSettled result.0

probe-AllSettled : (o : Outcome) → AllSettled (probe o)
unfolding probe IsSettled AllSettled
probe-AllSettled (responded code latency) = elim (Bool-cases (ltb code 400)) [
  | inl e ↦ rw e tt
  | inr e ↦ rw e tt
]
probe-AllSettled (failed message latency) = tt
probe-AllSettled crashed = tt

after_check :
    (previous current : UptimeStatus) (events : List Event)
    → IsSettled current
    → Alternates current events
    → Alternates previous
        (elim (should_alert previous current) [ true ↦ event_of current ∷ events | false ↦ events ])
unfolding should_alert IsSettled
after_check UptimeStatus.up UptimeStatus.up events s h = h
after_check UptimeStatus.down UptimeStatus.down events s h = h
after_check UptimeStatus.unknown UptimeStatus.up events s h = Alternates-up events h
after_check UptimeStatus.unknown UptimeStatus.down events s h = h
after_check UptimeStatus.up UptimeStatus.down events s h = h
after_check UptimeStatus.down UptimeStatus.up events s h = h
after_check previous UptimeStatus.unknown events s h = cc

sent :
    (b : Bool) (a : Alert) (events : List Event)
    → elim (if b then some a else none) [ none ↦ events | some x ↦ x.event ∷ events ]
      ≡ elim b [ true ↦ a.event ∷ events | false ↦ events ]
sent true a events = refl
sent false a events = refl

watched-Alternates :
    (now : ℕ) (m : UptimeMonitor) (o : Option (UptimeStatus × ℕ × String))
    (later : UptimeMonitor → List Event)
    → AllSettled o
    → ((after : UptimeMonitor) → Alternates after.status (later after))
    → Alternates m.status (watched true m (check_monitor now m o) later)
unfolding watched check_monitor probed AllSettled
watched-Alternates now m none later settled h = h m
watched-Alternates now m (some (current, latency, detail)) later settled h =
    let after = (probed now m (current, latency, detail)).0 in
    subst (λ es. Alternates m.status es)
      (sym (sent (should_alert m.status current) _ (later after)))
      (after_check m.status current (later after) settled (h after))

-- Over checks in sweeps that commit, the alerts of a monitor alternate between `app.down` and
-- `app.up`, and begin with `app.up` only where it was down: `app.up` is only sent after a time that
-- it was down.
pub watch-Alternates :
    (checks : List Check) (m : UptimeMonitor)
    → All (λ c. c.commits ≡ true) checks
    → Alternates m.status (watch checks m)
unfolding watch
watch-Alternates [] m committed = tt
watch-Alternates (c ∷ checks) m (commits, committed) = rw commits (
    watched-Alternates c.now m (probe c.outcome) (λ after. watch checks after)
      (probe-AllSettled c.outcome) (λ after. watch-Alternates checks after committed))
