-- ===== src/Uptime.antt =====
-- app/services/uptime.py: the monitors of tenants' URLs. What a probe meets is an argument, and so is
-- the clock; an alert is what `check_one` gives to its notifier, whose failures are passed over.
pub mod Alerts
use tetra_host.Prelude.{
  ℕ, String, Bool, true, false, not, ◌&&◌, ◌==◌, Option, none, some, List, [], ◌∷◌, ltb,
  if◌then◌else◌, first, insert, select, update, delete, newest_first, length,
}
use tetra_host.Prelude.Text.{strip, take_chars, decimal}
use Prim.Native.String.{◌++◌}
use tetra_host.Models.{Db, UptimeMonitor, UptimeStatus}

-- What the request of a probe ends with, after `latency` milliseconds; `crashed` is an exception
-- that is neither an `HTTPError` nor an `OSError`, such as httpx.InvalidURL.
pub data Outcome : Type 0 where
  responded : (status_code latency : ℕ) → Outcome
  failed : (message : String) (latency : ℕ) → Outcome
  crashed : Outcome

-- nothing where the exception escapes
unfoldable pub probe : Outcome → Option (UptimeStatus × ℕ × String)
probe (responded status_code latency) = some (
  if ltb status_code 400 then UptimeStatus.up else UptimeStatus.down,
  latency,
  "HTTP " ++ decimal status_code,
)
probe (failed message latency) =
    let short = take_chars 255 message in
    some (UptimeStatus.down, latency, if short == "" then "unreachable" else short)
probe crashed = none

unfoldable pub should_alert : UptimeStatus → UptimeStatus → Bool
should_alert UptimeStatus.up UptimeStatus.up = false
should_alert UptimeStatus.down UptimeStatus.down = false
should_alert UptimeStatus.unknown UptimeStatus.unknown = false
should_alert UptimeStatus.unknown UptimeStatus.up = false
should_alert _ _ = true

pub data Event : Type 0 where
  app_down app_up : Event

abbrev pub event_of : UptimeStatus → Event
event_of UptimeStatus.down = app_down
event_of _ = app_up

pub record Alert : Type 0 where
  pub tenant_id : String
  pub event : Event
  pub monitor : String
  pub url : String
  pub status : UptimeStatus
  pub latency_ms : ℕ
  pub detail : String

-- the monitor after a probe, and the alert that is due
unfoldable pub probed : ℕ → UptimeMonitor → UptimeStatus × ℕ × String → UptimeMonitor × Option Alert
probed now monitor (current, latency, detail) = (
  record monitor {
    status = current;
    last_checked_at = some now;
    last_latency_ms = latency;
    last_detail = detail;
  },
  if should_alert monitor.status current
      then some (record {
        tenant_id = monitor.tenant_id;
        event = event_of current;
        monitor = monitor.name;
        url = monitor.url;
        status = current;
        latency_ms = latency;
        detail = detail;
      })
      else none,
)

unfoldable pub check_monitor :
    ℕ → UptimeMonitor → Option (UptimeStatus × ℕ × String) → Option (UptimeMonitor × Option Alert)
check_monitor now monitor none = none
check_monitor now monitor (some result) = some (probed now monitor result)

written : UptimeMonitor → Option (UptimeMonitor × Option Alert) → Db → Option (Option Alert × Db)
written monitor none db = none
written monitor (some (after, alert)) db =
    some (alert, record db { monitors = update (λ m. m.id == monitor.id) (λ _. after) db.monitors })

-- the alert that was sent, and the rows; nothing where the probe raises
unfoldable pub check_one : ℕ → Outcome → UptimeMonitor → Db → Option (Option Alert × Db)
unfolding written
check_one now outcome monitor db = written monitor (check_monitor now monitor (probe outcome)) db

sent : Option Alert → List Alert → List Alert
sent none alerts = alerts
sent (some a) alerts = a ∷ alerts

-- the rest of a loop, behind the check of one monitor
checked : Option (Option Alert × Db) → (Db → List Alert × Option Db) → List Alert × Option Db
unfolding sent
checked none rest = ([], none)
checked (some (alert, db)) rest = let (alerts, after) = rest db in (sent alert alerts, after)

-- The loop over the monitors that were selected: the alerts that were sent, and the rows unless a
-- probe raised. `net` says what each URL's probe meets.
check_all : ℕ → (String → Outcome) → List UptimeMonitor → Db → List Alert × Option Db
unfolding checked
check_all now net [] db = ([], some db)
check_all now net (m ∷ ms) db =
    checked (check_one now (net m.url) m db) (λ db₁. check_all now net ms db₁)

unfoldable pub run_all_due : ℕ → (String → Outcome) → Db → List Alert × Option (ℕ × Db)
unfolding check_all
run_all_due now net db =
    let monitors = select (λ m. m.enabled) db.monitors in
    let (alerts, after) = check_all now net monitors db in
    (alerts, elim after [ none ↦ none | some db₁ ↦ some (length monitors, db₁) ])

-- What a tick of `scheduler_loop` leaves: where a probe raised, the rows are rolled back, and the
-- alerts before it were sent.
unfoldable pub run_uptime_checks : ℕ → (String → Outcome) → Db → List Alert × Db
run_uptime_checks now net db =
    let (alerts, after) = run_all_due now net db in
    (alerts, elim after [ none ↦ db | some ran ↦ ran.1 ])

unfoldable pub list_for_tenant : String → Db → List UptimeMonitor
list_for_tenant tenant_id db = newest_first (select (λ m. m.tenant_id == tenant_id) db.monitors)

own : String → Option UptimeMonitor → Option UptimeMonitor
own tenant_id none = none
own tenant_id (some m) = if m.tenant_id == tenant_id then some m else none

unfoldable pub get : String → String → Db → Option UptimeMonitor
unfolding own
get tenant_id monitor_id db = own tenant_id (first (λ m. m.id == monitor_id) db.monitors)

unfoldable pub create : String → String → String → String → Db → UptimeMonitor × Db
create id tenant_id name url db =
    let monitor : UptimeMonitor = record {
      id = id;
      tenant_id = tenant_id;
      name = strip name;
      url = strip url;
      enabled = true;
      status = UptimeStatus.unknown;
      last_checked_at = none;
      last_latency_ms = 0;
      last_detail = "";
    } in
    (monitor, record db { monitors = insert monitor db.monitors })

removed : Option UptimeMonitor → Db → Bool × Db
removed none db = (false, db)
removed (some m) db = (true, record db { monitors = delete (λ x. x.id == m.id) db.monitors })

unfoldable pub delete_monitor : String → String → Db → Bool × Db
unfolding removed
delete_monitor tenant_id monitor_id db = removed (get tenant_id monitor_id db) db
