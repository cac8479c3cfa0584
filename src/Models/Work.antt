-- ===== src/Models/Work.antt =====
-- app/models/domain.py, job.py and uptime.py.
use tetra_host.Prelude.{ℕ, String, Bool, true, false, Option}

pub data DomainStatus : Type 0 where
  pending verified : DomainStatus

unfoldable pub is_verified : DomainStatus → Bool
is_verified DomainStatus.verified = true
is_verified DomainStatus.pending = false

pub record Domain : Type 0 where
  pub id : String
  pub tenant_id : String
  pub project : String
  pub hostname : String
  pub status : DomainStatus
  pub token : String
  pub cf_hostname_id : String

pub record ScheduledJob : Type 0 where
  pub id : String
  pub tenant_id : String
  pub name : String
  pub cron : String
  pub url : String
  pub method : String
  pub enabled : Bool
  pub last_run_at : Option ℕ
  pub last_status : String
  pub last_detail : String

pub record JobRun : Type 0 where
  pub id : String
  pub job_id : String
  pub tenant_id : String
  pub status : String
  pub detail : String
  pub duration_ms : ℕ

pub data UptimeStatus : Type 0 where
  unknown up down : UptimeStatus

pub record UptimeMonitor : Type 0 where
  pub id : String
  pub tenant_id : String
  pub name : String
  pub url : String
  pub enabled : Bool
  pub status : UptimeStatus
  pub last_checked_at : Option ℕ
  pub last_latency_ms : ℕ
  pub last_detail : String
