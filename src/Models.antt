-- ===== src/Models.antt =====
-- app/models/*.py and app/db/session.py: the tables, their rows, and a transaction over them.
-- A table is the list of its rows in the order of their creation, which is also what
-- `created_at` orders; the columns `created_at` and `updated_at` are left out otherwise.
-- Instants are numbers of microseconds, all UTC.
mod Tenancy
mod People
mod Work
mod Money
mod Deploying
unfoldable pub use Tenancy.*
unfoldable pub use People.*
unfoldable pub use Work.*
unfoldable pub use Money.*
unfoldable pub use Deploying.*
use tetra_host.Prelude.{List, [], Result, ok, err}

pub record Db : Type 0 where
  pub tenants : List Tenant
  pub plans : List Plan
  pub resources : List TenantResource
  pub deployments : List Deployment
  pub admins : List AdminUser
  pub invites : List TenantInvite
  pub tokens : List ApiToken
  pub domains : List Domain
  pub jobs : List ScheduledJob
  pub runs : List JobRun
  pub monitors : List UptimeMonitor
  pub wallets : List TenantCredit
  pub transactions : List CreditTransaction
  pub envs : List AppEnvVar
  pub previews : List PreviewEnv
  pub hooks : List DeployHook
  pub channels : List NotificationChannel
  pub sso : List TenantSsoConfig

abbrev pub no_rows : Db
no_rows = record {
  tenants = [];
  plans = [];
  resources = [];
  deployments = [];
  admins = [];
  invites = [];
  tokens = [];
  domains = [];
  jobs = [];
  runs = [];
  monitors = [];
  wallets = [];
  transactions = [];
  envs = [];
  previews = [];
  hooks = [];
  channels = [];
  sso = [];
}

settle {ℓ} : {E A : Type ℓ} → Db → Result E (A × Db) → Result E A × Db
settle before (ok (a, after)) = (ok a, after)
settle before (err e) = (err e, before)

-- `session_scope`: what the body wrote is committed, or rolled back if it raised.
unfoldable pub session_scope {ℓ} : {E A : Type ℓ} → (Db → Result E (A × Db)) → Db → Result E A × Db
unfolding settle
session_scope body db = settle db (body db)
