-- ===== src/Lib.antt =====
-- Tetra Host: the control plane of a multi-tenant hosting platform (the Python package app/).
--
-- Tenants have members, plans, mapped resources of the providers, tokens and a wallet. The
-- services of app/modules and app/services keep them in a relational database, within one
-- transaction per request; what must be fast and may be lost is in an in-memory cache. The
-- modules here follow the services one to one, and a database is a record of tables that each
-- operation takes and returns.
--
-- - Prelude: Boolean tests, lists, integers, texts with the methods of Python's str,
--   dictionaries, database tables as lists of rows with the statements that the services issue,
--   and calls that may raise.
-- - Models: app/models/*.py, the rows and tables, and app/db/session.py, whose `session_scope`
--   rolls a raising call back.
-- - Plans: app/modules/plans/service.py (`PlanService`).
-- - Quota: app/services/quota.py (`QuotaService`). Quota.Schedule runs any requests of any
--   tenants in any order: the advisory lock that check_and_reserve takes is held to the end of
--   the transaction, so one call is one step.
-- - Access: app/services/tenant_resources.py (`TenantResourceFilter`), which decides what of the
--   shared providers a tenant sees.
-- - Cache: app/cache.py (`TTLCache`); get_or_set takes the calls of other tasks between its get
--   and its set as a function. RateLimit: app/rate_limit.py (`InMemoryRateLimiter`), with its
--   window as a deque of instants.
-- - Oidc: app/modules/oidc/service.py (`OIDCService`), over Cache.
-- - Team: app/modules/team/service.py (`TeamService`); Team.Effects says what each call writes
--   when it returns, Team.Calls puts the calls in any order, and the other children are its
--   invariants.
-- - Tokens: app/services/api_tokens.py (`ApiTokenService`). Credits:
--   app/modules/billing/credits.py (`CreditService`).
-- - Domains: app/modules/domains/service.py (`DomainsService`), with the pattern of a hostname as
--   a scanner. Uptime: app/services/uptime.py (`UptimeService`), with its sweep by
--   app/services/scheduler.py: a probe that raises rolls the rows of the sweep back, while the
--   alerts before it were sent.
-- - Auth: app/modules/auth/service.py (`AuthService`) but for sign-up, with Auth.Calls its calls
--   on the rows in any order; what the unique index of the addresses accepts is a parameter; and
--   Auth.Totp: app/services/totp.py.
-- - Http: app/services/http.py, the retries of the providers' clients. Csrf: app/csrf.py
--   (`CSRFMiddleware`), on the headers of a request.
-- - Notify: app/services/notifications.py (`NotificationService`). Registry:
--   app/services/registry.py (`ImageRegistry`).
-- - Compose: documents of docker compose as a data type, with Compose.Edge: app/services/edge.py
--   and Compose.Caps: app/services/limits.py.
-- - Deploys: app/modules/deploys/service.py (`DeploysService`). Deploys.Queue has the calls that
--   put a deployment in the queue, Deploys.Run the background task of a deployment,
--   Deploys.Rollback that of a rollback, Deploys.Retention the images that are deleted after a
--   run, Deploys.LogStream the events of a log, Deploys.Env the variables of an app with
--   app/services/secrets.py, Deploys.Previews and Deploys.Hooks the rows of that name, with
--   app/services/github_webhook.py, and Deploys.Webhook the handler in app/api/routes.py. A run
--   calls Compose, Registry, Notify, Quota and Domains as the code does; what the builder,
--   docker, the registry, the clock and the receivers answer is a record `World`.
-- - Sso: app/modules/sso/service.py (`SSOService`), its settings, and Sso.SignIn its callback.
--   Mail: app/modules/mail/service.py (`MailService`) but for the set-up of a new domain and the
--   relays.
-- - Cron: app/services/cron.py. Jobs: app/modules/jobs/service.py (`JobsService`), with a tick of
--   app/services/scheduler.py, which an exception outside httpx.HTTPError rolls back.
-- - Tests: runs at concrete inputs.
--
-- A table is the list of its rows in the order of their creation; created_at and updated_at are
-- otherwise left out. Instants are numbers of microseconds (of seconds in Cache, Oidc and the
-- codes of Auth) and arguments of the calls, as are random texts and new ids. Hashes of tokens
-- and passwords, the HMAC of a counter, JSON's encoding and the signature of an id token are
-- functions that the theorems take as parameters. Python's integers are native naturals where the
-- code keeps them non-negative (the columns of a plan are taken to be so), and integers with a
-- sign in Tokens and Credits. The case of a text is that of its ASCII letters. A query that
-- expects one row at most takes the first. A call that raises leaves no trace in the database,
-- and what it wrote to the cache stays.
--
-- All functions here are total, by recursion on lists, texts or the attempts that are left; none
-- needs fuel, but for the digits of a number, which has one per unit.
--
-- Not modelled: the HTTP routes but for the GitHub webhook, the contracts, templates and GraphQL
-- schema, which call the services; sign-up; what other transactions do between those of one
-- background run; the builder's commands and the diagnosis of a failed build; the clients of the
-- providers, whose answers are parameters where a modelled service reads them; the database
-- engine, its migrations and its concurrency below a transaction; logging; the web frontend and
-- the command-line client.
pub mod Prelude
pub mod Models
pub mod Plans
pub mod Quota
pub mod Access
pub mod Cache
pub mod RateLimit
pub mod Oidc
pub mod Team
pub mod Tokens
pub mod Credits
pub mod Domains
pub mod Uptime
pub mod Auth
pub mod Http
pub mod Notify
pub mod Compose
pub mod Registry
pub mod Deploys
pub mod Cron
pub mod Jobs
pub mod Csrf
pub mod Sso
pub mod Mail
mod Tests
