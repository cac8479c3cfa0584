-- ===== src/Tests.antt =====
-- Runs of the model at concrete inputs: tests of the definitions, and each theorem at an instance
-- of its hypotheses.
mod Quota
mod Shared
mod Oidc
mod Access
mod Team
mod Tokens
mod Credits
mod Domains
mod Auth
mod Http
mod Deploys
mod Releases
mod Jobs
mod Sso
