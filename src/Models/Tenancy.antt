-- ===== src/Models/Tenancy.antt =====
-- app/models/tenant.py, plan.py, tenant_resource.py and deployment.py. The integer columns of a
-- plan are taken to be non-negative.
use tetra_host.Prelude.{ℕ, String, Bool, true, false, Option}

pub data TenantStatus : Type 0 where
  pending active suspended rejected : TenantStatus

pub record Tenant : Type 0 where
  pub id : String
  pub name : String
  pub slug : String
  pub status : TenantStatus
  pub plan_id : Option String
  pub is_platform_scope : Bool
  pub signup_ip : Option String

-- Tenant.is_active
unfoldable pub is_active_status : TenantStatus → Bool
is_active_status TenantStatus.active = true
is_active_status _ = false

pub record Plan : Type 0 where
  pub id : String
  pub key : String
  pub name : String
  pub description : String
  pub price_cents : ℕ
  pub currency : String
  pub max_apps : ℕ
  pub max_domains : ℕ
  pub cpu_millicores : ℕ
  pub mem_mb : ℕ
  pub disk_mb : ℕ
  pub is_archived : Bool
  pub sort_order : ℕ

abbrev pub resource_type_site : String
resource_type_site = "site"

abbrev pub resource_type_mail_domain : String
resource_type_mail_domain = "mail_domain"

abbrev pub resource_type_mailbox : String
resource_type_mailbox = "mailbox"

abbrev pub resource_type_dns_zone : String
resource_type_dns_zone = "dns_zone"

abbrev pub resource_type_dns_record : String
resource_type_dns_record = "dns_record"

abbrev pub resource_type_database : String
resource_type_database = "database"

abbrev pub resource_type_server : String
resource_type_server = "server"

abbrev pub resource_type_app : String
resource_type_app = "app"

abbrev pub provider_coolify : String
provider_coolify = "coolify"

abbrev pub provider_mailcow : String
provider_mailcow = "mailcow"

abbrev pub provider_cloudflare : String
provider_cloudflare = "cloudflare"

abbrev pub provider_docker : String
provider_docker = "docker"

pub record TenantResource : Type 0 where
  pub id : String
  pub tenant_id : String
  pub provider : String
  pub resource_type : String
  pub external_id : String
  pub display_name : String
  pub cpu_millicores : Option ℕ
  pub mem_mb : Option ℕ
  pub disk_mb : Option ℕ

pub data DeploymentStatus : Type 0 where
  queued building ready error : DeploymentStatus

-- status in (STATUS_QUEUED, STATUS_BUILDING)
unfoldable pub is_inflight : DeploymentStatus → Bool
is_inflight DeploymentStatus.queued = true
is_inflight DeploymentStatus.building = true
is_inflight _ = false

unfoldable pub is_ready : DeploymentStatus → Bool
is_ready DeploymentStatus.ready = true
is_ready _ = false

unfoldable pub is_error : DeploymentStatus → Bool
is_error DeploymentStatus.error = true
is_error _ = false

pub record Deployment : Type 0 where
  pub id : String
  pub tenant_id : String
  pub project : String
  pub git_url : String
  pub ref : String
  pub status : DeploymentStatus
  pub builder : String
  pub image : String
  pub commit : String
  pub domain : String
  pub port : ℕ
  pub log : String
  pub error : String
