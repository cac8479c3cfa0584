-- ===== src/Tests/Access.antt =====
-- Who may see what.
use tetra_host.Prelude.{
  String, true, false, ◌≡◌, ◌≢◌, ◌≤◌, ◌↔◌, ◌⊎◌, ◌&&◌, ◌||◌, refl, none, some, List, [], ◌∷◌, map,
  select, count, arith, first, eq_iff,
}
use tetra_host.Prelude.Text.{contains}
use tetra_host.Models.{
  Db, Tenant, TenantStatus, TenantResource, no_rows, provider_coolify, provider_mailcow,
  resource_type_site, resource_type_database, resource_type_server, resource_type_mail_domain,
  resource_type_mailbox,
}
use tetra_host.Access.{
  is_platform_scope, is_resource_accessible, filter_sites, filter_databases, filter_servers,
  filter_aliases, filter_mail, mapped_values,
}
use tetra_host.Access.Isolation.{holds_resource, is_resource_accessible_iff}
use tetra_host.Access.Filters.{accessible, filters-accessible, filter_mail-accessible}

abbrev tenant : String → Tenant
tenant id = record {
  id = id;
  name = id;
  slug = id;
  status = TenantStatus.active;
  plan_id = none;
  is_platform_scope = false;
  signup_ip = none;
}

abbrev mapped : String → String → String → String → TenantResource
mapped tenant_id provider resource_type external_id = record {
  id = external_id;
  tenant_id = tenant_id;
  provider = provider;
  resource_type = resource_type;
  external_id = external_id;
  display_name = "";
  cpu_millicores = none;
  mem_mb = none;
  disk_mb = none;
}

abbrev t1 : String
t1 = "t1"

abbrev s1 : String
s1 = "s1"

abbrev db : Db
db = record no_rows {
  tenants = tenant "t1" ∷ tenant "t2" ∷ [];
  resources =
      mapped "t1" provider_coolify resource_type_site "s1"
      ∷ mapped "t2" provider_coolify resource_type_site "s2"
      ∷ mapped "t1" provider_mailcow resource_type_mail_domain "acme.test"
      ∷ [];
}

abbrev sites : List String
sites = "s1" ∷ "s2" ∷ "s3" ∷ []

mine : is_platform_scope (some "t1") db ≡ false
unfolding is_platform_scope first
mine = refl

shows : filter_sites (some "t1") db (λ s. s) sites ≡ "s1" ∷ []
unfolding filter_sites is_platform_scope mapped_values first select contains
shows = refl

is_resource_accessible_iff_example :
    (is_resource_accessible (some "t1") provider_coolify resource_type_site "s1" db ≡ true) ↔ (
      (is_platform_scope (some "t1") db ≡ true)
      ⊎ ((t1 ≢ "")
          × (s1 ≢ "")
          × (1
              ≤ count (holds_resource "t1" provider_coolify resource_type_site "s1") db.resources)))
is_resource_accessible_iff_example =
    is_resource_accessible_iff (some "t1") provider_coolify resource_type_site "s1" db

abbrev theirs : TenantResource
theirs = mapped "t2" provider_coolify resource_type_site "s3"

not_mine : theirs.tenant_id ≢ t1
not_mine = ground (arith, eq_iff "t2" "t1")

abbrev itself : String → String
itself s = s

filters-accessible_example :
    (filter_sites (some "t1") db itself sites
      ≡ accessible (some "t1") db itself provider_coolify resource_type_site sites)
    × (filter_databases (some "t1") db itself sites
        ≡ accessible (some "t1") db itself provider_coolify resource_type_database sites)
    × (filter_servers (some "t1") db itself sites
        ≡ accessible (some "t1") db itself provider_coolify resource_type_server sites)
    × (filter_aliases (some "t1") db itself sites
        ≡ accessible (some "t1") db itself provider_mailcow resource_type_mail_domain sites)
filters-accessible_example = filters-accessible (some "t1") db itself sites

abbrev mailbox_domain : String × String → String
mailbox_domain m = m.1

abbrev username : String × String → String
username m = m.0

abbrev domains : List String
domains = "acme.test" ∷ "other.test" ∷ []

abbrev mailboxes : List (String × String)
mailboxes = ("ann@acme.test", "acme.test") ∷ ("bob@other.test", "other.test") ∷ []

filter_mail-accessible_example :
    filter_mail (some "t1") db itself username mailbox_domain domains mailboxes ≡ (
      accessible (some "t1") db itself provider_mailcow resource_type_mail_domain domains,
      select
          (λ m.
            is_resource_accessible
              (some "t1")
              provider_mailcow
              resource_type_mailbox
              (username m)
              db
            || is_resource_accessible
                (some "t1")
                provider_mailcow
                resource_type_mail_domain
                (mailbox_domain m)
                db
              && contains (map itself domains) (mailbox_domain m))
          mailboxes,
    )
filter_mail-accessible_example =
    filter_mail-accessible (some "t1") db itself username mailbox_domain domains mailboxes mine
