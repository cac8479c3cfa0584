-- ===== src/Access.antt =====
-- app/services/tenant_resources.py: which of the providers' objects a tenant may see. The objects of
-- the providers' clients are parameters, with the texts that the filters read of them. The cached
-- answer of `_is_platform_scope` is the answer itself, since no call changes the tenant's row.
pub mod Isolation
pub mod Filters
use tetra_host.Prelude.{
  String, Bool, true, false, ◌&&◌, ◌||◌, not, ◌==◌, Option, none, some, List, [], ◌∷◌, map,
  if◌then◌else◌, first, select,
}
use tetra_host.Prelude.Text.{contains, ends_with}
use tetra_host.Models.{
  Db, Tenant, TenantResource, provider_coolify, provider_mailcow, provider_cloudflare,
  resource_type_site, resource_type_database, resource_type_server, resource_type_mail_domain,
  resource_type_mailbox, resource_type_dns_zone, resource_type_dns_record,
}

-- `tenant_id or ""`
abbrev pub tenant_key : Option String → String
tenant_key none = ""
tenant_key (some t) = t

scope_of : Option Tenant → Bool
scope_of none = false
scope_of (some t) = t.is_platform_scope

unfoldable pub is_platform_scope : Option String → Db → Bool
unfolding scope_of
is_platform_scope tenant_id db =
    let t = tenant_key tenant_id in
    if t == "" then false else scope_of (first (λ row. row.id == t) db.tenants)

abbrev pub is_mapped : String → String → String → TenantResource → Bool
is_mapped t provider resource_type r =
    r.tenant_id == t && r.provider == provider && r.resource_type == resource_type

unfoldable pub mapped_values : Option String → String → String → Db → List String
mapped_values tenant_id provider resource_type db =
    let t = tenant_key tenant_id in
    if t == ""
    then []
    else select (λ v. not (v == ""))
        (map (λ r. r.external_id) (select (is_mapped t provider resource_type) db.resources))

unfoldable pub is_resource_accessible : Option String → String → String → String → Db → Bool
is_resource_accessible tenant_id provider resource_type external_id db =
    contains (mapped_values tenant_id provider resource_type db) external_id
    || is_platform_scope tenant_id db

module _ (tenant_id : Option String) (db : Db) where
  module _ {A : Type 0} (id : A → String) where
    -- the shape that filter_sites, filter_databases and filter_servers share
    filter_mapped : String → String → List A → List A
    filter_mapped provider resource_type items =
        if is_platform_scope tenant_id db
        then items
        else select (λ a. contains (mapped_values tenant_id provider resource_type db) (id a)) items

    unfoldable pub filter_sites : List A → List A
    unfolding filter_mapped
    filter_sites sites = filter_mapped provider_coolify resource_type_site sites

    unfoldable pub filter_databases : List A → List A
    unfolding filter_mapped
    filter_databases databases = filter_mapped provider_coolify resource_type_database databases

    unfoldable pub filter_servers : List A → List A
    unfolding filter_mapped
    filter_servers servers = filter_mapped provider_coolify resource_type_server servers

    -- aliases are scoped by their domain, which `id` reads
    unfoldable pub filter_aliases : List A → List A
    unfolding filter_mapped
    filter_aliases aliases = filter_mapped provider_mailcow resource_type_mail_domain aliases

  module _ {D M : Type 0} (domain_name : D → String) (username domain : M → String) where
    unfoldable pub filter_mail : List D → List M → List D × List M
    filter_mail domains mailboxes =
        let mapped_domains =
          mapped_values tenant_id provider_mailcow resource_type_mail_domain db in
        let mapped_mailboxes = mapped_values tenant_id provider_mailcow resource_type_mailbox db in
        let allowed_domains = select (contains mapped_domains) (map domain_name domains) in
        if is_platform_scope tenant_id db then (domains, mailboxes) else (
          select (λ d. contains allowed_domains (domain_name d)) domains,
          select
              (λ m. contains mapped_mailboxes (username m) || contains allowed_domains (domain m))
              mailboxes,
        )

  module _ {Z R : Type 0} (zone_id zone_name : Z → String)
      (record_id record_name : R → String) where
    first_zone : List Z → String
    first_zone [] = ""
    first_zone (z ∷ zones) = zone_id z

    -- name.endswith(tuple(…))
    ends_with_zone : List Z → String → Bool
    ends_with_zone [] name = false
    ends_with_zone (z ∷ zones) name = ends_with name (zone_name z) || ends_with_zone zones name

    unfoldable pub filter_dns : List Z → List R → String → List Z × List R × String
    unfolding first_zone ends_with_zone
    filter_dns zones records selected_zone =
        let mapped_zones = mapped_values tenant_id provider_cloudflare resource_type_dns_zone db in
        let mapped_records =
          mapped_values tenant_id provider_cloudflare resource_type_dns_record db in
        let filtered_zones = select (λ z. contains mapped_zones (zone_id z)) zones in
        let normalized =
          if contains (map zone_id filtered_zones) selected_zone
          then selected_zone
          else first_zone filtered_zones in
        let own = select (λ z. zone_id z == normalized) filtered_zones in
        if is_platform_scope tenant_id db then (zones, records, selected_zone) else (
          filtered_zones,
          select
              (λ r.
                contains mapped_records (record_id r)
                || not (normalized == "") && ends_with_zone own (record_name r))
              records,
          normalized,
        )
