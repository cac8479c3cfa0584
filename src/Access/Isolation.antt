-- ===== src/Access/Isolation.antt =====
-- What a tenant's access rests on: its own rows, and nothing else.
use tetra_host.Prelude.{
  String, Bool, true, false, not, ◌≡◌, ◌≢◌, ◌≤◌, ◌==◌, ◌&&◌, ◌↔◌, leb, ◌⊎◌, Option, List, [], ◌∷◌,
  map, arith, eq_iff, select, select-append, count, insert,
}
use mathlib.Core.List.{append-nil}
use tetra_host.Prelude.Text.{contains}
use tetra_host.Models.{Db, TenantResource}
use tetra_host.Access.{
  tenant_key, is_platform_scope, is_mapped, mapped_values, is_resource_accessible,
}

-- a row that maps the object to the tenant
abbrev pub holds_resource : String → String → String → String → TenantResource → Bool
holds_resource t provider resource_type external_id r =
    is_mapped t provider resource_type r && r.external_id == external_id

contains_mapped :
    (t provider resource_type external_id : String) (rows : List TenantResource)
    → contains
        (select
          (λ v. not (v == ""))
          (map (λ r. r.external_id) (select (is_mapped t provider resource_type) rows)))
        external_id
      ≡ (not (external_id == "")
          && leb 1 (count (holds_resource t provider resource_type external_id) rows))
unfolding contains select count
contains_mapped t provider resource_type external_id [] = ground arith
contains_mapped t provider resource_type external_id (r ∷ rows) = ground (
  arith,
  contains_mapped t provider resource_type external_id rows,
  eq_iff r.external_id external_id,
  eq_iff r.external_id "",
  eq_iff external_id "",
)

pub contains-mapped_values :
    (tenant_id : Option String) (provider resource_type external_id : String) (db : Db)
    → contains (mapped_values tenant_id provider resource_type db) external_id ≡ (
        not (tenant_key tenant_id == "")
        && (not (external_id == "")
            && leb 1 (
                count
                  (holds_resource (tenant_key tenant_id) provider resource_type external_id)
                  db.resources)))
unfolding mapped_values contains
contains-mapped_values tenant_id provider resource_type external_id db =
    ground (
      arith,
      contains_mapped (tenant_key tenant_id) provider resource_type external_id db.resources,
    )

-- An object is accessible exactly to the platform's own tenant and to a tenant, of some id, that has
-- a row which maps the object, of some id, to it.
pub is_resource_accessible_iff :
    (tenant_id : Option String) (provider resource_type external_id : String) (db : Db)
    → (is_resource_accessible tenant_id provider resource_type external_id db ≡ true) ↔ (
        (is_platform_scope tenant_id db ≡ true)
        ⊎ ((tenant_key tenant_id ≢ "")
            × (external_id ≢ "")
            × (1
                ≤ count
                    (holds_resource (tenant_key tenant_id) provider resource_type external_id)
                    db.resources)))
unfolding is_resource_accessible
is_resource_accessible_iff tenant_id provider resource_type external_id db = ground (
  arith,
  contains-mapped_values tenant_id provider resource_type external_id db,
  eq_iff (tenant_key tenant_id) "",
  eq_iff external_id "",
)

-- What another tenant is given or loses changes no tenant's access.
pub is_resource_accessible-insert_other :
    (tenant_id : Option String) (provider resource_type external_id : String) (db : Db)
    (row : TenantResource)
    → row.tenant_id ≢ tenant_key tenant_id
    → is_resource_accessible tenant_id provider resource_type external_id
        (record db { resources = insert row db.resources })
      ≡ is_resource_accessible tenant_id provider resource_type external_id db
unfolding is_resource_accessible mapped_values is_platform_scope select
is_resource_accessible-insert_other tenant_id provider resource_type external_id db row h =
    let theirs : is_mapped (tenant_key tenant_id) provider resource_type row ≡ false =
      ground (arith, eq_iff row.tenant_id (tenant_key tenant_id)) in
    rw (select-append, theirs, append-nil)
