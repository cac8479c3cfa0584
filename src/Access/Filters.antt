-- ===== src/Access/Filters.antt =====
-- The filters, against the access of each object, and against a caller with no tenant.
use tetra_host.Prelude.{
  String, Bool, true, false, ◌≡◌, ◌&&◌, ◌||◌, refl, Option, List, [], ◌∷◌, map, arith, eq_iff,
  select, Bool-cases, inl, inr, sym, eq_refl, ap, All, All-weaken,
}
use mathlib.Core.Path.{ap₂}
use tetra_host.Prelude.Text.{contains}
use tetra_host.Models.{
  Db, provider_coolify, provider_mailcow, provider_cloudflare, resource_type_site,
  resource_type_database, resource_type_server, resource_type_mail_domain, resource_type_mailbox,
  resource_type_dns_zone, resource_type_dns_record,
}
use tetra_host.Access.{
  tenant_key, is_platform_scope, mapped_values, is_resource_accessible, filter_mapped, filter_sites,
  filter_databases, filter_servers, filter_aliases, filter_mail, filter_dns, first_zone,
}

select_all {ℓ} :
    {A : Type ℓ} (p : A → Bool) (xs : List A) → ((x : A) → p x ≡ true) → select p xs ≡ xs
unfolding select
select_all p [] h = refl
select_all p (x ∷ xs) h = ground (arith, select_all p xs h, h x)

select_none {ℓ} :
    {A : Type ℓ} (p : A → Bool) (xs : List A) → ((x : A) → p x ≡ false) → select p xs ≡ []
unfolding select
select_none p [] h = refl
select_none p (x ∷ xs) h = ground (arith, select_none p xs h, h x)

select_same {ℓ} :
    {A : Type ℓ} (p q : A → Bool) (xs : List A) → ((x : A) → p x ≡ q x) → select p xs ≡ select q xs
unfolding select
select_same p q [] h = refl
select_same p q (x ∷ xs) h = ground (arith, select_same p q xs h, h x)

-- The objects that the tenant may see, of one kind.
abbrev pub accessible :
    {A : Type 0} → Option String → Db → (A → String) → String → String → List A → List A
accessible tenant_id db id provider resource_type =
    select (λ a. is_resource_accessible tenant_id provider resource_type (id a) db)

module _ (tenant_id : Option String) (db : Db) {A : Type 0} (id : A → String) where
  filter_mapped-accessible :
      (provider resource_type : String) (items : List A)
      → filter_mapped tenant_id db id provider resource_type items
        ≡ accessible tenant_id db id provider resource_type items
  unfolding filter_mapped is_resource_accessible
  filter_mapped-accessible provider resource_type items =
      elim (Bool-cases (is_platform_scope tenant_id db)) [
        | inl all ↦ rw all (sym (select_all _ items (λ a. ground arith)))
        | inr mine ↦ rw mine (select_same _ _ items (λ a. ground arith))
      ]

  -- Sites, databases and servers are filtered by their own access, and aliases by that of their
  -- domain: nothing else is shown, and nothing accessible is left out.
  pub filters-accessible :
      (items : List A)
      → (filter_sites tenant_id db id items
          ≡ accessible tenant_id db id provider_coolify resource_type_site items)
        × (filter_databases tenant_id db id items
            ≡ accessible tenant_id db id provider_coolify resource_type_database items)
        × (filter_servers tenant_id db id items
            ≡ accessible tenant_id db id provider_coolify resource_type_server items)
        × (filter_aliases tenant_id db id items
            ≡ accessible tenant_id db id provider_mailcow resource_type_mail_domain items)
  unfolding filter_sites filter_databases filter_servers filter_aliases
  filters-accessible items = (
    filter_mapped-accessible _ _ items,
    filter_mapped-accessible _ _ items,
    filter_mapped-accessible _ _ items,
    filter_mapped-accessible _ _ items,
  )

contains-select :
    (xs ys : List String) (s : String)
    → contains (select (contains xs) ys) s ≡ (contains xs s && contains ys s)
unfolding contains select
contains-select xs [] s = ground arith
contains-select xs (y ∷ ys) s = ground (arith, contains-select xs ys s, eq_iff y s)

All-listed :
    {D : Type 0} (name : D → String) (ds : List D)
    → All (λ d. contains (map name ds) (name d) ≡ true) ds
unfolding contains
All-listed name [] = tt
All-listed name (d ∷ ds) =
    (rw (eq_refl (name d)), All-weaken _ _ ds (λ e h. ground arith) (All-listed name ds))

select_listed :
    {D : Type 0} (p q : D → Bool) (ds : List D)
    → All (λ d. p d ≡ q d) ds
    → select p ds ≡ select q ds
unfolding select
select_listed p q [] h = refl
select_listed p q (d ∷ ds) (e, h) = ground (arith, select_listed p q ds h)

module _ (tenant_id : Option String) (db : Db) {D M : Type 0} (domain_name : D → String)
    (username domain : M → String) where
  is_accessible_mine :
      (provider resource_type s : String)
      → is_platform_scope tenant_id db ≡ false
      → is_resource_accessible tenant_id provider resource_type s db
        ≡ contains (mapped_values tenant_id provider resource_type db) s
  unfolding is_resource_accessible
  is_accessible_mine provider resource_type s mine = ground arith

  -- To a tenant that is not the platform's, exactly the accessible ones of the mail domains are
  -- shown, and exactly the mailboxes that are accessible by themselves or lie in an accessible
  -- domain among those that were listed.
  pub filter_mail-accessible :
      (domains : List D) (mailboxes : List M)
      → is_platform_scope tenant_id db ≡ false
      → filter_mail tenant_id db domain_name username domain domains mailboxes ≡ (
        accessible tenant_id db domain_name provider_mailcow resource_type_mail_domain domains,
        select
            (λ m.
              is_resource_accessible tenant_id provider_mailcow resource_type_mailbox
                (username m)
                db
              || is_resource_accessible tenant_id provider_mailcow resource_type_mail_domain
                  (domain m)
                  db
                && contains (map domain_name domains) (domain m))
            mailboxes,
      )
  unfolding filter_mail
  filter_mail-accessible domains mailboxes mine = rw mine (
      ap₂ (λ (a : List D) (b : List M). (a, b))
        (select_listed _ _ domains (
          All-weaken _ _ domains
            (λ d h. ground (
              arith,
              is_accessible_mine provider_mailcow resource_type_mail_domain (domain_name d) mine,
              contains-select
                  (mapped_values tenant_id provider_mailcow resource_type_mail_domain db)
                  (map domain_name domains) (domain_name d),
            ))
            (All-listed domain_name domains)))
        (select_same _ _ mailboxes (λ m. ground (
          arith,
          is_accessible_mine provider_mailcow resource_type_mailbox (username m) mine,
          is_accessible_mine provider_mailcow resource_type_mail_domain (domain m) mine,
          contains-select (mapped_values tenant_id provider_mailcow resource_type_mail_domain db)
              (map domain_name domains) (domain m),
        ))))

module _ (tenant_id : Option String) (db : Db) (nobody : tenant_key tenant_id ≡ "") where
  nothing_mapped :
      (provider resource_type : String) → mapped_values tenant_id provider resource_type db ≡ []
  unfolding mapped_values
  nothing_mapped provider resource_type = ground (arith, eq_iff (tenant_key tenant_id) "")

  not_platform : is_platform_scope tenant_id db ≡ false
  unfolding is_platform_scope
  not_platform = ground (arith, eq_iff (tenant_key tenant_id) "")

  filter_mapped-nobody :
      {A : Type 0} (id : A → String) (provider resource_type : String) (items : List A)
      → filter_mapped tenant_id db id provider resource_type items ≡ []
  unfolding filter_mapped contains
  filter_mapped-nobody id provider resource_type items =
      rw (not_platform, nothing_mapped provider resource_type) (select_none _ items (λ a. refl))

  filter_mail-nobody :
      {D M : Type 0} (domain_name : D → String) (username domain : M → String) (domains : List D)
      (mailboxes : List M)
      → filter_mail tenant_id db domain_name username domain domains mailboxes ≡ ([], [])
  unfolding filter_mail contains select
  filter_mail-nobody {D} {M} domain_name username domain domains mailboxes =
      rw
        (
          not_platform,
          nothing_mapped provider_mailcow resource_type_mail_domain,
          nothing_mapped provider_mailcow resource_type_mailbox,
        )
        (ap₂ (λ (a : List D) (b : List M). (a, b))
          (select_none _ domains
            (λ d. contains-select [] (map domain_name domains) (domain_name d)))
          (select_none _ mailboxes (λ m. contains-select [] (map domain_name domains) (domain m))))

  filter_dns-nobody :
      {Z R : Type 0} (zone_id zone_name : Z → String) (record_id record_name : R → String)
      (zones : List Z) (records : List R) (selected : String)
      → filter_dns tenant_id db zone_id zone_name record_id record_name zones records selected
        ≡ ([], [], "")
  unfolding filter_dns contains select first_zone
  filter_dns-nobody {Z} {R} zone_id zone_name record_id record_name zones records selected =
      rw
        (
          not_platform,
          nothing_mapped provider_cloudflare resource_type_dns_zone,
          nothing_mapped provider_cloudflare resource_type_dns_record,
          select_none _ zones (λ z. refl),
        )
        (ap (λ (rs : List R). ([], rs, "")) (select_none _ records (λ r. refl)))

-- A caller with no tenant is shown nothing at all.
pub filters-nobody :
    (tenant_id : Option String) (db : Db) {A B : Type 0} (id name : A → String)
    (other another : B → String) (items : List A) (others : List B) (selected : String)
    → tenant_key tenant_id ≡ ""
    → (filter_sites tenant_id db id items ≡ [])
      × (filter_databases tenant_id db id items ≡ [])
      × (filter_servers tenant_id db id items ≡ [])
      × (filter_aliases tenant_id db id items ≡ [])
      × (filter_mail tenant_id db id other another items others ≡ ([], []))
      × (filter_dns tenant_id db id name other another items others selected ≡ ([], [], ""))
unfolding filter_sites filter_databases filter_servers filter_aliases
filters-nobody tenant_id db id name other another items others selected nobody = (
  filter_mapped-nobody tenant_id db nobody id _ _ items,
  filter_mapped-nobody tenant_id db nobody id _ _ items,
  filter_mapped-nobody tenant_id db nobody id _ _ items,
  filter_mapped-nobody tenant_id db nobody id _ _ items,
  filter_mail-nobody tenant_id db nobody id other another items others,
  filter_dns-nobody tenant_id db nobody id name other another items others selected,
)
