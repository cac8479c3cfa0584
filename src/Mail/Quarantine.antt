-- ===== src/Mail/Quarantine.antt =====
-- Whose held mail a tenant may act on.
use tetra_host.Prelude.{
  ℕ, String, ◌≡◌, refl, Bool, true, false, not, ◌&&◌, ◌==◌, some, List, [], ◌∷◌, ok, >>-after, inl,
  inr, ◌⊎◌, arith, Bool-cases, Option-cases, All, select, count, map, ◌≤◌,
}
use tetra_host.Prelude.Text.{contains, lower, strip, split_once}
use tetra_host.Models.{
  Db, TenantResource, provider_mailcow, resource_type_mailbox, resource_type_mail_domain,
}
use tetra_host.Mail.{
  MailError, Mailcow, QuarantineItem, require, tidied, owned_ids, accessible_mail_scope,
  rcpt_in_scope, is_item_in_scope, all_in_scope, item_by_id, actions_disabled, nothing_selected,
  item_not_found,
}
use tetra_host.Mail.Service.{
  authorize_quarantine_ids, act_on_quarantine_for_tenant, delete_quarantine_for_tenant, is_empty,
}

require-ok : (b : Bool) (e : MailError) → require b e ≡ ok tt → b ≡ true
require-ok true e h = refl
require-ok false e h = cc

-- rows that give a tenant a domain or a mailbox, under the address that a recipient has
abbrev pub gives : String → String → String → TenantResource → Bool
gives t resource_type address r =
    r.tenant_id == t
    && r.provider == provider_mailcow
    && r.resource_type == resource_type
    && lower (strip r.external_id) == address

-- the tenant has a row of the mailbox, or one of its domain
abbrev pub Holds : String → String → Db → Type 0
Holds t address db =
    (1 ≤ count (gives t resource_type_mailbox address) db.resources)
    ⊎ (1 ≤ count (gives t resource_type_mail_domain (split_once 64 address).1) db.resources)

contains-tidied :
    (t resource_type address : String) (rows : List TenantResource)
    → contains
        (tidied (
          map
            (λ r. r.external_id)
            (select
              (λ r.
                r.tenant_id == t
                && r.provider == provider_mailcow
                && r.resource_type == resource_type)
              rows)))
        address
      ≡ true
    → 1 ≤ count (gives t resource_type address) rows
unfolding contains tidied select count
contains-tidied t resource_type address [] h = ground arith
contains-tidied t resource_type address (r ∷ rows) h =
    ground (arith, contains-tidied t resource_type address rows)

rcpt_in_scope-Holds :
    (rcpt t : String) (db : Db)
    → rcpt_in_scope rcpt (accessible_mail_scope (some t) db) ≡ true
    → Holds t (lower (strip rcpt)) db
unfolding rcpt_in_scope accessible_mail_scope
rcpt_in_scope-Holds rcpt t db h =
    let address = lower (strip rcpt) in
    elim (Bool-cases (contains (tidied (owned_ids t resource_type_mailbox db)) address)) [
      | inl own ↦ inl (contains-tidied t resource_type_mailbox address db.resources own)
      | inr other ↦ inr (
          contains-tidied t resource_type_mail_domain (split_once 64 address).1 db.resources
            (ground arith))
    ]

-- the id names an item on hold, and the tenant holds its recipient
abbrev pub IsShown : Mailcow → String → Db → ℕ → Type 0
IsShown mailcow t db qid =
    (item : QuarantineItem) × (item_by_id qid mailcow.quarantine ≡ some item)
    × Holds t (lower (strip item.rcpt)) db

module _ (actions_enabled : Bool) (mailcow : Mailcow) (t : String) (db : Db) where
  item_in_scope :
      (qid : ℕ)
      → is_item_in_scope (accessible_mail_scope (some t) db) mailcow.quarantine qid ≡ true
      → IsShown mailcow t db qid
  unfolding is_item_in_scope
  item_in_scope qid h = elim (Option-cases (item_by_id qid mailcow.quarantine)) [
    | inl gone ↦ let never : false ≡ true = rw (is_item_in_scope, gone) at h in ground arith
    | inr (item, here) ↦
        let fit : rcpt_in_scope item.rcpt (accessible_mail_scope (some t) db) ≡ true =
          rw (is_item_in_scope, here) at h in
        (item, here, rcpt_in_scope-Holds item.rcpt t db fit)
  ]

  all_in_scope-IsShown :
      (ids : List ℕ)
      → all_in_scope (accessible_mail_scope (some t) db) mailcow.quarantine ids ≡ true
      → All (IsShown mailcow t db) ids
  unfolding all_in_scope
  all_in_scope-IsShown [] h = tt
  all_in_scope-IsShown (qid ∷ ids) h =
      let scope = accessible_mail_scope (some t) db in
      let both : (is_item_in_scope scope mailcow.quarantine qid
            && all_in_scope scope mailcow.quarantine ids)
          ≡ true =
        h in
      let one : is_item_in_scope scope mailcow.quarantine qid ≡ true = ground arith in
      (item_in_scope qid one, all_in_scope-IsShown ids (ground arith))

  -- Where a tenant's release or deletion of held mail returns, each of its ids names an item on hold
  -- for a recipient that, up to case and white space, the tenant has the mailbox or the domain of.
  pub quarantine-IsShown :
      (ids : List ℕ) (action : String)
      → (act_on_quarantine_for_tenant actions_enabled mailcow (some t) ids action db ≡ ok tt)
        ⊎ (delete_quarantine_for_tenant actions_enabled mailcow (some t) ids db ≡ ok tt)
      → All (IsShown mailcow t db) ids
  unfolding act_on_quarantine_for_tenant delete_quarantine_for_tenant authorize_quarantine_ids
  quarantine-IsShown ids action (inl done) =
      >>-after (require actions_enabled actions_disabled) _ done (λ _ done₁.
        >>-after (require (not (is_empty ids)) nothing_selected) _ done₁ (λ _ done₂.
          >>-after (authorize_quarantine_ids actions_enabled mailcow (some t) ids db) _ done₂
            (λ fit _. all_in_scope-IsShown ids (require-ok _ item_not_found fit))))
  quarantine-IsShown ids action (inr done) =
      >>-after (require actions_enabled actions_disabled) _ done (λ _ done₁.
        >>-after (require (not (is_empty ids)) nothing_selected) _ done₁ (λ _ done₂.
          >>-after (authorize_quarantine_ids actions_enabled mailcow (some t) ids db) _ done₂
            (λ fit _. all_in_scope-IsShown ids (require-ok _ item_not_found fit))))
