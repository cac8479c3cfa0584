-- ===== src/Mail.antt =====
-- app/modules/mail/service.py: the mail of a tenant, on a shared Mailcow. Whether a command of
-- Mailcow succeeds, what it lists, the random password and the database's LIKE are arguments. What a
-- new domain gets beyond its row (its DKIM key, relay and DNS records) is not modelled.
pub mod Service
pub mod Quarantine
use tetra_host.Prelude.{
  ℕ, String, Bool, true, false, not, ◌&&◌, ◌||◌, ◌==◌, Option, none, some, List, [], ◌∷◌, map,
  Result, ok, err, ◌>>=◌, ◌>>◌, eqb, if◌then◌else◌, first, select, insert, delete, newest_first,
}
use tetra_host.Prelude.Text.{strip, lower, has_char, split_once, contains}
use Prim.Native.String.{◌++◌}
use tetra_host.Models.{
  Db, TenantResource, provider_mailcow, resource_type_mail_domain, resource_type_mailbox,
}
use tetra_host.Access.{tenant_key, is_resource_accessible}

pub data MailError : Type 0 where
  actions_disabled domain_not_found mailbox_not_found alias_not_found no_alias_domain : MailError
  not_configured app_password_not_found nothing_selected item_not_found provider_failed : MailError

pub record Alias : Type 0 where
  pub id : ℕ
  pub domain : String

pub record QuarantineItem : Type 0 where
  pub id : ℕ
  pub rcpt : String

pub data Command : Type 0 where
  delete_domain edit_mailbox delete_mailbox : String → Command
  create_mailbox create_alias create_app_password : String → String → Command
  delete_alias delete_app_password : ℕ → Command
  act_on_quarantine : List ℕ → String → Command
  delete_quarantine : List ℕ → Command

-- Mailcow and the database as the service meets them
pub record Mailcow : Type 0 where
  pub succeeds : Command → Bool
  pub is_configured : Bool
  pub aliases : List Alias
  pub quarantine : List QuarantineItem
  -- the ids of the app passwords of a mailbox
  pub app_passwords : String → List ℕ
  pub like : String → String → Bool

abbrev pub require : Bool → MailError → Result MailError (Unit {0})
require true e = ok tt
require false e = err e

unfoldable pub domain_accessible : Option String → String → Db → Bool
domain_accessible tenant_id domain db =
    is_resource_accessible tenant_id provider_mailcow resource_type_mail_domain domain db

unfoldable pub mailbox_accessible : Option String → String → Db → Bool
mailbox_accessible tenant_id username db =
    is_resource_accessible tenant_id provider_mailcow resource_type_mailbox username db
    || has_char 64 username && domain_accessible tenant_id (split_once 64 username).1 db

-- a row of a new domain or mailbox, for a caller with a tenant
unfoldable pub register : String → Option String → String → String → Db → Db
register id tenant_id resource_type external_id db =
    if tenant_key tenant_id == "" then db else record db {
      resources =
          insert
            (record {
              id = id;
              tenant_id = tenant_key tenant_id;
              provider = provider_mailcow;
              resource_type = resource_type;
              external_id = external_id;
              display_name = external_id;
              cpu_millicores = none;
              mem_mb = none;
              disk_mb = none;
            })
            db.resources;
    }

-- the last item with the id, as a dict of the items has it
unfoldable pub item_by_id : ℕ → List QuarantineItem → Option QuarantineItem
item_by_id qid items = first (λ i. eqb i.id qid) (newest_first items)

-- `str.strip().lower()` of each
unfoldable pub tidied : List String → List String
tidied [] = []
tidied (x ∷ xs) = lower (strip x) ∷ tidied xs

abbrev pub owned_ids : String → String → Db → List String
owned_ids tenant_id resource_type db =
    map (λ r. r.external_id)
      (select
        (λ r.
          r.tenant_id == tenant_id
          && r.provider == provider_mailcow
          && r.resource_type == resource_type)
        db.resources)

-- the domains and the mailboxes of a tenant; no tenant stands for all
unfoldable pub accessible_mail_scope : Option String → Db → Option (List String × List String)
unfolding tidied
accessible_mail_scope none db = none
accessible_mail_scope (some t) db = some (
  tidied (owned_ids t resource_type_mail_domain db),
  tidied (owned_ids t resource_type_mailbox db),
)

unfoldable pub rcpt_in_scope : String → Option (List String × List String) → Bool
rcpt_in_scope rcpt none = true
rcpt_in_scope rcpt (some (domains, mailboxes)) =
    let address = lower (strip rcpt) in
    contains mailboxes address || has_char 64 address && contains domains (split_once 64 address).1

unfoldable pub is_item_in_scope :
    Option (List String × List String) → List QuarantineItem → ℕ → Bool
is_item_in_scope scope items qid = elim (item_by_id qid items) [
  | none ↦ false
  | some item ↦ rcpt_in_scope item.rcpt scope
]

unfoldable pub all_in_scope :
    Option (List String × List String) → List QuarantineItem → List ℕ → Bool
all_in_scope scope items [] = true
all_in_scope scope items (qid ∷ ids) =
    is_item_in_scope scope items qid && all_in_scope scope items ids
