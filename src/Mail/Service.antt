-- ===== src/Mail/Service.antt =====
-- app/modules/mail/service.py: the calls of the service, each behind its guards.
use tetra_host.Prelude.{
  ℕ, String, Bool, true, false, not, ◌&&◌, ◌||◌, ◌==◌, Option, none, some, List, [], ◌∷◌, Result,
  ok, ◌>>◌, eqb, if◌then◌else◌, first, select, delete,
}
use tetra_host.Prelude.Text.{strip, has_char, split_once}
use Prim.Native.String.{◌++◌}
use tetra_host.Models.{Db, provider_mailcow, resource_type_mail_domain, resource_type_mailbox}
use tetra_host.Mail.{
  MailError, Alias, QuarantineItem, Command, Mailcow, require, domain_accessible,
  mailbox_accessible, register, accessible_mail_scope, rcpt_in_scope, all_in_scope,
  actions_disabled, domain_not_found, mailbox_not_found, alias_not_found, no_alias_domain,
  not_configured, app_password_not_found, nothing_selected, item_not_found, provider_failed,
  create_mailbox, delete_domain, edit_mailbox, delete_mailbox, create_alias, create_app_password,
  delete_alias, delete_app_password, act_on_quarantine, delete_quarantine,
}

unfoldable pub is_empty : List ℕ → Bool
is_empty [] = true
is_empty (_ ∷ _) = false

has_id : ℕ → List ℕ → Bool
has_id n [] = false
has_id n (x ∷ xs) = eqb x n || has_id n xs

module _ (actions_enabled : Bool) (mailcow : Mailcow) where
  unfoldable pub issue : Command → Result MailError (Unit {0})
  issue command = require (mailcow.succeeds command) provider_failed

  unfoldable pub delete_domain_for_tenant : Option String → String → Db → Result MailError Db
  delete_domain_for_tenant tenant_id domain db = do
    require actions_enabled actions_disabled
    require (domain_accessible tenant_id domain db) domain_not_found
    issue (delete_domain domain)
    ok (record db {
      resources =
          delete
            (λ r.
              r.provider == provider_mailcow
              && (r.resource_type == resource_type_mail_domain && r.external_id == domain
                  || r.resource_type == resource_type_mailbox
                    && mailcow.like ("%@" ++ domain) r.external_id))
            db.resources;
    })

  unfoldable pub create_mailbox_for_tenant :
      String → Option String → String → String → Db → Result MailError (String × Db)
  create_mailbox_for_tenant id tenant_id local_part domain db = do
    require actions_enabled actions_disabled
    require (domain_accessible tenant_id domain db) domain_not_found
    issue (create_mailbox local_part domain)
    let username = local_part ++ "@" ++ domain
    ok (username, register id tenant_id resource_type_mailbox username db)

  unfoldable pub edit_mailbox_for_tenant : Option String → String → Db → Result MailError (Unit {0})
  edit_mailbox_for_tenant tenant_id username db = do
    require actions_enabled actions_disabled
    require (mailbox_accessible tenant_id username db) mailbox_not_found
    issue (edit_mailbox username)

  unfoldable pub delete_mailbox_for_tenant : Option String → String → Db → Result MailError Db
  delete_mailbox_for_tenant tenant_id username db = do
    require actions_enabled actions_disabled
    require (mailbox_accessible tenant_id username db) mailbox_not_found
    issue (delete_mailbox username)
    ok (record db {
      resources =
          delete
            (λ r.
              r.provider == provider_mailcow
              && r.resource_type == resource_type_mailbox
              && r.external_id == username)
            db.resources;
    })

  unfoldable pub create_alias_for_tenant :
      Option String → String → String → Db → Result MailError (Unit {0})
  create_alias_for_tenant tenant_id address goto db = do
    let domain = if has_char 64 address then (split_once 64 address).1 else ""
    require actions_enabled actions_disabled
    require (not (domain == "")) no_alias_domain
    require (domain_accessible tenant_id domain db) domain_not_found
    issue (create_alias address goto)

  is_alias_accessible : Option String → Option Alias → Db → Bool
  is_alias_accessible tenant_id none db = false
  is_alias_accessible tenant_id (some a) db = domain_accessible tenant_id a.domain db

  unfoldable pub delete_alias_for_tenant : Option String → ℕ → Db → Result MailError (Unit {0})
  unfolding is_alias_accessible
  delete_alias_for_tenant tenant_id alias_id db = do
    require actions_enabled actions_disabled
    require mailcow.is_configured not_configured
    require (is_alias_accessible tenant_id (first (λ a. eqb a.id alias_id) mailcow.aliases) db)
        alias_not_found
    issue (delete_alias alias_id)

  -- `password` is the random one, which is shown once.
  unfoldable pub create_app_password_for_tenant :
      String → Option String → String → String → Db → Result MailError (String × String)
  create_app_password_for_tenant password tenant_id username app_name db = do
    let name = if strip app_name == "" then "Tetra app password" else strip app_name
    require actions_enabled actions_disabled
    require (mailbox_accessible tenant_id username db) mailbox_not_found
    issue (create_app_password username name)
    ok (name, password)

  unfoldable pub delete_app_password_for_tenant :
      Option String → String → ℕ → Db → Result MailError (Unit {0})
  unfolding has_id
  delete_app_password_for_tenant tenant_id username app_passwd_id db = do
    require actions_enabled actions_disabled
    require (mailbox_accessible tenant_id username db) mailbox_not_found
    require (has_id app_passwd_id (mailcow.app_passwords username)) app_password_not_found
    issue (delete_app_password app_passwd_id)

  unfoldable pub list_quarantine_for_tenant : Option String → Db → List QuarantineItem
  list_quarantine_for_tenant tenant_id db =
      select (λ i. rcpt_in_scope i.rcpt (accessible_mail_scope tenant_id db)) mailcow.quarantine

  unfoldable pub authorize_quarantine_ids :
      Option String → List ℕ → Db → Result MailError (Unit {0})
  authorize_quarantine_ids tenant_id ids db =
      require (all_in_scope (accessible_mail_scope tenant_id db) mailcow.quarantine ids)
        item_not_found

  unfoldable pub act_on_quarantine_for_tenant :
      Option String → List ℕ → String → Db → Result MailError (Unit {0})
  unfolding is_empty
  act_on_quarantine_for_tenant tenant_id ids action db = do
    require actions_enabled actions_disabled
    require (not (is_empty ids)) nothing_selected
    authorize_quarantine_ids tenant_id ids db
    issue (act_on_quarantine ids action)

  unfoldable pub delete_quarantine_for_tenant :
      Option String → List ℕ → Db → Result MailError (Unit {0})
  unfolding is_empty
  delete_quarantine_for_tenant tenant_id ids db = do
    require actions_enabled actions_disabled
    require (not (is_empty ids)) nothing_selected
    authorize_quarantine_ids tenant_id ids db
    issue (delete_quarantine ids)
