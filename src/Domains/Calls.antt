-- ===== src/Domains/Calls.antt =====
-- The calls of the service in any order, each in a transaction of its own.
use tetra_host.Prelude.{
  String, true, ◌≡◌, ◌==◌, Option, none, List, [], ◌∷◌, Result, ok, err, arith, first, insert,
}
use tetra_host.Models.{Db, Domain, DomainStatus}
use tetra_host.Access.{tenant_key}
use tetra_host.Domains.{
  Settings, DomainError, normalize_hostname, is_app_owned, add_for_tenant, verify_for_tenant,
  delete_for_tenant,
}

-- The calls that write: a claim, a verification with what DNS and Cloudflare answer, a removal.
pub data Request : Type 0 where
  add_one : (id token : String) (tenant_id : Option String) (project hostname : String) → Request
  verify_one :
      (resolve : String → List String) (register : Option String) (tenant_id : Option String)
      (domain_id : String)
      → Request
  delete_one : (tenant_id : Option String) (domain_id : String) → Request

unfoldable pub left : Db → Result DomainError (Domain × Db) → Db
left db (ok (_, after)) = after
left db (err _) = db

module _ (cfg : Settings) where
  -- What a call leaves behind: it is rolled back if it raises.
  unfoldable pub step : Request → Db → Db
  step (add_one id token tenant_id project hostname) db =
      left db (add_for_tenant cfg id token tenant_id project hostname db)
  step (verify_one resolve register tenant_id domain_id) db =
      left db (verify_for_tenant cfg resolve register tenant_id domain_id db)
  step (delete_one tenant_id domain_id) db = (delete_for_tenant tenant_id domain_id db).1

  unfoldable pub run : List Request → Db → Db
  run [] db = db
  run (q ∷ qs) db = run qs (step q db)

  -- A claim that returns was of a name that nobody had claimed, for an app of the tenant.
  pub add_effect :
      (id token : String) (tenant_id : Option String) (project hostname : String) (db : Db)
      {d : Domain} {after : Db}
      → add_for_tenant cfg id token tenant_id project hostname db ≡ ok (d, after)
      → (normalize_hostname cfg hostname ≡ ok d.hostname)
        × (is_app_owned tenant_id project db ≡ true)
        × (first (λ x. x.hostname == d.hostname) db.domains ≡ none)
        × (d ≡ record {
          id = id;
          tenant_id = tenant_key tenant_id;
          project = project;
          hostname = d.hostname;
          status = DomainStatus.pending;
          token = token;
          cf_hostname_id = "";
        })
        × (after ≡ record db { domains = insert d db.domains })
  unfolding add_for_tenant
  add_effect id token tenant_id project hostname db h =
      (ground arith, ground arith, ground arith, ground arith, ground arith)
