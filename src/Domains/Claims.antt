-- ===== src/Domains/Claims.antt =====
-- A hostname is claimed once.
use tetra_host.Prelude.{
  ℕ, String, ◌≡◌, ◌≤◌, ◌==◌, refl, Option, none, some, List, [], ◌∷◌, Result, ok, err, arith, first,
  count, Bool-cases, inl, inr, eq_iff, count-insert, count-delete, count_of_first-none,
  count-update_same,
}
use tetra_host.Models.{Db, Domain}
use tetra_host.Domains.{
  Settings, DomainError, add_for_tenant, get_for_tenant, registered, set_verified, verify_found,
  verify_for_tenant, delete_found, delete_for_tenant,
}
use tetra_host.Domains.Calls.{Request, add_one, verify_one, delete_one, left, step, run, add_effect}

module _ (cfg : Settings) where
  -- claims of a hostname
  abbrev pub claims : String → Db → ℕ
  claims host db = count (λ d. d.hostname == host) db.domains

  add-claims :
      (host id token : String) (tenant_id : Option String) (project hostname : String) (db : Db)
      (r : Result DomainError (Domain × Db))
      → add_for_tenant cfg id token tenant_id project hostname db ≡ r
      → claims host db ≤ 1
      → claims host (left db r) ≤ 1
  unfolding left
  add-claims host id token tenant_id project hostname db (err e) made h = h
  add-claims host id token tenant_id project hostname db (ok (d, after)) made h =
      let (named, owned, free, row, written) =
        add_effect cfg id token tenant_id project hostname db made in
      rw (written, count-insert (λ x. x.hostname == host) d db.domains)
        (elim (Bool-cases (d.hostname == host)) [
          | inl same ↦
              let e : d.hostname ≡ host = ground (arith, eq_iff d.hostname host) in
              let free_host : first (λ x. x.hostname == host) db.domains ≡ none = rw e at free in
              rw (same, count_of_first-none (λ x. x.hostname == host) db.domains free_host)
                (omega arith)
          | inr other ↦ rw other (omega (arith, h))
        ])

  verify-claims :
      (host : String) (resolve : String → List String) (register : Option String)
      (found : Option Domain) (db : Db)
      → claims host db ≤ 1
      → claims host (left db (verify_found cfg resolve register found db)) ≤ 1
  unfolding left verify_found
  verify-claims host resolve register none db h = h
  verify-claims host resolve register (some d) db h = ground (
    arith,
    count-update_same (λ x. x.hostname == host) (λ x. x.id == d.id)
        (set_verified (registered cfg register d)) db.domains (λ x. refl),
  )

  delete-claims :
      (host : String) (found : Option Domain) (db : Db)
      → claims host db ≤ 1
      → claims host (delete_found found db).1 ≤ 1
  unfolding delete_found
  delete-claims host none db h = h
  delete-claims host (some d) db h =
      omega (arith, h, count-delete (λ x. x.hostname == host) (λ x. x.id == d.id) db.domains)

  step-claims :
      (host : String) (q : Request) (db : Db) → claims host db ≤ 1 → claims host (step cfg q db) ≤ 1
  unfolding step verify_for_tenant delete_for_tenant
  step-claims host (add_one id token tenant_id project hostname) db h =
      add-claims host id token tenant_id project hostname db _ refl h
  step-claims host (verify_one resolve register tenant_id domain_id) db h =
      verify-claims host resolve register (get_for_tenant tenant_id domain_id db) db h
  step-claims host (delete_one tenant_id domain_id) db h =
      delete-claims host (get_for_tenant tenant_id domain_id db) db h

  -- Whatever the calls of whatever tenants, a hostname that is claimed once at most stays so.
  pub run-claims :
      (host : String) (qs : List Request) (db : Db)
      → count (λ d. d.hostname == host) db.domains ≤ 1
      → count (λ d. d.hostname == host) (run cfg qs db).domains ≤ 1
  unfolding run
  run-claims host [] db h = h
  run-claims host (q ∷ qs) db h = run-claims host qs _ (step-claims host q db h)
