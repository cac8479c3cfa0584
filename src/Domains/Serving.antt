-- ===== src/Domains/Serving.antt =====
-- A hostname is served for whoever proved it.
use tetra_host.Prelude.{
  ℕ, String, Bool, true, false, not, ◌≡◌, ◌≤◌, ◌==◌, ◌||◌, ◌⊎◌, refl, Option, none, some, List, [],
  ◌∷◌, Result, ok, err, arith, first, count, update, select, Option-cases, Bool-cases, inl, inr,
  eq_iff, All, All-weaken, only_row, first_holds, count-insert, count-delete,
}
use tetra_host.Prelude.Text.{contains}
use tetra_host.Models.{Db, Domain, is_verified}
use tetra_host.Domains.{
  Settings, DomainError, add_for_tenant, own, get_for_tenant, challenge, registered, set_verified,
  verify_found, verify_for_tenant, delete_found, delete_for_tenant, serves,
}
use tetra_host.Domains.Calls.{Request, add_one, verify_one, delete_one, left, step, add_effect}

module _ (cfg : Settings) where
  delete-serving :
      (host : String) (found : Option Domain) (db : Db)
      → count (serves host) (delete_found found db).1.domains ≤ count (serves host) db.domains
  unfolding delete_found
  delete-serving host none db = omega arith
  delete-serving host (some d) db = count-delete (serves host) (λ x. x.id == d.id) db.domains

  add-serving :
      (host id token : String) (tenant_id : Option String) (project hostname : String) (db : Db)
      (r : Result DomainError (Domain × Db))
      → add_for_tenant cfg id token tenant_id project hostname db ≡ r
      → count (serves host) (left db r).domains ≤ count (serves host) db.domains
  unfolding left is_verified
  add-serving host id token tenant_id project hostname db (err e) made = omega arith
  add-serving host id token tenant_id project hostname db (ok (d, after)) made =
      let (named, owned, free, row, written) =
        add_effect cfg id token tenant_id project hostname db made in
      rw (written, count-insert (serves host) d db.domains) (ground (arith, row))

  -- A step that proves `host`: a verification by the tenant of a claim of `host`, whose token DNS shows.
  abbrev pub IsProof : String → Db → Request → Type 0
  IsProof host db (add_one _ _ _ _ _) = (true ≡ false)
  IsProof host db (delete_one _ _) = (true ≡ false)
  IsProof host db (verify_one resolve register tenant_id domain_id) =
      (d : Domain) × (get_for_tenant tenant_id domain_id db ≡ some d)
      × (d.hostname ≡ host)
      × (contains (resolve (challenge host)) d.token ≡ true)

  -- rows that serve `host`
  abbrev pub serving : String → Db → ℕ
  serving host db = count (serves host) db.domains

  count-update_keeps :
      (q p : Domain → Bool) (f : Domain → Domain) (xs : List Domain)
      → All (λ x. p x ≡ true → q (f x) ≡ true → q x ≡ true) xs
      → count q (update p f xs) ≤ count q xs
  unfolding count select update
  count-update_keeps q p f [] h = omega arith
  count-update_keeps q p f (x ∷ xs) (k, h) = ground (arith, count-update_keeps q p f xs h, k)

  get_for_tenant_found :
      (tenant_id : Option String) (domain_id : String) (db : Db) {d : Domain}
      → get_for_tenant tenant_id domain_id db ≡ some d
      → first (λ x. x.id == domain_id) db.domains ≡ some d
  unfolding get_for_tenant own
  get_for_tenant_found tenant_id domain_id db h = ground arith

  verify_none :
      (host : String) (resolve : String → List String) (register : Option String) (db : Db)
      → 1 ≤ serving host (left db (verify_found cfg resolve register none db))
      → 1 ≤ serving host db
  unfolding left verify_found
  verify_none host resolve register db h = h

  verify-serving :
      (host : String) (resolve : String → List String) (register : Option String)
      (tenant_id : Option String) (domain_id : String) (db : Db) (d : Domain)
      → count (λ x. x.id == d.id) db.domains ≤ 1
      → get_for_tenant tenant_id domain_id db ≡ some d
      → 1 ≤ serving host (left db (verify_found cfg resolve register (some d) db))
      → (1 ≤ serving host db) ⊎ IsProof host db (verify_one resolve register tenant_id domain_id)
  unfolding left verify_found
  verify-serving host resolve register tenant_id domain_id db d keyed here h =
      elim (Bool-cases
        (is_verified d.status || not (contains (resolve (challenge d.hostname)) d.token))) [
          | inl kept ↦ inl (ground arith)
          | inr shown ↦ elim (Bool-cases (d.hostname == host)) [
            | inl same ↦
                let e : d.hostname ≡ host = ground (arith, eq_iff d.hostname host) in
                let told : contains (resolve (challenge d.hostname)) d.token ≡ true =
                  ground arith in
                inr (d, here, e, rw e at told)
            | inr other ↦
                let found = get_for_tenant_found tenant_id domain_id db here in
                let hit = first_holds _ db.domains found in
                let only =
                  only_row (λ x. x.id == d.id) (λ x. x.id == domain_id) db.domains
                    (λ x e.
                      ground
                        (arith, eq_iff x.id domain_id, eq_iff d.id domain_id, eq_iff x.id d.id))
                    keyed found in
                let f = set_verified (registered cfg register d) in
                let fewer : serving host
                      (record db { domains = update (λ x. x.id == d.id) f db.domains })
                    ≤ serving host db =
                  count-update_keeps (serves host) (λ x. x.id == d.id) f db.domains
                    (All-weaken _ _ db.domains (λ x e on. rw (e on) (ground arith)) only) in
                inl (ground arith)
          ]
        ]

  -- A hostname starts to be served by a proof only: whatever the call, a hostname that is served
  -- after it was served before, or the call verified, for the tenant that claimed it, a claim of
  -- that hostname whose token DNS showed under its challenge name. Ids are those of one row at most.
  pub step-serving :
      (host : String) (q : Request) (db : Db)
      → ((id : String) → count (λ d. d.id == id) db.domains ≤ 1)
      → 1 ≤ count (serves host) (step cfg q db).domains
      → (1 ≤ count (serves host) db.domains) ⊎ IsProof host db q
  unfolding step verify_for_tenant delete_for_tenant
  step-serving host (add_one id token tenant_id project hostname) db keyed h =
      inl (omega (arith, h, add-serving host id token tenant_id project hostname db _ refl))
  step-serving host (verify_one resolve register tenant_id domain_id) db keyed h =
      elim (Option-cases (get_for_tenant tenant_id domain_id db)) [
        | inl gone ↦ inl (verify_none host resolve register db (rw gone at h))
        | inr (d, here) ↦
            verify-serving host resolve register tenant_id domain_id db d (keyed d.id) here
              (rw here at h)
      ]
  step-serving host (delete_one tenant_id domain_id) db keyed h =
      inl (omega (arith, h, delete-serving host (get_for_tenant tenant_id domain_id db) db))
