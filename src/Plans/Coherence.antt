-- ===== src/Plans/Coherence.antt =====
-- Every plan that the service writes has room for its apps at the default size.
use tetra_host.Prelude.{
  ℕ, String, ◌≡◌, ◌≤◌, ◌*◌, Option, none, some, All, All-append, All-update, All-first, ok, arith,
  >>-eq-ok, carry_ok, ◌==◌, refl,
}
use tetra_host.Models.{Db, Plan}
use tetra_host.Plans.{
  Settings, PlanUpdate, get_by_id, validate_coherence, create, apply_update, store, update_found,
  update_plan, archive_found, archive,
}

pub record IsCoherent (cfg : Settings) (plan : Plan) : Type 0 where
  pub cpu_fits : plan.max_apps * cfg.default_app_cpu_millicores ≤ plan.cpu_millicores
  pub mem_fits : plan.max_apps * cfg.default_app_mem_mb ≤ plan.mem_mb

abbrev pub AllCoherent : Settings → Db → Type 0
AllCoherent cfg db = All (IsCoherent cfg) db.plans

module _ (cfg : Settings) where
  validate_coherence-bounds :
      (apps cpu mem : ℕ) {u : Unit {0}}
      → validate_coherence cfg apps cpu mem ≡ ok u
      → (apps * cfg.default_app_cpu_millicores ≤ cpu) × (apps * cfg.default_app_mem_mb ≤ mem)
  unfolding validate_coherence
  validate_coherence-bounds apps cpu mem h = ground arith

  pub create-AllCoherent :
      (draft : Plan) (db : Db) {plan : Plan} {after : Db}
      → AllCoherent cfg db
      → create cfg draft db ≡ ok (plan, after)
      → IsCoherent cfg plan × AllCoherent cfg after
  unfolding create
  create-AllCoherent draft db h made =
      let (passed, rest) = >>-eq-ok _ _ made in
      let (cpu, mem) = validate_coherence-bounds _ _ _ passed in
      carry_ok (λ (r : Plan × Db). IsCoherent cfg r.0 × AllCoherent cfg r.1) rest
        (
          record { cpu_fits = cpu; mem_fits = mem },
          All-append (IsCoherent cfg) db.plans _ h (record { cpu_fits = cpu; mem_fits = mem }, tt),
        )

  store-AllCoherent :
      (plan : Plan) (db : Db)
      → IsCoherent cfg plan
      → AllCoherent cfg db
      → AllCoherent cfg (store plan db)
  unfolding store
  store-AllCoherent plan db k h = All-update (IsCoherent cfg) _ _ db.plans (λ x _. k) h

  -- What an update returns: nothing found and nothing changed, or the plan and its table.
  abbrev pub FoundCoherent : Option Plan × Db → Type 0
  FoundCoherent (none, db) = AllCoherent cfg db
  FoundCoherent (some plan, db) = IsCoherent cfg plan × AllCoherent cfg db

  update_found-AllCoherent :
      (fields : PlanUpdate) (db : Db) (old : Option Plan) {r : Option Plan × Db}
      → AllCoherent cfg db
      → update_found cfg fields db old ≡ ok r
      → FoundCoherent r
  unfolding update_found
  update_found-AllCoherent fields db none h made = carry_ok FoundCoherent made h
  update_found-AllCoherent fields db (some old) h made =
      let (passed, rest) = >>-eq-ok _ _ made in
      let (cpu, mem) = validate_coherence-bounds _ _ _ passed in
      let fits : IsCoherent cfg (apply_update fields old) = record {
        cpu_fits = cpu;
        mem_fits = mem;
      } in
      carry_ok FoundCoherent rest (fits, store-AllCoherent _ db fits h)

  -- An update that returns leaves a coherent table, and the plan it returns is coherent.
  pub update_plan-AllCoherent :
      (plan_id : String) (fields : PlanUpdate) (db : Db) {r : Option Plan × Db}
      → AllCoherent cfg db
      → update_plan cfg plan_id fields db ≡ ok r
      → FoundCoherent r
  unfolding update_plan
  update_plan-AllCoherent plan_id fields db h made =
      update_found-AllCoherent fields db (get_by_id db plan_id) h made

  archive_found-AllCoherent :
      (db : Db) (old : Option Plan)
      → AllCoherent cfg db
      → ((plan : Plan) → old ≡ some plan → IsCoherent cfg plan)
      → AllCoherent cfg (archive_found db old).1
  unfolding archive_found
  archive_found-AllCoherent db none h k = h
  archive_found-AllCoherent db (some old) h k =
      let fits = k old refl in
      store-AllCoherent _ db (record { cpu_fits = fits.cpu_fits; mem_fits = fits.mem_fits }) h

  archive-AllCoherent :
      (plan_id : String) (db : Db) → AllCoherent cfg db → AllCoherent cfg (archive plan_id db).1
  unfolding archive get_by_id
  archive-AllCoherent plan_id db h =
      archive_found-AllCoherent db _ h
        (λ plan e. All-first (IsCoherent cfg) (λ p. p.id == plan_id) db.plans h e)
