-- ===== src/Deploys/Previews/Cap.antt =====
-- The number of previews that an app has.
use tetra_host.Prelude.{
  ℕ, String, ◌≡◌, ◌≤◌, refl, false, ◌==◌, Option, none, some, List, ◌∷◌, [], Result, ok, err, inl,
  inr, arith, Bool-cases, eq_iff, count, count-update_same, count-insert, count-delete, leb, max,
  first,
}
use tetra_host.Models.{Db, PreviewEnv}
use tetra_host.Access.{tenant_key}
use tetra_host.Deploys.{Settings, DeployError}
use tetra_host.Deploys.Previews.{
  is_preview_of, find_preview, queue_preview, refresh, deploy_preview_for_tenant, remove_found,
  own_preview, teardown_preview_for_branch, delete_preview_for_tenant, preview_row,
}

-- a call, with the fresh ids that it uses
pub data PreviewCall : Type 0 where
  deploy_preview :
      (row_id id : String) (tenant_id : Option String) (git_url branch project : String) (port : ℕ)
      → PreviewCall
  teardown_branch : (tenant_id : Option String) (project branch : String) → PreviewCall
  delete_preview : (tenant_id : Option String) (preview_id : String) → PreviewCall

-- what a call commits
commit {ℓ} : {A : Type ℓ} → Db → Result {0, ℓ} DeployError (A × Db) → Db
commit before (ok (_, after)) = after
commit before (err e) = before

unfoldable pub step : Settings → PreviewCall → Db → Db
unfolding commit
step cfg (deploy_preview row_id id tenant_id git_url branch project port) db =
    commit db (deploy_preview_for_tenant cfg row_id id tenant_id git_url branch project port db)
step cfg (teardown_branch tenant_id project branch) db =
    commit db (teardown_preview_for_branch cfg tenant_id project branch db)
step cfg (delete_preview tenant_id preview_id) db =
    commit db (delete_preview_for_tenant cfg tenant_id preview_id db)

unfoldable pub run : Settings → List PreviewCall → Db → Db
run cfg [] db = db
run cfg (c ∷ cs) db = run cfg cs (step cfg c db)

module _ (cfg : Settings) (t p : String) where
  remove_found-count :
      (found : Option PreviewEnv) (db : Db)
      → count (is_preview_of t p) (remove_found found db).1.previews
        ≤ count (is_preview_of t p) db.previews
  unfolding remove_found
  remove_found-count none db = omega arith
  remove_found-count (some x) db = count-delete (is_preview_of t p) _ db.previews

  refresh-count :
      (row_id id : String) (tenant_id : Option String) (git_url branch project : String) (port : ℕ)
      (found : Option PreviewEnv) (db : Db)
      → count
          (is_preview_of t p)
          (commit db
            (refresh cfg row_id id tenant_id git_url branch project port found db)).previews
        ≤ max cfg.max_previews_per_project (count (is_preview_of t p) db.previews)
  unfolding commit refresh queue_preview
  refresh-count row_id id tenant_id git_url branch project port (some x) db =
      let same =
        count-update_same (is_preview_of t p) (λ y. y.id == x.id)
          (λ y. record y { last_deployment_id = id }) db.previews (λ y. refl) in
      ground (arith, same)
  refresh-count row_id id tenant_id git_url branch project port none db =
      let row = preview_row cfg row_id id tenant_id git_url branch project port in
      let grown = count-insert (is_preview_of t p) row db.previews in
      let own = count (is_preview_of (tenant_key tenant_id) project) db.previews in
      elim (Bool-cases (leb cfg.max_previews_per_project own)) [
        | inl full ↦ rw full (ground arith)
        | inr low ↦ elim (Bool-cases (is_preview_of t p row)) [
          | inl same ↦
              let same_tenant : tenant_key tenant_id ≡ t =
                ground (arith, eq_iff (tenant_key tenant_id) t) in
              let same_project : project ≡ p = ground (arith, eq_iff project p) in
              let room : leb cfg.max_previews_per_project (count (is_preview_of t p) db.previews)
                  ≡ false =
                rw (same_tenant, same_project) at low in
              rw low (ground (arith, grown))
          | inr other ↦ rw low (ground (arith, grown))
        ]
      ]

  step-count :
      (call : PreviewCall) (db : Db)
      → count (is_preview_of t p) (step cfg call db).previews
        ≤ max cfg.max_previews_per_project (count (is_preview_of t p) db.previews)
  unfolding step deploy_preview_for_tenant teardown_preview_for_branch delete_preview_for_tenant
      commit
  step-count (deploy_preview row_id id tenant_id git_url branch project port) db =
      elim (Bool-cases cfg.enable_provider_actions) [
        | inr off ↦ rw off (ground arith)
        | inl on ↦ rw on (refresh-count row_id id tenant_id git_url branch project port _ db)
      ]
  step-count (teardown_branch tenant_id project branch) db =
      let fewer = remove_found-count (find_preview (tenant_key tenant_id) project branch db) db in
      ground arith
  step-count (delete_preview tenant_id preview_id) db =
      let found =
        own_preview (tenant_key tenant_id) (first (λ x. x.id == preview_id) db.previews) in
      let fewer = remove_found-count found db in ground arith

  -- After any calls on previews, of any tenants and in any order, an app has at most
  -- `max_previews_per_project` previews, or at most as many as it had before.
  pub run-Within_cap :
      (calls : List PreviewCall) (db : Db)
      → count (is_preview_of t p) (run cfg calls db).previews
        ≤ max cfg.max_previews_per_project (count (is_preview_of t p) db.previews)
  unfolding run
  run-Within_cap [] db = ground arith
  run-Within_cap (c ∷ cs) db = ground (arith, step-count c db, run-Within_cap cs (step cfg c db))
