-- ===== src/Deploys/Retention/Keeps.antt =====
-- What retention never deletes.
use tetra_host.Prelude.{
  ℕ, String, ◌≡◌, ◌≢◌, refl, Bool, true, false, ◌&&◌, ◌||◌, ◌==◌, Option, none, List, [], ◌∷◌, inl,
  inr, arith, All, Bool-cases, Option-cases, eq_iff, take, select, first, map, All-weaken,
}
use tetra_host.Prelude.Text.{contains}
use tetra_host.Models.{Db, Deployment, is_inflight}
use tetra_host.Access.{tenant_key}
use tetra_host.Deploys.{Settings}
use tetra_host.Deploys.Retention.{
  without, of_project, ordered_images, stale_images, shared_images, is_busy, deleted_images,
  prune_old_images,
}

without-contains :
    (others xs : List String) (x : String)
    → contains (without others xs) x ≡ true
    → (contains others x ≡ false)
unfolding without contains
without-contains others [] x h = ground arith
without-contains others (y ∷ ys) x h = ground (arith, without-contains others ys x, eq_iff y x)

without-subset :
    (others xs : List String) (x : String)
    → contains (without others xs) x ≡ true
    → contains xs x ≡ true
unfolding without contains
without-subset others [] x h = h
without-subset others (y ∷ ys) x h = ground (arith, without-subset others ys x)

-- a selected row is found by its image
contains-select_image :
    (p : Deployment → Bool) (rows : List Deployment)
    → (x : String) → contains (map (λ d. d.image) (select p rows)) x ≡ false
    → All (λ d. p d ≡ true → d.image ≢ x) rows
unfolding contains select
contains-select_image p [] x h = tt
contains-select_image p (d ∷ rows) x h = elim (Bool-cases (p d)) [
  | inl e ↦
      let missed : (d.image == x || contains (map (λ d. d.image) (select p rows)) x) ≡ false =
        rw e at h in
      (λ _ same. ground (arith, eq_iff d.image x), contains-select_image p rows x (ground arith))
  | inr e ↦
      let missed : contains (map (λ d. d.image) (select p rows)) x ≡ false = rw e at h in
      (λ on _. ground arith, contains-select_image p rows x missed)
]

fails_everywhere :
    (p : Deployment → Bool) (rows : List Deployment)
    → first p rows ≡ none
    → All (λ d. p d ≡ false) rows
unfolding first
fails_everywhere p [] h = tt
fails_everywhere p (d ∷ rows) h = elim (Bool-cases (p d)) [
  | inl e ↦ ground arith
  | inr e ↦ (e, fails_everywhere p rows (rw e at h))
]

-- An image of the newest `keep` distinct ones, or one that a deployment of another tenant references,
-- is not among those deleted.
deleted_images-spare :
    (keep : ℕ) (t project : String) (db : Db) (x : String)
    → contains (deleted_images keep t project db) x ≡ true
    → (contains (take keep (ordered_images t project db)) x ≡ false)
      × All (λ d. d.image ≡ x → d.tenant_id ≡ t) db.deployments
unfolding deleted_images stale_images shared_images
deleted_images-spare keep t project db x deleted =
    let stale = stale_images keep t project db in
    let is_stale : contains stale x ≡ true =
      without-subset (shared_images stale t db) stale x deleted in
    let unshared = without-contains (shared_images stale t db) stale x deleted in
    (
      without-contains _ _ x is_stale,
      All-weaken _ _ db.deployments
          (λ d off same. elim (Bool-cases (d.tenant_id == t)) [
            | inl e ↦ (eq_iff d.tenant_id t).0 e
            | inr e ↦ absurd (off (rw (same, is_stale, e) refl) same)
          ])
          (contains-select_image _ db.deployments x unshared),
    )

not_busy :
    (t project : String) (db : Db)
    → is_busy t project db ≡ false
    → All (λ d. of_project t project d ≡ true → is_inflight d.status ≡ false) db.deployments
unfolding is_busy
not_busy t project db idle =
    elim (Option-cases
      (first (λ d. of_project t project d && is_inflight d.status) db.deployments)) [
        | inl gone ↦
            All-weaken _ _ db.deployments (λ d off own. ground arith)
              (fails_everywhere _ db.deployments gone)
        | inr (d, here) ↦ ground arith
      ]

-- An image that retention deletes is none of the newest `registry_keep_images` distinct images of
-- the ready deployments of the project, no deployment of another tenant references it, and no
-- deployment of the project was queued or building.
pub prune_old_images-spares :
    (cfg : Settings) (tenant_id : Option String) (project : String) (db : Db) (x : String)
    → contains (prune_old_images cfg tenant_id project db).0 x ≡ true
    → (contains (take cfg.registry_keep_images (ordered_images (tenant_key tenant_id) project db)) x
        ≡ false)
      × All (λ d. d.image ≡ x → d.tenant_id ≡ tenant_key tenant_id) db.deployments
      × All
          (λ d. of_project (tenant_key tenant_id) project d ≡ true → is_inflight d.status ≡ false)
          db.deployments
unfolding prune_old_images contains
prune_old_images-spares cfg tenant_id project db x deleted =
    let keep = cfg.registry_keep_images in
    let t = tenant_key tenant_id in
    let chosen : contains (deleted_images keep t project db) x ≡ true = ground arith in
    let (recent, foreign) = deleted_images-spare keep t project db x chosen in
    (recent, foreign, not_busy t project db (ground arith))
