-- ===== src/Quota/Counting.antt =====
-- How the slots in use change with a reservation and a release.
use tetra_host.Prelude.{
  String, true, false, ◌≡◌, ◌≢◌, ◌≤◌, ◌+◌, refl, List, [], ◌∷◌, ◌++◌, arith, eq_iff, eq_refl,
  select, count, count-append, select-append,
}
use mathlib.Core.List.{map-append, append-nil}
use tetra_host.Prelude.Text.{contains}
use tetra_host.Models.{Db, Deployment}
use tetra_host.Quota.{
  Allocation, is_app_of, reserved_ids, is_unreserved, count_apps, reserve, reservation,
}

contains-append :
    (xs ys : List String) (s : String) → contains xs s ≡ true → contains (xs ++ ys) s ≡ true
unfolding contains
contains-append [] ys s h = cc
contains-append (x ∷ xs) ys s h = ground (arith, contains-append xs ys s)

-- More reservations leave no more deployments unreserved.
count_unreserved_mono :
    (t : String) (xs ys : List String) (ds : List Deployment)
    → count (is_unreserved t (xs ++ ys)) ds ≤ count (is_unreserved t xs) ds
unfolding count is_unreserved
count_unreserved_mono t xs ys [] = omega arith
count_unreserved_mono t xs ys (d ∷ ds) =
    ground (arith, count_unreserved_mono t xs ys ds, contains-append xs ys d.project)

module _ (row_id t project : String) (a : Allocation) (name : String) (db : Db) where
  abbrev after : Db
  after = reserve row_id t project a name db

  reserved_ids-reserve : reserved_ids t after ≡ reserved_ids t db ++ project ∷ []
  unfolding reserved_ids select is_app_of
  reserved_ids-reserve = rw (select-append, eq_refl, map-append)

  count_app-reserve : count (is_app_of t) after.resources ≡ count (is_app_of t) db.resources + 1
  unfolding count select is_app_of
  count_app-reserve = rw count-append (unfold count select is_app_of in rw (eq_refl t) refl)

  -- A reservation adds one slot at most: less where the project was counted as a deployment.
  pub count_apps-reserve : count_apps t after ≤ count_apps t db + 1
  unfolding count_apps
  count_apps-reserve = rw reserved_ids-reserve (
      omega (
        arith,
        count_app-reserve,
        count_unreserved_mono t (reserved_ids t db) (project ∷ []) db.deployments,
      ))

  module _ (u : String) (other : u ≢ t) where
    not_theirs : is_app_of u (reservation row_id t project a name) ≡ false
    unfolding is_app_of
    not_theirs = ground (arith, eq_iff t u)

    select-reserve_other : select (is_app_of u) after.resources ≡ select (is_app_of u) db.resources
    unfolding select
    select-reserve_other = rw (select-append, not_theirs) (append-nil _)

    pub count_apps-reserve_other : count_apps u after ≡ count_apps u db
    unfolding count_apps count reserved_ids
    count_apps-reserve_other = rw select-reserve_other
