-- ===== src/Auth/Profile.antt =====
-- An admin's own changes leave the addresses unique.
use tetra_host.Prelude.{
  String, Bool, not, ◌≡◌, ◌≤◌, ◌==◌, ◌&&◌, sym, none, List, [], ◌∷◌, ok, arith, eq_iff, count,
  first, update, select, Bool-cases, inl, inr, count-update_drop, Option, some, ◌||◌, ◌⊎◌, ◌∙◌, ap,
  true, eq_refl, first_holds, select_of_first-none, count_of_first, first-none_of_count,
  count_split,
}
use mathlib.Core.Path.{subst}
use tetra_host.Prelude.Normal.{lower-strip_again}
use tetra_host.Models.{Db, AdminUser}
use tetra_host.Team.{normalize_email, get_admin_by_email}
use tetra_host.Auth.{update_profile, save, is_own}

count-update_all :
    (q p : AdminUser → Bool) (f : AdminUser → AdminUser) (xs : List AdminUser)
    → first (λ a. q a && not (p a)) xs ≡ none
    → count q (update p f xs) ≤ count p xs
unfolding count select update first
count-update_all q p f [] h = omega arith
count-update_all q p f (x ∷ xs) h = ground (arith, count-update_all q p f xs)

-- A row with the address is the admin's own, or none has it.
IsFree : AdminUser → String → List AdminUser → Type 0
IsFree admin e xs =
    (1 ≤ count (λ a. a.email == e && a.id == admin.id) xs) ⊎ (count (λ a. a.email == e) xs ≤ 0)

first-IsFree :
    (admin : AdminUser) (e : String) (db : Db) (found : Option AdminUser)
    → first (λ a. a.email == e) db.admins ≡ found
    → is_own admin found ≡ true
    → IsFree admin e db.admins
unfolding IsFree
first-IsFree admin e db none absent own =
    let empty = select_of_first-none (λ a. a.email == e) db.admins absent in
    inr (unfold count in rw empty (omega arith))
first-IsFree admin e db (some b) here own =
    let named = first_holds (λ a. a.email == e) db.admins here in
    inl (count_of_first (λ a. a.email == e) _ db.admins here (ground arith))

update_profile_effect :
    (accepts : AdminUser → Db → Bool) (admin : AdminUser) (full_name email : String) (db : Db)
    {a : AdminUser} {after : Db}
    → update_profile accepts admin full_name email db ≡ ok (a, after)
    → ((normalize_email email == admin.email
          || is_own admin (get_admin_by_email (normalize_email email) db))
        ≡ true)
      × (a.id ≡ admin.id)
      × (a.email ≡ normalize_email email)
      × (after ≡ save a db)
unfolding update_profile
update_profile_effect accepts admin full_name email db h =
    (ground arith, ground arith, ground arith, ground arith)

normalized-IsFree :
    (admin : AdminUser) (email : String) (db : Db)
    → first (λ a. a.id == admin.id) db.admins ≡ some admin
    → (normalize_email email == admin.email
        || is_own admin (get_admin_by_email (normalize_email email) db))
      ≡ true
    → IsFree admin (normalize_email email) db.admins
unfolding get_admin_by_email normalize_email IsFree
normalized-IsFree admin email db stored h =
    let e = normalize_email email in
    elim (Bool-cases (e == admin.email)) [
      | inl same ↦
          let kept = (eq_iff e admin.email).0 same in
          inl (
            count_of_first (λ a. a.id == admin.id) (λ a. a.email == e && a.id == admin.id) db.admins
              stored (ground (arith, kept, eq_refl e, eq_refl admin.id)))
      | inr changed ↦
          first-IsFree admin e db (get_admin_by_email e db)
            (ap (λ x. first (λ a. a.email == x) db.admins) (sym (lower-strip_again email)))
            (ground arith)
    ]

others_free :
    (admin : AdminUser) (e : String) (xs : List AdminUser)
    → count (λ a. a.email == e) xs ≤ 1
    → IsFree admin e xs
    → first (λ a. a.email == e && not (a.id == admin.id)) xs ≡ none
unfolding IsFree
others_free admin e xs addressed (inl own) =
    first-none_of_count _ xs
      (omega (arith, own, addressed, count_split (λ a. a.id == admin.id) (λ a. a.email == e) xs))
others_free admin e xs addressed (inr absent) =
    first-none_of_count _ xs
      (omega (arith, absent, count_split (λ a. a.id == admin.id) (λ a. a.email == e) xs))

-- Where the admin is a row on record, no two accounts have an id, and none two an address, no two
-- have an address after a change of a profile that returns, even if no index guards the addresses.
pub update_profile-emails :
    (accepts : AdminUser → Db → Bool) (admin : AdminUser) (full_name email : String) (db : Db)
    {a : AdminUser} {after : Db}
    → first (λ x. x.id == admin.id) db.admins ≡ some admin
    → ((id : String) → count (λ x. x.id == id) db.admins ≤ 1)
    → ((e : String) → count (λ x. x.email == e) db.admins ≤ 1)
    → update_profile accepts admin full_name email db ≡ ok (a, after)
    → (e : String) → count (λ x. x.email == e) after.admins ≤ 1
unfolding save
update_profile-emails accepts admin full_name email db {a} stored keyed addressed h e =
    let (checked, same, named, written) =
      update_profile_effect accepts admin full_name email db h in
    let free =
      others_free admin (normalize_email email) db.admins (addressed (normalize_email email))
        (normalized-IsFree admin email db stored checked) in
    rw written (elim (Bool-cases (a.email == e)) [
      | inl hit ↦
          let here : normalize_email email ≡ e = sym named ∙ (eq_iff a.email e).0 hit in
          let free_e : first (λ x. x.email == e && not (x.id == a.id)) db.admins ≡ none =
            subst (λ i. first (λ x. x.email == e && not (x.id == i)) db.admins ≡ none) (sym same)
              (subst (λ t. first (λ x. x.email == t && not (x.id == admin.id)) db.admins ≡ none)
                here free) in
          let fits =
            count-update_all (λ x. x.email == e) (λ x. x.id == a.id) (λ _. a) db.admins free_e in
          omega (arith, fits, keyed a.id)
      | inr miss ↦
          let less : count (λ x. x.email == e) (update (λ x. x.id == a.id) (λ _. a) db.admins)
              ≤ count (λ x. x.email == e) db.admins =
            count-update_drop (λ x. x.email == e) (λ x. x.id == a.id) (λ _. a) db.admins
              (λ x k. ground arith) in
          omega (arith, less, addressed e)
    ])
