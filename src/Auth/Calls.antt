-- ===== src/Auth/Calls.antt =====
-- The calls of the service on the row of an admin, in any order. Each reads the row by its id, as
-- `get_admin_by_id` does.
use tetra_host.Prelude.{
  ℕ, String, Bool, false, ◌≡◌, ◌≢◌, ◌==◌, refl, Option, none, some, List, [], ◌∷◌, Result, ok, err,
  arith, inl, inr, ◌⊎◌, eq_iff, first, Ensures, Ensures->>, ◌||◌, Bool-cases,
}
use tetra_host.Prelude.Text.{contains, strip}
use tetra_host.Models.{Db, AdminUser}
use tetra_host.Team.{normalize_email}
use tetra_host.Auth.Totp
use tetra_host.Auth.{
  text_of, remove, save, consume, consume_backup_code, verify_totp_login, touch_last_login,
  change_password, disable_totp, update_profile,
}

unfoldable pub get_admin_by_id : String → Db → Option AdminUser
get_admin_by_id id db = first (λ a. a.id == id) db.admins

-- every call but the set-up of two-factor codes
pub data AuthCall : Type 0 where
  login_call : (code : String) (now : ℕ) → AuthCall
  touch_call : (now : ℕ) → AuthCall
  password_call : (current_password new_password : String) → AuthCall
  disable_call : (password : String) → AuthCall
  profile_call : (full_name email : String) → AuthCall

-- what a call commits
committed : Db → Result String (AdminUser × Db) → Db
committed before (ok out) = out.1
committed before (err e) = before

module _ (hmac : String → ℕ → List ℕ) (sha256 : String → String) (dumps : List String → String)
    (loads : String → Option (List String)) (verify_password : String → String → Bool)
    (hash_password : String → String) (accepts : AdminUser → Db → Bool) where
  unfoldable pub act : AuthCall → AdminUser → Db → Db
  unfolding committed
  act (login_call code now) admin db =
      (verify_totp_login hmac sha256 dumps loads now admin code db).2
  act (touch_call now) admin db = (touch_last_login now admin db).1
  act (password_call current_password new_password) admin db =
      committed db
        (change_password verify_password hash_password admin current_password new_password db)
  act (disable_call password) admin db =
      committed db (disable_totp verify_password hash_password admin password db)
  act (profile_call full_name email) admin db =
      committed db (update_profile accepts admin full_name email db)

  unfoldable pub act_found : AuthCall → Option AdminUser → Db → Db
  act_found call none db = db
  act_found call (some admin) db = act call admin db

  -- calls, each with the id of its admin
  unfoldable pub run : List (String × AuthCall) → Db → Db
  unfolding act_found
  run [] db = db
  run ((id, call) ∷ calls) db = run calls (act_found call (get_admin_by_id id db) db)

  -- what a call may do to the backup codes of a row
  abbrev pub Kept : AdminUser → AdminUser → Type 0
  Kept before after =
      (after.id ≡ before.id)
      × ((text_of after.totp_backup_codes ≡ text_of before.totp_backup_codes)
          ⊎ (text_of after.totp_backup_codes ≡ "")
          ⊎ ((code : String) × (hashes : List String) × (text_of before.totp_backup_codes ≢ "")
              × (loads (text_of before.totp_backup_codes) ≡ some hashes)
              × (text_of after.totp_backup_codes ≡ dumps (remove code hashes))))

  -- A call leaves the database alone, or writes back the row it read.
  abbrev pub Acted : AdminUser → Db → Db → Type 0
  Acted admin before after =
      (after ≡ before) ⊎ ((row : AdminUser) × Kept admin row × (after ≡ save row before))

  consumed :
      (admin : AdminUser) (candidate : String) (o : Option (List String)) (db : Db)
      → text_of admin.totp_backup_codes ≢ ""
      → loads (text_of admin.totp_backup_codes) ≡ o
      → Acted admin db (consume hmac sha256 dumps loads admin candidate o db).2
  unfolding consume
  consumed admin candidate none db full e = inl refl
  consumed admin candidate (some hashes) db full e = elim (Bool-cases (contains hashes candidate)) [
    | inr miss ↦ rw miss (inl refl)
    | inl hit ↦ rw hit (inr (_, (refl, inr (inr (candidate, hashes, full, e, refl))), refl))
  ]

  login-Acted :
      (now : ℕ) (admin : AdminUser) (code : String) (db : Db)
      → Acted admin db (verify_totp_login hmac sha256 dumps loads now admin code db).2
  unfolding verify_totp_login consume_backup_code
  login-Acted now admin code db =
      elim (Bool-cases (code == "" || text_of admin.totp_secret == "")) [
        | inl e ↦ rw e (inl refl)
        | inr e ↦ rw e (elim (Bool-cases (Totp.verify hmac (text_of admin.totp_secret) code now)) [
          | inl f ↦ rw f (inl refl)
          | inr f ↦ rw f (elim (Bool-cases (text_of admin.totp_backup_codes == "")) [
            | inl g ↦ rw g (inl refl)
            | inr g ↦ rw g (
                consumed admin (Totp.hash_backup_code sha256 code)
                  (loads (text_of admin.totp_backup_codes)) db
                  (λ empty. let same = eq_iff (text_of admin.totp_backup_codes) "" in ground arith)
                  refl)
          ])
        ])
      ]

  abbrev Out : AdminUser → Db → AdminUser × Db → Type 0
  Out admin db out = Acted admin db out.1

  committed_lem :
      (admin : AdminUser) (db : Db) (r : Result String (AdminUser × Db))
      → Ensures (Out admin db) r
      → Acted admin db (committed db r)
  unfolding committed
  committed_lem admin db (ok out) h = h
  committed_lem admin db (err e) h = inl refl

  change_password-Acted :
      (admin : AdminUser) (current_password new_password : String) (db : Db)
      → Ensures
          (Out admin db)
          (change_password verify_password hash_password admin current_password new_password db)
  unfolding change_password
  change_password-Acted admin current_password new_password db =
      let row : AdminUser = record admin { password_hash = hash_password new_password } in
      let wrote : Acted admin db (save row db) = inr (row, (refl, inl refl), refl) in
      search (Ensures->>, wrote) depth 8

  disable_totp-Acted :
      (admin : AdminUser) (password : String) (db : Db)
      → Ensures (Out admin db) (disable_totp verify_password hash_password admin password db)
  unfolding disable_totp
  disable_totp-Acted admin password db =
      let row : AdminUser = record admin {
        totp_enabled = false;
        totp_secret = none;
        totp_backup_codes = none;
      } in
      let wrote : Acted admin db (save row db) = inr (row, (refl, inr (inl refl)), refl) in
      search (Ensures->>, wrote) depth 8

  update_profile-Acted :
      (admin : AdminUser) (full_name email : String) (db : Db)
      → Ensures (Out admin db) (update_profile accepts admin full_name email db)
  unfolding update_profile
  update_profile-Acted admin full_name email db =
      let row : AdminUser = record admin {
        full_name = strip full_name;
        email = normalize_email email;
      } in
      let wrote : Acted admin db (save row db) = inr (row, (refl, inl refl), refl) in
      search (Ensures->>, wrote) depth 8

  pub act-Acted :
      (call : AuthCall) (admin : AdminUser) (db : Db) → Acted admin db (act call admin db)
  unfolding act touch_last_login
  act-Acted (login_call code now) admin db = login-Acted now admin code db
  act-Acted (touch_call now) admin db = inr (_, (refl, inl refl), refl)
  act-Acted (password_call current_password new_password) admin db =
      committed_lem admin db
        (change_password verify_password hash_password admin current_password new_password db)
        (change_password-Acted admin current_password new_password db)
  act-Acted (disable_call password) admin db =
      committed_lem admin db (disable_totp verify_password hash_password admin password db)
        (disable_totp-Acted admin password db)
  act-Acted (profile_call full_name email) admin db =
      committed_lem admin db (update_profile accepts admin full_name email db)
        (update_profile-Acted admin full_name email db)
