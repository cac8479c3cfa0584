-- ===== src/Auth.antt =====
-- app/modules/auth/service.py and app/services/totp.py: logins, two-factor codes, and an admin's own
-- profile and password. The hashes, the HMAC and JSON's encoding are parameters. The clock stands
-- thirty seconds after the epoch or later, and the digits of a code are those of ASCII.
pub mod Totp
pub mod Calls
pub mod BackupCodes
pub mod Profile
use tetra_host.Prelude.{
  ℕ, String, Bool, true, false, not, ◌&&◌, ◌||◌, ◌+◌, ◌-◌, ◌/◌, ◌==◌, Option, none, some, List, [],
  ◌∷◌, map, Result, ok, err, ◌>>=◌, ◌>>◌, if◌then◌else◌, first, update,
}
use tetra_host.Prelude.Text.{strip, has_char, contains}
use tetra_host.Models.{Db, AdminUser}
use tetra_host.Team.{normalize_email, get_admin_by_email, validate_password}
use tetra_host.Auth.Totp

abbrev pub require : Bool → String → Result String (Unit {0})
require true message = ok tt
require false message = err message

-- `session.flush`, of the admin's row
unfoldable pub save : AdminUser → Db → Db
save admin db = record db { admins = update (λ a. a.id == admin.id) (λ _. admin) db.admins }

module _ (verify_password : String → String → Bool) (hash_password : String → String) where
  let_in : String → Option AdminUser → Option AdminUser
  let_in password none = none
  let_in password (some admin) =
      if not admin.is_active || not (verify_password password admin.password_hash)
      then none
      else some admin

  unfoldable pub authenticate : String → String → Db → Option AdminUser
  unfolding let_in
  authenticate email password db = let_in password (get_admin_by_email email db)

  unfoldable pub change_password : AdminUser → String → String → Db → Result String (AdminUser × Db)
  change_password admin current_password new_password db = do
    require (verify_password current_password admin.password_hash) "Current password is incorrect."
    validate_password new_password
    require (not (new_password == current_password))
        "New password must differ from the current one."
    let after : AdminUser = record admin { password_hash = hash_password new_password }
    ok (after, save after db)

  unfoldable pub disable_totp : AdminUser → String → Db → Result String (AdminUser × Db)
  disable_totp admin password db = do
    require (verify_password password admin.password_hash) "Password is incorrect."
    let after : AdminUser = record admin {
      totp_enabled = false;
      totp_secret = none;
      totp_backup_codes = none;
    }
    ok (after, save after db)

unfoldable pub touch_last_login : ℕ → AdminUser → Db → AdminUser × Db
touch_last_login now admin db =
    let after : AdminUser = record admin { last_login_at = some now } in (after, save after db)

-- `secret` is the fresh one; the URI that is shown beside it is left out.
unfoldable pub setup_totp : String → AdminUser → Db → Result String (String × AdminUser × Db)
setup_totp secret admin db = do
  require (not admin.totp_enabled) "Two-factor authentication is already enabled."
  let after : AdminUser = record admin { totp_secret = some secret }
  ok (secret, after, save after db)

-- `not admin.totp_secret`
abbrev pub text_of : Option String → String
text_of none = ""
text_of (some s) = s

-- hashes.remove(candidate)
unfoldable pub remove : String → List String → List String
remove s [] = []
remove s (x ∷ xs) = let rest = remove s xs in if x == s then xs else x ∷ rest

module _ (hmac : String → ℕ → List ℕ) (sha256 : String → String) (dumps : List String → String)
    (loads : String → Option (List String)) where
  -- `codes` are the fresh backup codes.
  unfoldable pub enable_totp :
      ℕ → List String → AdminUser → String → Db → Result String (List String × AdminUser × Db)
  enable_totp now codes admin code db = do
    require (not admin.totp_enabled) "Two-factor authentication is already enabled."
    require (not (text_of admin.totp_secret == ""))
        "Start setup before enabling two-factor authentication."
    require (Totp.verify hmac (text_of admin.totp_secret) code now)
        "That code is incorrect. Check your authenticator app and try again."
    let after : AdminUser = record admin {
      totp_backup_codes = some (dumps (map (Totp.hash_backup_code sha256) codes));
      totp_enabled = true;
    }
    ok (codes, after, save after db)

  consume : AdminUser → String → Option (List String) → Db → Bool × AdminUser × Db
  consume admin candidate none db = (false, admin, db)
  consume admin candidate (some hashes) db =
      if not (contains hashes candidate)
      then (false, admin, db)
      else (let after : AdminUser = record admin {
        totp_backup_codes = some (dumps (remove candidate hashes));
      } in
          (true, after, save after db))

  unfoldable pub consume_backup_code : AdminUser → String → Db → Bool × AdminUser × Db
  unfolding consume
  consume_backup_code admin code db =
      if text_of admin.totp_backup_codes == ""
      then (false, admin, db)
      else consume admin (Totp.hash_backup_code sha256 code)
          (loads (text_of admin.totp_backup_codes)) db

  unfoldable pub verify_totp_login : ℕ → AdminUser → String → Db → Bool × AdminUser × Db
  verify_totp_login now admin code db =
      if code == "" || text_of admin.totp_secret == ""
      then (false, admin, db)
      else if Totp.verify hmac (text_of admin.totp_secret) code now
      then (true, admin, db)
      else consume_backup_code admin code db

-- no row, or the admin's own
abbrev pub is_own : AdminUser → Option AdminUser → Bool
is_own admin none = true
is_own admin (some a) = a.id == admin.id

-- `accepts` says whether the unique index of the addresses takes the flush of a row.
unfoldable pub update_profile :
    (AdminUser → Db → Bool) → AdminUser → String → String → Db → Result String (AdminUser × Db)
update_profile accepts admin full_name email db = do
  let new_name = strip full_name
  require (not (new_name == "")) "Name cannot be empty."
  let new_email = normalize_email email
  require (not (new_email == "") && has_char 64 new_email) "A valid email address is required."
  require (new_email == admin.email || is_own admin (get_admin_by_email new_email db))
      "That email address is already in use."
  let after : AdminUser = record admin { full_name = new_name; email = new_email }
  require (accepts after db) "That email address is already in use."
  ok (after, save after db)
