-- ===== src/Tests/Tokens.antt =====
-- Personal API tokens.
use tetra_host.Prelude.{
  String, true, false, ◌≡◌, ◌==◌, refl, some, none, List, [], ◌∷◌, first, update, if◌then◌else◌,
}
use tetra_host.Prelude.Int.{pos}
use tetra_host.Prelude.Text.{strip, take_chars}
use Prim.Native.String.{◌++◌}
use tetra_host.Models.{Db, AdminUser, ApiToken, no_rows, role_owner}
use tetra_host.Tokens.{create, revoke, authenticate, secret_of}
use tetra_host.Tokens.Lifecycle.{
  Request, create_one, authenticate_one, run, by_hash, authenticate-create, authenticate-revoke,
}

abbrev hash : String → String
hash s = "sha256:" ++ s

abbrev ann : AdminUser
ann = record {
  id = "a1";
  tenant_id = "t1";
  email = "ann@acme.test";
  full_name = "";
  password_hash = "";
  is_active = true;
  role = role_owner;
  last_login_at = none;
  totp_secret = none;
  totp_enabled = false;
  totp_backup_codes = none;
}

tokens : Unit {0}
unfolding create revoke authenticate first update strip take_chars
tokens = tt

fresh : first (by_hash hash (secret_of "x1")) no_rows.tokens ≡ none
unfolding first
fresh = refl

authenticate-create_example :
    (let (made, after) = create hash "k1" "x1" 5 ann " ci " "read" (some (pos 30)) no_rows in
      (row : ApiToken) × ((authenticate hash made.secret 99 after).0 ≡ some row)
      × (row.id ≡ "k1")
      × (row.admin_user_id ≡ ann.id)
      × (row.tenant_id ≡ ann.tenant_id)
      × (row.scope ≡ (if "read" == "read" then "read" else "full")))
authenticate-create_example =
    authenticate-create hash "k1" "x1" 5 99 ann " ci " "read" (some (pos 30)) no_rows fresh refl

abbrev key : ApiToken
key = record {
  id = "k1";
  tenant_id = "t1";
  admin_user_id = "a1";
  name = "ci";
  scope = "read";
  prefix = "tetra_x1";
  token_hash = hash "tetra_x1";
  last_used_at = none;
  expires_at = none;
  revoked = false;
}

abbrev held : Db
held = record no_rows { tokens = key ∷ [] }

makes : (create hash "k1" "x1" 5 ann " ci " "read" (some (pos 0)) no_rows).1 ≡ held
unfolding tokens
makes = refl

is_held : first (by_hash hash "tetra_x1") held.tokens ≡ some key
unfolding tokens
is_held = refl

revokes : (revoke hash ann key.id held).0 ≡ true
unfolding tokens
revokes = refl

abbrev calls : List Request
calls = authenticate_one "tetra_x1" 7 ∷ create_one "k2" "x1" 8 ann "again" "full" none ∷ []

authenticate-revoke_example :
    (authenticate hash "tetra_x1" 9 (run hash calls (revoke hash ann key.id held).1)).0 ≡ none
authenticate-revoke_example =
    authenticate-revoke hash "tetra_x1" ann key calls 9 held is_held revokes
