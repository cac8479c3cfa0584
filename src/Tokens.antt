-- ===== src/Tokens.antt =====
-- app/services/api_tokens.py: the personal API tokens. The hash is a parameter, the random part of
-- a secret an argument of `create`.
pub mod Lifecycle
use tetra_host.Prelude.{
  ℕ, String, Bool, true, false, not, ◌&&◌, ◌||◌, ◌+◌, ◌*◌, ◌==◌, Option, none, some, List, ltb,
  if◌then◌else◌, first, insert, select, update, newest_first,
}
use tetra_host.Prelude.Int.{ℤ, pos, negsuc, pos_part, ltb_ℤ}
use tetra_host.Prelude.Text.{strip, take_chars}
use Prim.Native.String.{◌++◌}
use text.Mathlib.Text.{starts_with}
use tetra_host.Models.{Db, AdminUser, ApiToken, microseconds_per_day}

abbrev pub token_prefix : String
token_prefix = "tetra_"

abbrev pub display_prefix_len : ℕ
display_prefix_len = 14

unfoldable pub looks_like_personal_token : String → Bool
looks_like_personal_token token = starts_with token_prefix token

abbrev pub secret_of : String → String
secret_of random = token_prefix ++ random

-- CreatedToken
pub record CreatedToken : Type 0 where
  pub row : ApiToken
  pub secret : String

-- `if expires_in_days and expires_in_days > 0`
abbrev pub expiry_after : Option ℤ → ℕ → Option ℕ
expiry_after none now = none
expiry_after (some days) now =
    if ltb_ℤ (pos 0) days then some (now + pos_part days * microseconds_per_day) else none

module _ (hash_token : String → String) where
  unfoldable pub create :
      String → String → ℕ → AdminUser → String → String → Option ℤ → Db → CreatedToken × Db
  create id random now admin name scope expires_in_days db =
      let secret = secret_of random in
      let short = take_chars 120 (strip name) in
      let row : ApiToken = record {
        id = id;
        tenant_id = admin.tenant_id;
        admin_user_id = admin.id;
        name = if short == "" then "token" else short;
        scope = if scope == "read" then "read" else "full";
        prefix = take_chars display_prefix_len secret;
        token_hash = hash_token secret;
        last_used_at = none;
        expires_at = expiry_after expires_in_days now;
        revoked = false;
      } in
      (record { row = row; secret = secret }, record db { tokens = insert row db.tokens })

  unfoldable pub list_for_admin : AdminUser → Db → List ApiToken
  list_for_admin admin db =
      newest_first (select (λ r. r.admin_user_id == admin.id && not r.revoked) db.tokens)

  abbrev pub set_revoked : ApiToken → ApiToken
  set_revoked row = record row { revoked = true }

  -- what `session.get` gave
  revoke_found : AdminUser → Option ApiToken → Db → Bool × Db
  revoke_found admin none db = (false, db)
  revoke_found admin (some row) db =
      if not (row.admin_user_id == admin.id) || row.revoked
      then (false, db)
      else (true, record db { tokens = update (λ r. r.id == row.id) set_revoked db.tokens })

  unfoldable pub revoke : AdminUser → String → Db → Bool × Db
  unfolding revoke_found
  revoke admin token_id db = revoke_found admin (first (λ r. r.id == token_id) db.tokens) db

  -- `expires_at < utc_now()`
  abbrev pub is_expired : Option ℕ → ℕ → Bool
  is_expired none now = false
  is_expired (some t) now = ltb t now

  abbrev pub set_used : ℕ → ApiToken → ApiToken
  set_used now row = record row { last_used_at = some now }

  -- what the lookup by hash gave
  authenticate_found : ℕ → Option ApiToken → Db → Option ApiToken × Db
  authenticate_found now none db = (none, db)
  authenticate_found now (some row) db =
      if row.revoked || is_expired row.expires_at now then (none, db) else (
        some (set_used now row),
        record db { tokens = update (λ r. r.id == row.id) (set_used now) db.tokens },
      )

  unfoldable pub authenticate : String → ℕ → Db → Option ApiToken × Db
  unfolding authenticate_found
  authenticate token now db =
      authenticate_found now (first (λ r. r.token_hash == hash_token token) db.tokens) db
