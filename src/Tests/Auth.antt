-- ===== src/Tests/Auth.antt =====
-- Two-factor logins and profiles.
use tetra_host.Prelude.{
  ℕ, String, true, false, ◌≡◌, ◌≤◌, ◌==◌, refl, Option, none, some, List, [], ◌∷◌, ok, arith, count,
  first, select, update, ap, ◌∙◌, eqb, if◌then◌else◌,
}
use tetra_host.Prelude.Text
use tetra_host.Prelude.Text.{strip, lower, contains, has_char, decimal}
use Prim.Native.String.{◌++◌}
use tetra_host.Models.{Db, AdminUser, no_rows, role_owner}
use tetra_host.Team.{normalize_email, get_admin_by_email}
use tetra_host.Auth.Totp.{hotp, verify, normalize_code, hash_backup_code}
use tetra_host.Auth.{
  consume_backup_code, verify_totp_login, remove, save, text_of, update_profile, touch_last_login,
}
use tetra_host.Auth.Calls.{
  AuthCall, touch_call, login_call, profile_call, run, act, act_found, get_admin_by_id,
}
use Prim.Native.Char.{Char, char, code}
use tetra_host.Auth.BackupCodes.{verify_totp_login-single_use}
use tetra_host.Auth.Profile.{update_profile-emails}

-- The bytes of a digest, the first one that of the counter.
abbrev hmac : String → ℕ → List ℕ
hmac secret counter =
    counter ∷ 1 ∷ 2 ∷ 3 ∷ 4 ∷ 5 ∷ 6 ∷ 7 ∷ 8 ∷ 9 ∷ 10 ∷ 11 ∷ 12 ∷ 13 ∷ 14 ∷ 15 ∷ 16 ∷ 17 ∷ 18 ∷ 0
    ∷ []

abbrev sha256 : String → String
sha256 s = "h:" ++ s

-- Texts as a list in one text: each character of an element behind a `+`, and `,` behind each
-- element.
put : String → String → String
put String.[] rest = String.◌∷◌ (char 44 tt) (String.◌∷◌ (char 44 tt) rest)
put (String.◌∷◌ c s) rest = String.◌∷◌ (char 43 tt) (String.◌∷◌ c (put s rest))

dumped : List String → String
unfolding put
dumped [] = ""
dumped (x ∷ xs) = put x (dumped xs)

unfoldable dumps : List String → String
unfolding dumped
dumps xs = String.◌∷◌ (char 91 tt) (dumped xs)

onto : Char → List String → List String
onto c [] = []
onto c (x ∷ xs) = String.◌∷◌ c x ∷ xs

taken : String → List String
unfolding onto
taken String.[] = []
taken (String.◌∷◌ mark String.[]) = []
taken (String.◌∷◌ mark (String.◌∷◌ c s)) =
    let rest = taken s in if eqb (code mark) 44 then "" ∷ rest else onto c rest

unfoldable loads : String → Option (List String)
unfolding taken
loads String.[] = none
loads (String.◌∷◌ mark s) = some (taken s)

taken-put : (x rest : String) → taken (put x rest) ≡ x ∷ taken rest
unfolding taken put onto
taken-put String.[] rest = refl
taken-put (String.◌∷◌ c s) rest = rw (taken-put s rest) refl

taken-dumped : (xs : List String) → taken (dumped xs) ≡ xs
unfolding dumped taken
taken-dumped [] = refl
taken-dumped (x ∷ xs) = taken-put x (dumped xs) ∙ ap (λ rest. x ∷ rest) (taken-dumped xs)

reads_back : (xs : List String) → loads (dumps xs) ≡ some xs
unfolding loads dumps
reads_back xs = ap some (taken-dumped xs)

auth : Unit {0}
unfolding count first select update strip lower contains has_char decimal Text.length
    normalize_email get_admin_by_email hotp verify normalize_code hash_backup_code
    consume_backup_code verify_totp_login remove save update_profile run act act_found
    get_admin_by_id touch_last_login dumps loads
auth = tt

-- 2 * 2 ^ 24 + 66051, of which the last six digits are read
reads : hotp hmac "S" 2 ≡ "620483"
unfolding auth
reads = refl

-- A code is good in its own half minute and in the ones beside it.
windows :
    (verify hmac "S" "620 483" 60 ≡ true)
    × (verify hmac "S" "620483" 119 ≡ true)
    × (verify hmac "S" "620483" 120 ≡ false)
unfolding auth
windows = (refl, refl, refl)

abbrev ann : AdminUser
ann = record {
  id = "a1";
  tenant_id = "t1";
  email = "ann@acme.test";
  full_name = "Ann";
  password_hash = "";
  is_active = true;
  role = role_owner;
  last_login_at = none;
  totp_secret = some "S";
  totp_enabled = true;
  totp_backup_codes = some (dumps ("h:00000-11111" ∷ "h:22222-33333" ∷ []));
}

abbrev db : Db
db = record no_rows { admins = ann ∷ [] }

stored : loads (text_of ann.totp_backup_codes) ≡ some ("h:00000-11111" ∷ "h:22222-33333" ∷ [])
stored = reads_back _

once :
    count (λ x. x == hash_backup_code sha256 "00000-11111") ("h:00000-11111" ∷ "h:22222-33333" ∷ [])
    ≤ 1
unfolding auth
once = omega arith

abbrev calls : List (String × AuthCall)
calls =
    ("a1", touch_call 70)
    ∷ ("a1", login_call "22222-33333" 80)
    ∷ ("a1", profile_call "Ann B" "b@acme.test")
    ∷ []

abbrev ann_later : AdminUser
ann_later = record ann {
  full_name = "Ann B";
  email = "b@acme.test";
  last_login_at = some 70;
  totp_backup_codes = some (dumps []);
}

verify_totp_login-single_use_example :
    (let db₁ = (verify_totp_login hmac sha256 dumps loads 60 ann "00000-11111" db).2 in
      let db₂ = run hmac sha256 dumps loads (λ _ _. true) (λ p. p) (λ _ _. true) calls db₁ in
      (verify_totp_login hmac sha256 dumps loads 90 ann_later " 00000-11111 " db₂).0 ≡ false)
verify_totp_login-single_use_example =
    verify_totp_login-single_use hmac sha256 dumps loads (λ _ _. true) (λ p. p) (λ _ _. true) 60 90
      "a1" ann ann_later "00000-11111" " 00000-11111 " ("h:00000-11111" ∷ "h:22222-33333" ∷ [])
      calls db reads_back (unfold auth in refl) stored once (unfold auth in refl)
      (unfold auth in refl) (unfold auth in refl) (unfold auth in refl) (unfold auth in refl)

abbrev renamed : AdminUser
renamed = record ann { full_name = "Ann B"; email = "b@acme.test" }

renames :
    update_profile (λ _ _. true) ann " Ann B" "B@acme.test" db
    ≡ ok (renamed, record no_rows { admins = renamed ∷ [] })
unfolding auth
renames = refl

on_record : first (λ a. a.id == ann.id) db.admins ≡ some ann
unfolding auth
on_record = refl

keyed : (id : String) → count (λ x. x.id == id) db.admins ≤ 1
unfolding auth
keyed id = ground arith

addressed : (e : String) → count (λ x. x.email == e) db.admins ≤ 1
unfolding auth
addressed e = ground arith

update_profile-emails_example : count (λ x. x.email == "b@acme.test") (renamed ∷ []) ≤ 1
update_profile-emails_example =
    update_profile-emails (λ _ _. true) ann " Ann B" "B@acme.test" db on_record keyed addressed
      renames "b@acme.test"
