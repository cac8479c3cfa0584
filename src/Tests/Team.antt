-- ===== src/Tests/Team.antt =====
-- A team of an owner and a member, and its invitations.
use tetra_host.Prelude.{
  String, true, false, ◌≡◌, ◌≤◌, ◌<◌, ◌==◌, ◌||◌, refl, none, some, List, [], ◌∷◌, ok, err, arith,
  eq_iff, count, first, update, select,
}
use tetra_host.Prelude.Text
use tetra_host.Prelude.Text.{strip, lower, contains, has_char, is_space}
use Prim.Native.String.{◌++◌}
use tetra_host.Models.{
  Db, AdminUser, TenantInvite, no_rows, is_pending, is_redeemable, is_unexpired, default_expiry,
  role_owner, role_member,
}
use tetra_host.Team.{
  active_owner_count, is_pending_for, create_invite, accept_invite, peek_invite, change_role,
  remove_member, member_in_tenant, invalid_invite, normalize_email, get_admin_by_email,
  validate_password, invitee, new_invite,
}
use tetra_host.Team.Calls.{Request, invite, accept, change, remove, run, step}
use tetra_host.Team.Owners.{IsKeyed, run-KeepsOwner}
use tetra_host.Team.Roles.{is_privileged, run-Unraised}
use tetra_host.Team.Invites.{accept_invite-single_use, accept_invite-create_invite}
use tetra_host.Team.Pending.{run-OnePending}

abbrev hash : String → String
hash s = "sha256:" ++ s

abbrev account : String → String → String → AdminUser
account id email role = record {
  id = id;
  tenant_id = "t1";
  email = email;
  full_name = "";
  password_hash = "";
  is_active = true;
  role = role;
  last_login_at = none;
  totp_secret = none;
  totp_enabled = false;
  totp_backup_codes = none;
}

abbrev ann : AdminUser
ann = account "a1" "ann@acme.test" role_owner

abbrev bob : AdminUser
bob = account "a2" "bob@acme.test" role_member

abbrev start : Db
start = record no_rows { admins = ann ∷ bob ∷ [] }

team : Unit {0}
unfolding first select count update strip lower contains has_char Text.length is_pending
    is_redeemable is_unexpired default_expiry active_owner_count create_invite accept_invite
    peek_invite change_role remove_member member_in_tenant normalize_email get_admin_by_email
    validate_password run step
team = tt

abbrev calls : List Request
calls =
    change "t1" "a1" "member"
    ∷ remove "t1" "a1" bob
    ∷ invite "i1" "tok" 5 "t1" ann "  Cy@Acme.test " "Admin"
    ∷ invite "i2" "tok2" 6 "t1" ann "cy@acme.test" "member"
    ∷ accept "a3" 7 "tok" "Cy" "0123456789"
    ∷ accept "a3" 8 "tok2" "Cy" "0123456789"
    ∷ remove "t1" "a2" ann
    ∷ []

-- Neither call against the only owner has an effect, the first invitation was revoked by the
-- second, and the member is gone.
ends :
    (count (λ a. a.is_active) (run hash hash calls start).admins ≡ 2)
    × (active_owner_count "t1" (run hash hash calls start) ≡ 1)
unfolding team
ends = (refl, refl)

start-IsKeyed : IsKeyed start
unfolding count select
start-IsKeyed = record {
  unique = λ id. ground (arith, eq_iff "a1" id, eq_iff "a2" id, eq_iff "a1" "a2");
}

owned : 1 ≤ active_owner_count "t1" start
unfolding team
owned = omega arith

run-KeepsOwner_example : 1 ≤ active_owner_count "t1" (run hash hash calls start)
run-KeepsOwner_example = run-KeepsOwner hash hash "t1" calls start start-IsKeyed owned

run-Unraised_example :
    count (is_privileged "a2") (run hash hash calls start).admins
    ≤ count (is_privileged "a2") start.admins
run-Unraised_example = run-Unraised hash hash "a2" calls start tt

one_at_most : count (is_pending_for "t1" "cy@acme.test") start.invites ≤ 1
unfolding team
one_at_most = omega arith

run-OnePending_example :
    count (is_pending_for "t1" "cy@acme.test") (run hash hash calls start).invites ≤ 1
run-OnePending_example = run-OnePending hash hash "t1" "cy@acme.test" calls start one_at_most

abbrev cys : TenantInvite
cys = new_invite hash "i1" "t1" "cy@acme.test" "admin" "tok" "a1" 5

abbrev asked : Db
asked = record start { invites = cys ∷ [] }

creates :
    create_invite hash "i1" "tok" 5 "t1" ann "  Cy@Acme.test " "Admin" start
    ≡ ok (cys, "tok", asked)
unfolding team
creates = refl

abbrev cy : AdminUser
cy = invitee hash hash "a3" cys "Cy" "0123456789"

abbrev joined : Db
joined = record asked {
  admins = ann ∷ bob ∷ cy ∷ [];
  invites =
      record cys {
        status = tetra_host.Models.accepted;
        accepted_admin_id = some "a3";
        accepted_at = some 7;
      }
      ∷ [];
}

accepts : accept_invite hash hash "a3" 7 "tok" "Cy" "0123456789" asked ≡ ok (cy, joined)
unfolding team
accepts = refl

accept_invite-single_use_example :
    accept_invite hash hash "a4" 9 "tok" "Di" "9876543210" (run hash hash calls joined)
    ≡ err (invalid_invite hash)
accept_invite-single_use_example =
    accept_invite-single_use hash hash "a3" 7 "tok" "Cy" "0123456789" asked calls "a4" 9 "Di"
      "9876543210" accepts

young : 7 < default_expiry 5
unfolding default_expiry
young = omega arith

no_account : get_admin_by_email (normalize_email "  Cy@Acme.test ") start ≡ none
unfolding team
no_account = refl

no_clash :
    first (λ a. a.id == "a3" || a.email == normalize_email "  Cy@Acme.test ") start.admins ≡ none
unfolding team
no_clash = refl

long_enough : 10 ≤ Text.length "0123456789"
unfolding team
long_enough = omega arith

unknown_token : first (λ i. i.token_hash == hash "tok") start.invites ≡ none
unfolding team
unknown_token = refl

accept_invite-create_invite_example :
    (admin : AdminUser) × (last : Db) × (accept_invite hash hash "a3" 7 "tok" "Cy" "0123456789"
        asked
      ≡ ok (admin, last))
    × (admin.tenant_id ≡ "t1")
    × (admin.email ≡ normalize_email "  Cy@Acme.test ")
    × (admin.role ≡ lower (strip "Admin"))
    × (admin.is_active ≡ true)
accept_invite-create_invite_example =
    accept_invite-create_invite hash hash "i1" "tok" 5 "t1" ann "  Cy@Acme.test " "Admin" start "a3"
      7 "Cy" "0123456789" creates unknown_token young no_account no_clash long_enough
