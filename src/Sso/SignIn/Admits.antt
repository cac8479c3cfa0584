-- ===== src/Sso/SignIn/Admits.antt =====
-- Whom a sign-in lets in.
use tetra_host.Prelude.{
  String, ◌≡◌, ◌≢◌, ap, sym, ◌∙◌, if◌then◌else◌, err, refl, Bool, true, false, not, ◌&&◌, ◌==◌,
  Option, none, some, [], ◌∷◌, ◌++◌, ok, >>-after, >>=-after, inl, inr, ◌⊎◌, arith, Bool-cases,
  eq_iff, first, first_holds, carry_ok,
}
use tetra_host.Prelude.Text.{has_char}
use mathlib.Core.Path.{subst}
use tetra_host.Prelude.Normal.{lower-strip_again}
use tetra_host.Prelude.Dict.{Dict}
use tetra_host.Deploys.Env.{decrypt}
use tetra_host.Models.{Db, Tenant, TenantSsoConfig, AdminUser, is_active_status}
use tetra_host.Team.{normalize_email, get_admin_by_email}
use tetra_host.Sso.{
  SsoError, deactivated, require, get_config, allowed_domain_list, no_code, redirect_mismatch,
  not_enabled, inactive_workspace, no_token, no_profile, key_error, rejected, no_email,
  unverified_email, foreign_domain,
}
use tetra_host.Sso.SignIn.{
  Provider, Discovery, Profile, discover, StateRead, signed_for, expired, forged, read_signed, the,
  is_refuted, is_domain_allowed, admit, provision, new_member, profile_of, sign_in, handle_callback,
}

-- The account has the address, is of the tenant and is active; and it is the account on record under
-- that address, with no row changed, or there is none and it is added, with the role of the settings.
abbrev pub Admitted : Tenant → TenantSsoConfig → String → AdminUser → Db → Db → Type 0
Admitted tenant config email admin before after =
    (admin.email ≡ email)
    × (admin.tenant_id ≡ tenant.id)
    × (admin.is_active ≡ true)
    × (((first (λ a. a.email == email) before.admins ≡ some admin) × (after ≡ before))
        ⊎ ((first (λ a. a.email == email) before.admins ≡ none)
            × (admin.role ≡ config.default_role)
            × (after.admins ≡ before.admins ++ (admin ∷ []))))

module _ (p : Provider) (id : String) where
  pick_ok :
      {A : Type 0} (b : Bool) {a : A} → b ≡ true → (if not b then err deactivated else ok a) ≡ ok a
  pick_ok true on = refl
  pick_ok false on = cc

  admit-Admitted :
      (tenant : Tenant) (config : TenantSsoConfig) (email name : String) (found : Option AdminUser)
      (db : Db) {admin : AdminUser} {after : Db}
      → first (λ a. a.email == email) db.admins ≡ found
      → admit p id tenant config email name found db ≡ ok (admin, after)
      → Admitted tenant config email admin db after
  unfolding admit new_member
  admit-Admitted tenant config email name none db absent done =
      carry_ok (λ out. Admitted tenant config email out.0 db out.1) done
        (refl, refl, refl, inr (absent, refl, refl))
  admit-Admitted tenant config email name (some existing) db {admin} {after} here done =
      elim (Bool-cases (existing.tenant_id == tenant.id)) [
        | inr foreign ↦ let never = rw foreign at done in cc
        | inl own ↦ elim (Bool-cases existing.is_active) [
          | inr off ↦ let never = rw (own, off) at done in cc
          | inl on ↦
              let returned : ok (existing, db) ≡ ok (admin, after) =
                sym (pick_ok existing.is_active on) ∙ (rw own at done) in
              carry_ok (λ out. Admitted tenant config email out.0 db out.1) returned
                (
                  (eq_iff existing.email email).0
                      (first_holds (λ a. a.email == email) db.admins here),
                  (eq_iff existing.tenant_id tenant.id).0 own,
                  on,
                  inl (here, refl),
                )
        ]
      ]

  read_signed-ok : (s : StateRead) {t r : String} → read_signed s ≡ ok (t, r) → s ≡ signed_for t r
  unfolding read_signed
  read_signed-ok expired e = cc
  read_signed-ok forged e = cc
  read_signed-ok (signed_for t r) e = ground arith

  the-ok {ℓ} : {A : Type ℓ} (e : SsoError) (o : Option A) {a : A} → the e o ≡ ok a → o ≡ some a
  unfolding the
  the-ok e none h = cc
  the-ok e (some x) h = carry_ok (λ y. some x ≡ some y) h refl

  require-ok : (b : Bool) (e : SsoError) → require b e ≡ ok tt → b ≡ true
  require-ok true e h = refl
  require-ok false e h = cc

  same_state :
      {s : StateRead} (payload : String × String) {t r : String}
      → s ≡ signed_for payload.0 payload.1
      → t ≡ payload.0
      → payload.1 ≡ r
      → s ≡ signed_for t r
  same_state (a, b) e same_t same_r = cc

  -- the profile that the provider gave for some token, with its address normalised
  abbrev pub Vouched : String → Type 0
  Vouched email =
      (url : String) × (token : String) × (profile : Profile) × (p.userinfo url token
        ≡ some profile)
      × (email ≡ normalize_email profile.email)
      × (is_refuted profile.email_verified ≡ false)

  profile_of-userinfo :
      (config : TenantSsoConfig) (code redirect_uri : String) (cache : Dict Discovery)
      {profile : Profile} {kept : Dict Discovery}
      → profile_of p id config code redirect_uri cache ≡ ok (profile, kept)
      → (url : String) × (token : String) × (p.userinfo url token ≡ some profile)
  unfolding profile_of
  profile_of-userinfo config code redirect_uri cache {profile} done =
      >>=-after (discover p config.issuer cache) _ done (λ found _ done₁.
        >>=-after (the key_error found.0.token_endpoint) _ done₁ (λ token_url _ done₂.
          >>=-after
            (the rejected (
              p.exchange token_url code redirect_uri config.client_id
                (decrypt p.box config.client_secret_enc)))
            _ done₂
            (λ token _ done₃. >>-after (require (not (token == "")) no_token) _ done₃ (λ _ done₄.
              >>=-after (the key_error found.0.userinfo_endpoint) _ done₄ (λ url _ done₅.
                >>=-after (the no_profile (p.userinfo url token)) _ done₅ (λ given told done₆. (
                  url,
                  token,
                  carry_ok (λ out. p.userinfo url token ≡ some out.0) done₆
                      (the-ok no_profile (p.userinfo url token) told),
                )))))))

  provision-Admitted :
      (tenant : Tenant) (config : TenantSsoConfig) (given name : String) (db : Db)
      {admin : AdminUser} {after : Db}
      → provision p id tenant config (normalize_email given) name db ≡ ok (admin, after)
      → Admitted tenant config (normalize_email given) admin db after
  unfolding provision get_admin_by_email normalize_email
  provision-Admitted tenant config given name db done =
      let email = normalize_email given in
      admit-Admitted tenant config email name (get_admin_by_email email db) db
        (ap (λ e. first (λ a. a.email == e) db.admins) (sym (lower-strip_again given))) done

  -- the address of the account: the provider vouches for it, and its domain is allowed
  abbrev pub Entitled : TenantSsoConfig → String → Type 0
  Entitled config email =
      Vouched email
      × (email ≢ "")
      × (has_char 64 email ≡ true)
      × (is_domain_allowed (allowed_domain_list config) email ≡ true)

  sign_in-Admitted :
      (tenant : Tenant) (config : TenantSsoConfig) (code redirect_uri : String)
      (cache : Dict Discovery) (db : Db) {admin : AdminUser} {after : Db} {kept : Dict Discovery}
      → sign_in p id tenant config code redirect_uri cache db ≡ ok (admin, after, kept)
      → Entitled config admin.email × Admitted tenant config admin.email admin db after
  unfolding sign_in
  sign_in-Admitted tenant config code redirect_uri cache db {admin} {after} done =
      >>=-after (profile_of p id config code redirect_uri cache) _ done (λ answer asked done₁.
        let email = normalize_email answer.0.email in
        >>-after (require (not (email == "") && has_char 64 email) no_email) _ done₁
          (λ formed done₂.
            >>-after (require (not (is_refuted answer.0.email_verified)) unverified_email) _ done₂
              (λ verified done₃.
                >>-after
                  (require (is_domain_allowed (allowed_domain_list config) email) foreign_domain) _
                  done₃
                  (λ allowed done₄.
                    >>=-after (provision p id tenant config email answer.0.name db) _ done₄
                      (λ admitted let_in done₅.
                        let (url, token, told) =
                          profile_of-userinfo config code redirect_uri cache asked in
                        let well_formed = require-ok _ _ formed in
                        let not_empty = eq_iff email "" in
                        let row : Admitted tenant config email admin db after =
                          carry_ok (λ out. Admitted tenant config email out.0 db out.1) done₅
                            (provision-Admitted tenant config answer.0.email answer.0.name db
                              let_in) in
                        subst (λ e. Entitled config e × Admitted tenant config e admin db after)
                          (sym row.0)
                          (
                            (
                              (
                                url,
                                token,
                                answer.0,
                                told,
                                refl,
                                let not_refuted = require-ok _ _ verified in ground arith,
                              ),
                              λ empty. ground arith,
                              ground arith,
                              require-ok _ _ allowed,
                            ),
                            row,
                          ))))))

  -- A sign-in that returns an account came with a state that was signed for its redirect_uri, and for
  -- a tenant that is active and has single sign-on enabled. The address of the account is that of a
  -- profile, normalised, which the provider gave and did not call unverified, and its domain is one
  -- that the tenant allows. The account is that tenant's and active, and it either is the one on
  -- record under that address, with no row changed, or there was none, and it is added with the role
  -- of the tenant's settings.
  pub handle_callback-Admitted :
      (code state redirect_uri : String) (cache : Dict Discovery) (db : Db) {admin : AdminUser}
      {after : Db} {kept : Dict Discovery}
      → handle_callback p id code state redirect_uri cache db ≡ ok (admin, after, kept)
      → (tenant : Tenant) × (config : TenantSsoConfig) × (p.read_state state
          ≡ signed_for tenant.id redirect_uri)
        × (is_active_status tenant.status ≡ true)
        × (get_config tenant.id db ≡ some config)
        × (config.enabled ≡ true)
        × Entitled config admin.email
        × Admitted tenant config admin.email admin db after
  unfolding handle_callback
  handle_callback-Admitted code state redirect_uri cache db done =
      >>-after (require (not (code == "") && not (state == "")) no_code) _ done (λ _ done₁.
        >>=-after (read_signed (p.read_state state)) _ done₁ (λ payload read done₂.
          >>-after (require (payload.1 == redirect_uri) redirect_mismatch) _ done₂ (λ same done₃.
            >>=-after (the not_enabled (get_config payload.0 db)) _ done₃
              (λ config has_config done₄.
                >>-after (require config.enabled not_enabled) _ done₄ (λ on done₅.
                  >>=-after (the inactive_workspace (first (λ t. t.id == payload.0) db.tenants)) _
                    done₅
                    (λ tenant has_tenant done₆.
                      >>-after (require (is_active_status tenant.status) inactive_workspace) _ done₆
                        (λ active done₇.
                          let (entitled, admitted) =
                            sign_in-Admitted tenant config code redirect_uri cache db done₇ in
                          let same_id : tenant.id ≡ payload.0 = (eq_iff tenant.id payload.0).0 (
                            first_holds (λ t. t.id == payload.0) db.tenants
                              (the-ok inactive_workspace _ has_tenant)) in
                          (
                            tenant,
                            config,
                            same_state payload (read_signed-ok (p.read_state state) read) same_id
                                ((eq_iff payload.1 redirect_uri).0 (require-ok _ _ same)),
                            require-ok _ _ active,
                            rw same_id (the-ok not_enabled (get_config payload.0 db) has_config),
                            require-ok _ _ on,
                            entitled,
                            admitted,
                          ))))))))
