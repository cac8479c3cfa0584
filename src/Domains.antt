-- ===== src/Domains.antt =====
-- app/modules/domains/service.py: the hostnames that tenants claim for their apps. What DNS answers,
-- the random token and what Cloudflare answers are arguments. A call of Cloudflare gives the id of
-- the hostname it registered, or nothing where it raised, which the service passes over.
pub mod Calls
pub mod Claims
pub mod Serving
use tetra_host.Prelude.{
  ℕ, suc, String, Bool, true, false, not, ◌&&◌, ◌||◌, ◌==◌, Option, none, some, List, [], ◌∷◌, map,
  Result, ok, err, ◌>>=◌, ◌>>◌, leb, eqb, if◌then◌else◌, first, insert, select, update, delete,
  newest_first,
}
use tetra_host.Prelude.Text
use tetra_host.Prelude.Text.{strip, lower, rstrip_char, contains, ends_with}
use Prim.Native.Char.{Char, code}
use Prim.Native.String
use Prim.Native.String.{◌++◌}
use tetra_host.Models.{
  Db, Domain, DomainStatus, TenantResource, is_verified, provider_docker, resource_type_app,
}
use tetra_host.Access.{tenant_key}

pub record Settings : Type 0 where
  pub apps_base_domain : String
  pub cloudflare_saas_zone_id : String
  -- whether the service was given a client of Cloudflare
  pub has_cloudflare : Bool

-- the calls that raise, with the status codes of `DockerEngineError`
pub data DomainError : Type 0 where
  invalid_name assigned_automatically app_not_assigned already_claimed : DomainError
  domain_not_found txt_not_found : DomainError

pub data CharKind : Type 0 where
  dot dash letter digit newline other_char : CharKind

kind_of : Char → CharKind
kind_of c =
    if eqb (code c) 46
    then dot
    else if eqb (code c) 45
    then dash
    else if leb 97 (code c) && leb (code c) 122
    then letter
    else if leb 48 (code c) && leb (code c) 57
    then digit
    else if eqb (code c) 10
    then newline
    else other_char

-- The rest of a name, in a label of `n` characters so far, whose last one is a dash or not, and
-- which holds letters only or not, after `dots` labels. The pattern's `$` lets a last newline pass.
unfoldable pub matches_labels : ℕ → Bool → Bool → ℕ → String → Bool
unfolding kind_of
matches_labels n dashed alpha dots String.[] = leb 1 dots && leb 2 n && leb n 63 && alpha
matches_labels n dashed alpha dots (String.◌∷◌ c s) = elim (kind_of c) [
  | dot ↦ leb 1 n && leb n 63 && not dashed && matches_labels 0 false true (suc dots) s
  | dash ↦ leb 1 n && matches_labels (suc n) true false dots s
  | letter ↦ matches_labels (suc n) false alpha dots s
  | digit ↦ matches_labels (suc n) false false dots s
  | newline ↦ s == "" && leb 1 dots && leb 2 n && leb n 63 && alpha
  | other_char ↦ false
]

-- the length without a last newline, which the lookahead counts
unfoldable pub line_length : String → ℕ
unfolding kind_of
line_length String.[] = 0
line_length (String.◌∷◌ c s) = elim (kind_of c) [ newline ↦ 0 | _ ↦ suc (line_length s) ]

-- _HOSTNAME.match
unfoldable pub is_hostname : String → Bool
is_hostname host =
    leb 4 (line_length host) && leb (line_length host) 253 && matches_labels 0 false true 0 host

-- (hostname or "").strip().lower().rstrip(".")
abbrev pub trimmed : String → String
trimmed hostname = rstrip_char 46 (lower (strip hostname))

unfoldable pub normalize_hostname : Settings → String → Result DomainError String
normalize_hostname cfg hostname =
    let host = trimmed hostname in
    let base = cfg.apps_base_domain in
    if not (is_hostname host)
    then err invalid_name
    else if not (base == "") && (host == base || ends_with host ("." ++ base))
    then err assigned_automatically
    else ok host

abbrev pub require : Bool → DomainError → Result DomainError (Unit {0})
require true e = ok tt
require false e = err e

abbrev pub is_there {ℓ} : {A : Type ℓ} → Option A → Bool
is_there none = false
is_there (some _) = true

unfoldable pub is_app_owned : Option String → String → Db → Bool
is_app_owned tenant_id project db = is_there (
    first
      (λ r.
        r.tenant_id == tenant_key tenant_id
        && r.provider == provider_docker
        && r.resource_type == resource_type_app
        && r.external_id == project)
      db.resources)

unfoldable pub add_for_tenant :
    Settings
    → String
    → String
    → Option String
    → String
    → String
    → Db
    → Result DomainError (Domain × Db)
add_for_tenant cfg id token tenant_id project hostname db = do
  host ← normalize_hostname cfg hostname
  require (is_app_owned tenant_id project db) app_not_assigned
  require (not (is_there (first (λ d. d.hostname == host) db.domains))) already_claimed
  let domain : Domain = record {
    id = id;
    tenant_id = tenant_key tenant_id;
    project = project;
    hostname = host;
    status = DomainStatus.pending;
    token = token;
    cf_hostname_id = "";
  }
  ok (domain, record db { domains = insert domain db.domains })

unfoldable pub list_for_tenant : Option String → Option String → Db → List Domain
list_for_tenant tenant_id project db = newest_first (
    select
      (λ d.
        d.tenant_id == tenant_key tenant_id
        && (tenant_key project == "" || d.project == tenant_key project))
      db.domains)

own : Option String → Option Domain → Option Domain
own tenant_id none = none
own tenant_id (some d) = if d.tenant_id == tenant_key tenant_id then some d else none

unfoldable pub get_for_tenant : Option String → String → Db → Option Domain
unfolding own
get_for_tenant tenant_id domain_id db = own tenant_id (first (λ d. d.id == domain_id) db.domains)

abbrev pub challenge : String → String
challenge hostname = "_tetra-challenge." ++ hostname

-- the id that Cloudflare gave, where it was asked and did not raise
registered : Settings → Option String → Domain → String
registered cfg none d = d.cf_hostname_id
registered cfg (some id) d =
    if cfg.has_cloudflare && not (cfg.cloudflare_saas_zone_id == "") && d.cf_hostname_id == ""
    then id
    else d.cf_hostname_id

abbrev pub set_verified : String → Domain → Domain
set_verified cf_id d = record d { status = DomainStatus.verified; cf_hostname_id = cf_id }

module _ (cfg : Settings) (resolve : String → List String) (register : Option String) where
  verify_found : Option Domain → Db → Result DomainError (Domain × Db)
  unfolding registered
  verify_found none db = err domain_not_found
  verify_found (some d) db =
      if is_verified d.status
      then ok (d, db)
      else if not (contains (resolve (challenge d.hostname)) d.token)
      then err txt_not_found
      else (let cf_id = registered cfg register d in
          ok (
            set_verified cf_id d,
            record db { domains = update (λ x. x.id == d.id) (set_verified cf_id) db.domains },
          ))

  unfoldable pub verify_for_tenant : Option String → String → Db → Result DomainError (Domain × Db)
  unfolding verify_found
  verify_for_tenant tenant_id domain_id db = verify_found (get_for_tenant tenant_id domain_id db) db

delete_found : Option Domain → Db → Bool × Db
delete_found none db = (false, db)
delete_found (some d) db = (true, record db { domains = delete (λ x. x.id == d.id) db.domains })

-- Cloudflare is told, and what it answers is passed over.
unfoldable pub delete_for_tenant : Option String → String → Db → Bool × Db
unfolding delete_found
delete_for_tenant tenant_id domain_id db = delete_found (get_for_tenant tenant_id domain_id db) db

abbrev pub serves : String → Domain → Bool
serves host d = d.hostname == host && is_verified d.status

unfoldable pub is_hostname_verified : String → Db → Bool
is_hostname_verified hostname db =
    let host = trimmed hostname in
    if host == "" then false else is_there (first (serves host) db.domains)

unfoldable pub verified_hostnames_for_project : Option String → String → Db → List String
verified_hostnames_for_project tenant_id project db =
    map (λ d. d.hostname)
      (select
        (λ d. d.tenant_id == tenant_key tenant_id && d.project == project && is_verified d.status)
        db.domains)
