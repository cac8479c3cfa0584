-- ===== src/Oidc.antt =====
-- app/modules/oidc/service.py: the authorization-code flow over the cache. The random strings, the
-- instants and the signature of the id token are arguments; texts are compared as they are, which is
-- what `compare_digest` does to ASCII texts. What a handler wrote to the cache stays there when it
-- raises, so its cache comes back beside the error.
pub mod Keys
pub mod Exchange
pub mod SingleUse
use tetra_host.Prelude.{
  ℕ, String, Bool, true, false, not, ◌&&◌, ◌+◌, ◌==◌, Option, none, some, List, Result, ok, err,
  if◌then◌else◌,
}
use Prim.Native.String.{◌++◌}
use tetra_host.Prelude.Text.{contains, rstrip_char}
use tetra_host.Cache
use tetra_host.Cache.{TtlCache}

abbrev pub code_ttl : ℕ
code_ttl = 300

abbrev pub token_ttl : ℕ
token_ttl = 600

abbrev pub id_token_ttl : ℕ
id_token_ttl = 600

-- the fields of app/config.py that the service reads
pub record Settings : Type 0 where
  pub oidc_configured : Bool
  pub oidc_issuer : String
  pub oidc_client_id : String
  pub oidc_client_secret : String
  pub oidc_redirect_uris : List String

pub data OidcError : Type 0 where
  temporarily_unavailable unauthorized_client unregistered_redirect invalid_client : OidcError
  invalid_code other_client redirect_mismatch invalid_token : OidcError
  key_error : OidcError

pub record CodeEntry : Type 0 where
  pub mailbox : String
  pub name : String
  pub client_id : String
  pub redirect_uri : String
  pub scope : String
  pub nonce : Option String

pub record TokenEntry : Type 0 where
  pub mailbox : String
  pub name : String

-- What the shared cache holds: the dicts of the two kinds, and values of other services.
pub data Cached : Type 0 where
  code_entry : CodeEntry → Cached
  token_entry : TokenEntry → Cached
  other : Cached

pub record Claims : Type 0 where
  pub iss : String
  pub sub : String
  pub aud : String
  pub azp : String
  pub iat : ℕ
  pub auth_time : ℕ
  pub exp : ℕ
  pub email : String
  pub preferred_username : String
  pub name : String
  pub nonce : Option String

pub record TokenReply : Type 0 where
  pub access_token : String
  pub expires_in : ℕ
  pub id_token : String
  pub scope : String

pub record UserInfo : Type 0 where
  pub sub : String
  pub email : String
  pub preferred_username : String
  pub name : String

abbrev pub Store : Type 0
Store = TtlCache Cached

abbrev pub code_key : String → String
code_key code = "oidc:code:" ++ code

abbrev pub token_key : String → String
token_key token = "oidc:at:" ++ token

-- `s or fallback`
abbrev pub or_text : String → String → String
or_text s fallback = if s == "" then fallback else s

unfoldable pub validate_client_id : Settings → String → Result OidcError (Unit {0})
validate_client_id cfg client_id =
    if client_id == cfg.oidc_client_id then ok tt else err unauthorized_client

unfoldable pub validate_redirect_uri : Settings → String → Result OidcError (Unit {0})
validate_redirect_uri cfg uri =
    if contains cfg.oidc_redirect_uris uri then ok tt else err unregistered_redirect

-- validate_client_credentials, as the test that it makes
abbrev pub is_client : Settings → String → String → Bool
is_client cfg client_id client_secret =
    client_id == cfg.oidc_client_id && client_secret == cfg.oidc_client_secret

-- The session's selection is read and cleared.
unfoldable pub take_selected_mailbox :
    Option (String × String) → Option (String × String) × Option (String × String)
take_selected_mailbox selection = (selection, none)

-- `code` is the fresh random code.
unfoldable pub issue_code :
    Settings → String → CodeEntry → ℕ → Store → Result OidcError String × Store
issue_code cfg code entry now c =
    if cfg.oidc_configured
    then (ok code, Cache.set (code_key code) (code_entry entry) code_ttl now c)
    else (err temporarily_unavailable, c)

-- The registered issuer, without the slashes at its end.
unfoldable pub issuer : Settings → String
issuer cfg = rstrip_char 47 cfg.oidc_issuer

-- `if nonce:` keeps out an empty one
unfoldable pub nonce_claim : Option String → Option String
nonce_claim none = none
nonce_claim (some n) = if n == "" then none else some n

unfoldable pub build_claims : Settings → String → String → String → Option String → ℕ → Claims
unfolding nonce_claim
build_claims cfg mailbox name client_id nonce iat = record {
  iss = issuer cfg;
  sub = mailbox;
  aud = client_id;
  azp = client_id;
  iat = iat;
  auth_time = iat;
  exp = iat + id_token_ttl;
  email = mailbox;
  preferred_username = mailbox;
  name = or_text name mailbox;
  nonce = nonce_claim nonce;
}

module _ (sign : Claims → String) where
  -- the checks and the reply after the code was burnt; `fresh` is the random access token
  unfoldable pub redeem :
      Settings
      → String
      → String
      → String
      → ℕ
      → CodeEntry
      → Store
      → Result OidcError TokenReply × Store
  redeem cfg fresh client_id redirect_uri now e c =
      if not (e.client_id == client_id)
      then (err other_client, c)
      else if not (e.redirect_uri == redirect_uri)
      then (err redirect_mismatch, c)
      else (let name = or_text e.name e.mailbox in
          (
            ok (record {
              access_token = fresh;
              expires_in = token_ttl;
              id_token = sign (build_claims cfg e.mailbox name client_id e.nonce now);
              scope = or_text e.scope "openid";
            }),
            Cache.set (token_key fresh) (token_entry (record { mailbox = e.mailbox; name = name }))
                token_ttl now c,
          ))

  -- A value that is no code entry: other services' values fail `isinstance(entry, dict)`, and the
  -- dict of an access token has no "client_id", which raises once the code is burnt.
  unfoldable pub burn_and_redeem :
      Settings
      → String
      → String
      → String
      → String
      → ℕ
      → Option Cached
      → Store
      → Result OidcError TokenReply × Store
  burn_and_redeem cfg fresh code client_id redirect_uri now none c = (err invalid_code, c)
  burn_and_redeem cfg fresh code client_id redirect_uri now (some other) c = (err invalid_code, c)
  burn_and_redeem cfg fresh code client_id redirect_uri now (some (token_entry t)) c =
      (err key_error, Cache.delete (code_key code) c)
  burn_and_redeem cfg fresh code client_id redirect_uri now (some (code_entry e)) c =
      redeem cfg fresh client_id redirect_uri now e (Cache.delete (code_key code) c)

  unfoldable pub exchange_code :
      Settings
      → String
      → String
      → String
      → String
      → String
      → ℕ
      → Store
      → Result OidcError TokenReply × Store
  exchange_code cfg fresh code client_id client_secret redirect_uri now c =
      if not cfg.oidc_configured
      then (err temporarily_unavailable, c)
      else if not (is_client cfg client_id client_secret)
      then (err invalid_client, c)
      else (let (entry, c') = Cache.get (code_key code) now c in
          burn_and_redeem cfg fresh code client_id redirect_uri now entry c')

user_info : Option Cached → Result OidcError UserInfo
user_info none = err invalid_token
user_info (some other) = err invalid_token
user_info (some (code_entry e)) =
    let name = or_text (or_text e.name e.mailbox) e.mailbox in
    ok (record { sub = e.mailbox; email = e.mailbox; preferred_username = e.mailbox; name = name })
user_info (some (token_entry t)) =
    let name = or_text (or_text t.name t.mailbox) t.mailbox in
    ok (record { sub = t.mailbox; email = t.mailbox; preferred_username = t.mailbox; name = name })

unfoldable pub userinfo : Settings → String → ℕ → Store → Result OidcError UserInfo × Store
unfolding user_info
userinfo cfg access_token now c =
    if not cfg.oidc_configured
    then (err temporarily_unavailable, c)
    else (let (entry, c') = Cache.get (token_key access_token) now c in (user_info entry, c'))
