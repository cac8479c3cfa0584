-- ===== src/Csrf.antt =====
-- app/csrf.py: the backstop against cross-site requests. Headers that are absent are empty, and the
-- host of an `Origin`, which the library parses, is an argument.
use tetra_host.Prelude.{String, Bool, true, not, ◌||◌, ◌==◌, List, [], ◌∷◌, if◌then◌else◌}
use tetra_host.Prelude.Text.{lower, contains, starts_with_any, split_once}

pub record Request : Type 0 where
  pub method : String
  pub path : String
  pub authorization : String
  pub sec_fetch_site : String
  pub origin : String
  pub host : String

abbrev pub safe_methods : List String
safe_methods = "GET" ∷ "HEAD" ∷ "OPTIONS" ∷ "TRACE" ∷ []

abbrev pub exempt_prefixes : List String
exempt_prefixes = "/api/" ∷ "/graphql" ∷ "/oidc/token" ∷ []

abbrev pub safe_fetch_sites : List String
safe_fetch_sites = "same-origin" ∷ "same-site" ∷ "none" ∷ []

unfoldable pub is_exempt : Request → Bool
is_exempt r =
    contains safe_methods r.method
    || not (r.authorization == "")
    || starts_with_any exempt_prefixes r.path

lowered : List String → List String
lowered [] = []
lowered (h ∷ hs) = let rest = lowered hs in if h == "" then rest else lower h ∷ rest

module _ (trusted_hosts : List String) (hostname : String → String) where
  unfoldable pub allowed_hosts : Request → List String
  unfolding lowered
  allowed_hosts r =
      let request_host = lower (split_once 58 r.host).0 in
      if request_host == "" then lowered trusted_hosts else request_host ∷ lowered trusted_hosts

  unfoldable pub is_same_origin : Request → Bool
  is_same_origin r =
      if not (r.sec_fetch_site == "")
      then contains safe_fetch_sites r.sec_fetch_site
      else if not (r.origin == "")
      then contains (allowed_hosts r) (lower (hostname r.origin))
      else true

  -- whether the request reaches its handler
  unfoldable pub is_let_through : Request → Bool
  is_let_through r = is_exempt r || is_same_origin r
