-- ===== src/Oidc/Exchange.antt =====
-- What an exchanged code is worth: the reply is bound to what the code was issued for.
use tetra_host.Prelude.{
  ℕ, String, true, false, ◌≡◌, refl, Option, none, some, if◌then◌else◌, arith, eq_iff, Bool-cases,
  inl, inr, Option-cases, ◌==◌, ◌+◌, ok, err, Result,
}
use tetra_host.Prelude.Text.{rstrip_char}
use tetra_host.Cache
use tetra_host.Cache.{view}
use tetra_host.Oidc.{
  Settings, OidcError, CodeEntry, Cached, code_entry, token_entry, other, Claims, TokenReply, Store,
  code_key, token_key, or_text, is_client, build_claims, redeem, burn_and_redeem, exchange_code,
  nonce_claim, issuer, token_ttl, invalid_client, temporarily_unavailable,
}

-- What the id token is to say of a code that was issued with `e`.
abbrev pub claims_of : Settings → CodeEntry → ℕ → Claims
claims_of cfg e now = record {
  iss = rstrip_char 47 cfg.oidc_issuer;
  sub = e.mailbox;
  aud = e.client_id;
  azp = e.client_id;
  iat = now;
  auth_time = now;
  exp = now + 600;
  email = e.mailbox;
  preferred_username = e.mailbox;
  name = if e.name == "" then e.mailbox else e.name;
  nonce = elim e.nonce [ none ↦ none | some n ↦ if n == "" then none else some n ];
}

or_text_again : (s m : String) → or_text (or_text s m) m ≡ or_text s m
or_text_again s m = ground arith

build_claims-claims_of :
    (cfg : Settings) (e : CodeEntry) (now : ℕ)
    → build_claims cfg e.mailbox (or_text e.name e.mailbox) e.client_id e.nonce now
      ≡ claims_of cfg e now
unfolding build_claims nonce_claim issuer
build_claims-claims_of cfg e now = elim (Option-cases e.nonce) [
  | inl absent ↦ rw (absent, or_text_again e.name e.mailbox) refl
  | inr (n, here) ↦ rw (here, or_text_again e.name e.mailbox) refl
]

-- The reply for a code that was issued with `e`.
abbrev pub reply_to : (Claims → String) → Settings → String → CodeEntry → ℕ → TokenReply
reply_to sign cfg fresh e now = record {
  access_token = fresh;
  expires_in = token_ttl;
  id_token = sign (claims_of cfg e now);
  scope = or_text e.scope "openid";
}

module _ (sign : Claims → String) (cfg : Settings) where
  redeem_needs :
      (fresh client_id redirect_uri : String) (now : ℕ) (e : CodeEntry) (c : Store) {r : TokenReply}
      → (redeem sign cfg fresh client_id redirect_uri now e c).0 ≡ ok r
      → (e.client_id ≡ client_id)
        × (e.redirect_uri ≡ redirect_uri)
        × (reply_to sign cfg fresh e now ≡ r)
  unfolding redeem
  redeem_needs fresh client_id redirect_uri now e c h = ground (
    arith,
    eq_iff e.client_id client_id,
    eq_iff e.redirect_uri redirect_uri,
    build_claims-claims_of cfg e now,
  )

  burn_needs :
      (fresh code client_id redirect_uri : String) (now : ℕ) (entry : Option Cached) (c : Store)
      {r : TokenReply}
      → (burn_and_redeem sign cfg fresh code client_id redirect_uri now entry c).0 ≡ ok r
      → (e : CodeEntry) × (entry ≡ some (code_entry e))
        × (e.client_id ≡ client_id)
        × (e.redirect_uri ≡ redirect_uri)
        × (reply_to sign cfg fresh e now ≡ r)
  unfolding burn_and_redeem
  burn_needs fresh code client_id redirect_uri now none c h = cc
  burn_needs fresh code client_id redirect_uri now (some other) c h = cc
  burn_needs fresh code client_id redirect_uri now (some (token_entry t)) c h = cc
  burn_needs fresh code client_id redirect_uri now (some (code_entry e)) c h =
      let (same_client, same_uri, same) =
        redeem_needs fresh client_id redirect_uri now e (Cache.delete (code_key code) c) h in
      (e, refl, same_client, same_uri, same)

module _ (sign : Claims → String) (cfg : Settings)
    (fresh code client_id client_secret redirect_uri : String) (now : ℕ) (c : Store) where
  abbrev exchanged : Result OidcError TokenReply × Store
  exchanged = exchange_code sign cfg fresh code client_id client_secret redirect_uri now c

  -- An exchange succeeds only for the registered client, with a live code that was issued to that
  -- client for that redirect_uri, and the reply asserts the mailbox of that code.
  pub exchange_code-needs :
      {r : TokenReply}
      → exchanged.0 ≡ ok r
      → (e : CodeEntry) × (client_id ≡ cfg.oidc_client_id)
        × (client_secret ≡ cfg.oidc_client_secret)
        × (view (code_key code) now c ≡ some (code_entry e))
        × (e.client_id ≡ client_id)
        × (e.redirect_uri ≡ redirect_uri)
        × (reply_to sign cfg fresh e now ≡ r)
  unfolding exchange_code
  exchange_code-needs {r} h = elim (Bool-cases cfg.oidc_configured) [
    | inr off ↦ absurd (ground arith)
    | inl on ↦ elim (Bool-cases (is_client cfg client_id client_secret)) [
      | inr wrong ↦ absurd (ground arith)
      | inl right ↦
          let burnt : (burn_and_redeem sign cfg fresh code client_id redirect_uri now
                (Cache.get (code_key code) now c).0 (Cache.get (code_key code) now c).1).0
              ≡ ok r =
            ground arith in
          let (e, live, same_client, same_uri, same) = burn_needs sign cfg _ _ _ _ _ _ _ burnt in
          (
            e,
            ground (arith, eq_iff client_id cfg.oidc_client_id),
            ground (arith, eq_iff client_secret cfg.oidc_client_secret),
            live,
            same_client,
            same_uri,
            same,
          )
    ]
  ]

  -- A caller that is not the registered client changes nothing, and so does anybody while the
  -- provider is not configured.
  pub exchange_code-refuses :
      is_client cfg client_id client_secret ≡ false
      → exchanged ≡ (
          if cfg.oidc_configured then (err invalid_client, c) else (err temporarily_unavailable, c))
  unfolding exchange_code
  exchange_code-refuses h = ground arith

  -- With a live code and the arguments that it was issued for, the exchange succeeds, and its access
  -- token is cached.
  pub exchange_code-grants :
      (e : CodeEntry)
      → cfg.oidc_configured ≡ true
      → is_client cfg client_id client_secret ≡ true
      → view (code_key code) now c ≡ some (code_entry e)
      → e.client_id ≡ client_id
      → e.redirect_uri ≡ redirect_uri
      → exchanged ≡ (
        ok (reply_to sign cfg fresh e now),
        Cache.set
            (token_key fresh)
            (token_entry (record { mailbox = e.mailbox; name = or_text e.name e.mailbox }))
            token_ttl
            now
            (Cache.delete (code_key code) (Cache.get (code_key code) now c).1),
      )
  unfolding exchange_code burn_and_redeem redeem
  exchange_code-grants e on authentic live same_client same_uri = ground (
    arith,
    eq_iff e.client_id client_id,
    eq_iff e.redirect_uri redirect_uri,
    build_claims-claims_of cfg e now,
  )
