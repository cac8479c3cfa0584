-- ===== src/Oidc/SingleUse.antt =====
-- A code works once, and while it is young; its access token speaks for its mailbox.
use tetra_host.Prelude.{
  ℕ, String, true, ◌≡◌, ◌≤◌, ◌<◌, ◌+◌, refl, ap, ◌∙◌, none, some, arith, eq_refl, ok, err, Result,
}
use tetra_host.Cache
use tetra_host.Cache.{view}
use tetra_host.Cache.Laws.{view-set, view-delete}
use tetra_host.Oidc.{
  Settings, OidcError, CodeEntry, TokenEntry, code_entry, token_entry, Claims, UserInfo, Store,
  code_key, token_key, or_text, is_client, issue_code, redeem, burn_and_redeem, exchange_code,
  userinfo, token_ttl, code_ttl, invalid_code,
}
use tetra_host.Oidc.Keys.{token_key-code_key}
use tetra_host.Oidc.Exchange.{reply_to, exchange_code-grants}

or_text_twice : (s m : String) → or_text (or_text (or_text s m) m) m ≡ or_text s m
or_text_twice s m = ground arith

module _ (cfg : Settings) where
  issue_code_on :
      (code : String) (e : CodeEntry) (issued : ℕ) (c : Store)
      → cfg.oidc_configured ≡ true
      → issue_code cfg code e issued c
        ≡ (ok code, Cache.set (code_key code) (code_entry e) code_ttl issued c)
  unfolding issue_code
  issue_code_on code e issued c on = ground arith

  userinfo-live :
      (token : String) (now : ℕ) (c : Store) (held : TokenEntry)
      → cfg.oidc_configured ≡ true
      → view (token_key token) now c ≡ some (token_entry held)
      → (userinfo cfg token now c).0
        ≡ ok (record {
          sub = held.mailbox;
          email = held.mailbox;
          preferred_username = held.mailbox;
          name = or_text (or_text held.name held.mailbox) held.mailbox;
        })
  unfolding userinfo
  userinfo-live token now c held on live = ground arith

module _ (sign : Claims → String) (cfg : Settings) where
  redeem_keeps :
      (fresh code client_id redirect_uri : String) (now later : ℕ) (e : CodeEntry) (c : Store)
      → view (code_key code) later (redeem sign cfg fresh client_id redirect_uri now e c).1
        ≡ view (code_key code) later c
  unfolding redeem
  redeem_keeps fresh code client_id redirect_uri now later e c = ground (
    arith,
    token_key-code_key fresh code,
    view-set (token_key fresh) (code_key code)
        (token_entry (record { mailbox = e.mailbox; name = or_text e.name e.mailbox })) token_ttl
        now later c,
  )

  -- An exchange by the client for a code that is not there is refused.
  exchange_code-missing :
      (fresh code client_id client_secret redirect_uri : String) (now : ℕ) (c : Store)
      → cfg.oidc_configured ≡ true
      → is_client cfg client_id client_secret ≡ true
      → view (code_key code) now c ≡ none
      → (exchange_code sign cfg fresh code client_id client_secret redirect_uri now c).0
        ≡ err invalid_code
  unfolding exchange_code burn_and_redeem
  exchange_code-missing fresh code client_id client_secret redirect_uri now c on authentic gone =
      ground arith

  burnt :
      (fresh code client_id client_secret redirect_uri : String) (now : ℕ) (c : Store)
      (e : CodeEntry) (later : ℕ)
      → cfg.oidc_configured ≡ true
      → is_client cfg client_id client_secret ≡ true
      → view (code_key code) now c ≡ some (code_entry e)
      → view
          (code_key code)
          later
          (exchange_code sign cfg fresh code client_id client_secret redirect_uri now c).1
        ≡ none
  unfolding exchange_code burn_and_redeem
  burnt fresh code client_id client_secret redirect_uri now c e later on authentic live =
      let left = Cache.delete (code_key code) (Cache.get (code_key code) now c).1 in
      ground (
        arith,
        redeem_keeps fresh code client_id redirect_uri now later e left,
        view-delete (code_key code) (code_key code) later (Cache.get (code_key code) now c).1,
        eq_refl (code_key code),
      )

  -- Any exchange of a live code by the client burns it, whether it succeeds or fails at the
  -- redirect_uri: every exchange of that code afterwards, at any time, is refused.
  pub exchange_code-single_use :
      (fresh code client_id client_secret redirect_uri : String) (now : ℕ) (c : Store)
      (e : CodeEntry) (fresh' client_id' client_secret' redirect_uri' : String) (later : ℕ)
      → cfg.oidc_configured ≡ true
      → is_client cfg client_id client_secret ≡ true
      → view (code_key code) now c ≡ some (code_entry e)
      → is_client cfg client_id' client_secret' ≡ true
      → (exchange_code sign cfg fresh' code client_id' client_secret' redirect_uri' later
          (exchange_code sign cfg fresh code client_id client_secret redirect_uri now c).1).0
        ≡ err invalid_code
  exchange_code-single_use fresh code client_id client_secret redirect_uri now c e fresh' client_id'
        client_secret' redirect_uri' later on authentic live authentic' =
      exchange_code-missing fresh' code client_id' client_secret' redirect_uri' later _ on
        authentic'
        (burnt fresh code client_id client_secret redirect_uri now c e later on authentic live)

  -- From the issue of a code to the identity behind its access token: a code that is exchanged within
  -- its five minutes with the arguments that it was issued for gives a token, which for ten minutes
  -- answers with the mailbox that the code was issued for.
  pub userinfo-exchange_code-issue_code :
      (fresh code client_secret : String) (e : CodeEntry) (issued now later : ℕ) (c : Store)
      → cfg.oidc_configured ≡ true
      → is_client cfg e.client_id client_secret ≡ true
      → now < issued + code_ttl
      → later < now + token_ttl
      → (let c₁ = (issue_code cfg code e issued c).1 in
          let (reply, c₂) =
            exchange_code sign cfg fresh code e.client_id client_secret e.redirect_uri now c₁ in
          (reply ≡ ok (reply_to sign cfg fresh e now))
          × ((userinfo cfg fresh later c₂).0
              ≡ ok (record {
                sub = e.mailbox;
                email = e.mailbox;
                preferred_username = e.mailbox;
                name = or_text e.name e.mailbox;
              })))
  userinfo-exchange_code-issue_code fresh code client_secret e issued now later c on authentic young
        recent =
      let c₁ = Cache.set (code_key code) (code_entry e) code_ttl issued c in
      let live : view (code_key code) now c₁ ≡ some (code_entry e) = ground (
        arith,
        view-set (code_key code) (code_key code) (code_entry e) code_ttl issued now c,
        eq_refl (code_key code),
      ) in
      let granted =
        exchange_code-grants sign cfg fresh code e.client_id client_secret e.redirect_uri now c₁ e
          on authentic live refl refl in
      let held : TokenEntry = record { mailbox = e.mailbox; name = or_text e.name e.mailbox } in
      let seen : view (token_key fresh) later (
            Cache.set (token_key fresh) (token_entry held) token_ttl now
              (Cache.delete (code_key code) (Cache.get (code_key code) now c₁).1))
          ≡ some (token_entry held) =
        ground (
          arith,
          view-set (token_key fresh) (token_key fresh) (token_entry held) token_ttl now later
              (Cache.delete (code_key code) (Cache.get (code_key code) now c₁).1),
          eq_refl (token_key fresh),
        ) in
      rw (issue_code_on cfg code e issued c on, granted)
        (
          refl,
          userinfo-live cfg fresh later _ held on seen ∙ ap named (or_text_twice e.name e.mailbox),
        )
    where
      named : String → Result OidcError UserInfo
      named name = ok (record {
        sub = e.mailbox;
        email = e.mailbox;
        preferred_username = e.mailbox;
        name = name;
      })

  -- A code that is five minutes old or older is refused.
  pub exchange_code-expired :
      (fresh code client_id client_secret redirect_uri : String) (e : CodeEntry) (issued now : ℕ)
      (c : Store)
      → cfg.oidc_configured ≡ true
      → is_client cfg client_id client_secret ≡ true
      → issued + code_ttl ≤ now
      → (exchange_code sign cfg fresh code client_id client_secret redirect_uri now
          (issue_code cfg code e issued c).1).0
        ≡ err invalid_code
  exchange_code-expired fresh code client_id client_secret redirect_uri e issued now c on authentic
        old =
      rw (issue_code_on cfg code e issued c on) (
        exchange_code-missing fresh code client_id client_secret redirect_uri now _ on authentic (
          ground (
            arith,
            view-set (code_key code) (code_key code) (code_entry e) code_ttl issued now c,
            eq_refl (code_key code),
          )))
