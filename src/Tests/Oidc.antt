-- ===== src/Tests/Oidc.antt =====
-- The authorization-code flow.
use tetra_host.Prelude.{String, true, ◌≡◌, refl, some, [], ◌∷◌, ok, err, arith}
use tetra_host.Prelude.Dict
use tetra_host.Cache
use tetra_host.Cache.{view}
use tetra_host.Oidc.{
  Settings, CodeEntry, Claims, Store, code_entry, code_key, issue_code, exchange_code, userinfo,
  invalid_code, or_text, burn_and_redeem, redeem, build_claims,
}
use tetra_host.Oidc.Exchange.{reply_to, exchange_code-needs}
use tetra_host.Oidc.SingleUse.{exchange_code-single_use, userinfo-exchange_code-issue_code}

abbrev sign : Claims → String
sign claims = claims.sub

abbrev settings : Settings
settings = record {
  oidc_configured = true;
  oidc_issuer = "https://panel.example";
  oidc_client_id = "webmail";
  oidc_client_secret = "s3cret";
  oidc_redirect_uris = "https://mail.example/cb" ∷ [];
}

abbrev login : CodeEntry
login = record {
  mailbox = "ann@acme.test";
  name = "Ann";
  client_id = "webmail";
  redirect_uri = "https://mail.example/cb";
  scope = "openid";
  nonce = some "n1";
}

abbrev issued : Store
issued = (issue_code settings "c1" login 1000 []).1

opened : Unit {0}
unfolding issue_code Cache.set Cache.get Cache.delete Dict.put Dict.get Dict.pop exchange_code
    burn_and_redeem redeem build_claims userinfo
opened = tt

is_live : view (code_key "c1") 1100 issued ≡ some (code_entry login)
unfolding opened
is_live = refl

grants :
    (exchange_code sign settings "a1" "c1" "webmail" "s3cret" "https://mail.example/cb" 1100
      issued).0
    ≡ ok (reply_to sign settings "a1" login 1100)
unfolding opened
grants = refl

exchange_code-needs_example :
    (e : CodeEntry) × (settings.oidc_client_id ≡ settings.oidc_client_id)
    × (settings.oidc_client_secret ≡ settings.oidc_client_secret)
    × (view (code_key "c1") 1100 issued ≡ some (code_entry e))
    × (e.client_id ≡ "webmail")
    × (e.redirect_uri ≡ "https://mail.example/cb")
    × (reply_to sign settings "a1" e 1100 ≡ reply_to sign settings "a1" login 1100)
exchange_code-needs_example =
    exchange_code-needs sign settings "a1" "c1" "webmail" "s3cret" "https://mail.example/cb" 1100
      issued grants

exchange_code-single_use_example :
    (exchange_code sign settings "a2" "c1" "webmail" "s3cret" "https://mail.example/cb" 1101
      (exchange_code sign settings "a1" "c1" "webmail" "s3cret" "https://elsewhere.test/" 1100
        issued).1).0
    ≡ err invalid_code
exchange_code-single_use_example =
    exchange_code-single_use sign settings "a1" "c1" "webmail" "s3cret" "https://elsewhere.test/"
      1100 issued login "a2" "webmail" "s3cret" "https://mail.example/cb" 1101 refl refl is_live
      refl

userinfo-exchange_code-issue_code_example :
    (let c₁ = (issue_code settings "c1" login 1000 []).1 in
      let (reply, c₂) =
        exchange_code sign settings "a1" "c1" login.client_id "s3cret" login.redirect_uri 1299 c₁ in
      (reply ≡ ok (reply_to sign settings "a1" login 1299))
      × ((userinfo settings "a1" 1898 c₂).0
          ≡ ok (record {
            sub = login.mailbox;
            email = login.mailbox;
            preferred_username = login.mailbox;
            name = or_text login.name login.mailbox;
          })))
userinfo-exchange_code-issue_code_example =
    userinfo-exchange_code-issue_code sign settings "a1" "c1" "s3cret" login 1000 1299 1898 [] refl
      refl (omega arith) (omega arith)
