-- ===== src/Tokens/Lifecycle.antt =====
-- A token's life: what it takes to be let in, from its creation to its revocation.
use tetra_host.Prelude.{
  ℕ, String, Bool, true, false, not, ◌≡◌, ◌==◌, ◌||◌, refl, List, [], ◌∷◌, Option, none, some,
  arith, first, update, Option-cases, Bool-cases, inl, inr, if◌then◌else◌, ◌∙◌, eq_iff, eq_refl,
  first-append, first-append_none, first-update, first_holds,
}
use tetra_host.Prelude.Int.{ℤ}
use tetra_host.Models.{Db, AdminUser, ApiToken}
use tetra_host.Tokens.{
  create, secret_of, revoke, authenticate, expiry_after, is_expired, set_used, set_revoked,
  revoke_found, authenticate_found,
}

pub data Request : Type 0 where
  create_one :
      (id random : String) (now : ℕ) (admin : AdminUser) (name scope : String) (days : Option ℤ)
      → Request
  revoke_one : (admin : AdminUser) (token_id : String) → Request
  authenticate_one : (token : String) (now : ℕ) → Request

module _ (hash_token : String → String) where
  unfoldable pub step : Request → Db → Db
  step (create_one id random now admin name scope days) db =
      (create hash_token id random now admin name scope days db).1
  step (revoke_one admin token_id) db = (revoke hash_token admin token_id db).1
  step (authenticate_one token now) db = (authenticate hash_token token now db).1

  unfoldable pub run : List Request → Db → Db
  run [] db = db
  run (q ∷ qs) db = run qs (step q db)

  abbrev pub by_hash : String → ApiToken → Bool
  by_hash token r = r.token_hash == hash_token token

  -- A token is let in just where its hash is that of a row that is neither revoked nor expired,
  -- and then it speaks for that row, with the time of its use.
  pub authenticate_iff :
      (token : String) (now : ℕ) (db : Db)
      → (authenticate hash_token token now db).0 ≡ elim (first (by_hash token) db.tokens) [
        | none ↦ none
        | some row ↦
            if row.revoked || is_expired hash_token row.expires_at now
            then none
            else some (set_used hash_token now row)
      ]
  unfolding authenticate authenticate_found
  authenticate_iff token now db = ground arith

  -- The secret that `create` shows is let in until its token expires, as the admin that it was made
  -- for and with the scope that was asked for, where no other token has its hash.
  pub authenticate-create :
      (id random : String) (now later : ℕ) (admin : AdminUser) (name scope : String)
      (days : Option ℤ) (db : Db)
      → first (by_hash (secret_of random)) db.tokens ≡ none
      → is_expired hash_token (expiry_after days now) later ≡ false
      → (let (made, after) = create hash_token id random now admin name scope days db in
          (row : ApiToken) × ((authenticate hash_token made.secret later after).0 ≡ some row)
          × (row.id ≡ id)
          × (row.admin_user_id ≡ admin.id)
          × (row.tenant_id ≡ admin.tenant_id)
          × (row.scope ≡ (if scope == "read" then "read" else "full")))
  unfolding create first
  authenticate-create id random now later admin name scope days db fresh live =
      let made = create hash_token id random now admin name scope days db in
      let found : first (by_hash made.0.secret) made.1.tokens ≡ some made.0.row =
        first-append_none (by_hash made.0.secret) db.tokens (made.0.row ∷ []) fresh
        ∙ rw (eq_refl (hash_token (secret_of random))) refl in
      rw (authenticate_iff made.0.secret later made.1, found, live)
        (_, refl, refl, refl, refl, refl)

  -- The row that a token finds is there and revoked.
  pub record IsDead (token : String) (db : Db) : Type 0 where
    pub row : ApiToken
    pub is_found : first (by_hash token) db.tokens ≡ some row
    pub is_revoked : row.revoked ≡ true

  update-IsDead :
      (token : String) (q : ApiToken → Bool) (f : ApiToken → ApiToken) (db : Db)
      → ((x : ApiToken) → (f x).token_hash ≡ x.token_hash)
      → ((x : ApiToken) → x.revoked ≡ true → (f x).revoked ≡ true)
      → IsDead token db
      → IsDead token (record db { tokens = update q f db.tokens })
  update-IsDead token q f db same dead h = record {
    row = if q h.row then f h.row else h.row;
    is_found =
        rw (first-update (by_hash token) q f db.tokens (λ x. rw (same x) refl), h.is_found) refl;
    is_revoked = ground (arith, dead h.row, h.is_revoked);
  }

  step-IsDead :
      (token : String) (q : Request) (db : Db) → IsDead token db → IsDead token (step q db)
  unfolding step create revoke revoke_found authenticate authenticate_found
  step-IsDead token (create_one id random now admin name scope days) db h = record {
    row = h.row;
    is_found = first-append (by_hash token) db.tokens _ h.is_found;
    is_revoked = h.is_revoked;
  }
  step-IsDead token (revoke_one admin token_id) db h = go _
    where
      go : (o : Option ApiToken) → IsDead token (revoke_found hash_token admin o db).1
      go none = h
      go (some row) = elim (Bool-cases (not (row.admin_user_id == admin.id) || row.revoked)) [
        | inl kept ↦ rw kept h
        | inr gone ↦ rw gone (
            update-IsDead token (λ r. r.id == row.id) (set_revoked hash_token) db (λ x. refl)
              (λ x e. refl) h)
      ]
  step-IsDead token (authenticate_one other now) db h = go _
    where
      go : (o : Option ApiToken) → IsDead token (authenticate_found hash_token now o db).1
      go none = h
      go (some row) = elim (Bool-cases (row.revoked || is_expired hash_token row.expires_at now)) [
        | inl kept ↦ rw kept h
        | inr used ↦ rw used (
            update-IsDead token (λ r. r.id == row.id) (set_used hash_token now) db (λ x. refl)
              (λ x e. e) h)
      ]

  run-IsDead :
      (token : String) (qs : List Request) (db : Db) → IsDead token db → IsDead token (run qs db)
  unfolding run
  run-IsDead token [] db h = h
  run-IsDead token (q ∷ qs) db h = run-IsDead token qs _ (step-IsDead token q db h)

  revoked-IsDead :
      (token : String) (admin : AdminUser) (row : ApiToken) (db : Db)
      → first (by_hash token) db.tokens ≡ some row
      → (revoke hash_token admin row.id db).0 ≡ true
      → IsDead token (revoke hash_token admin row.id db).1
  unfolding revoke revoke_found
  revoked-IsDead token admin row db found granted =
      elim (Option-cases (first (λ r. r.id == row.id) db.tokens)) [
        | inl gone ↦ ground (arith, granted)
        | inr (held, here) ↦
            let same : (row.id == held.id) ≡ true =
              ground (arith, first_holds _ db.tokens here, eq_iff held.id row.id, eq_refl row.id) in
            let live : (not (held.admin_user_id == admin.id) || held.revoked) ≡ false =
              ground arith in
            rw (here, live)
              (record {
                row = set_revoked hash_token row;
                is_found =
                    rw
                      (
                        first-update (by_hash token) (λ r. r.id == held.id) (set_revoked hash_token)
                            db.tokens (λ x. refl),
                        found,
                        same,
                      )
                      refl;
                is_revoked = refl;
              })
      ]

  -- A token that its admin revoked is never let in again, whatever calls follow.
  pub authenticate-revoke :
      (token : String) (admin : AdminUser) (row : ApiToken) (qs : List Request) (now : ℕ) (db : Db)
      → first (by_hash token) db.tokens ≡ some row
      → (revoke hash_token admin row.id db).0 ≡ true
      → (authenticate hash_token token now (run qs (revoke hash_token admin row.id db).1)).0 ≡ none
  authenticate-revoke token admin row qs now db found granted =
      let dead = run-IsDead token qs _ (revoked-IsDead token admin row db found granted) in
      rw (authenticate_iff token now (run qs (revoke hash_token admin row.id db).1))
        (ground (arith, dead.is_found, dead.is_revoked))
