-- ===== src/Auth/BackupCodes.antt =====
-- A backup code is spent by its use.
use tetra_host.Prelude.{
  ℕ, suc, String, true, false, ◌≡◌, ◌≤◌, ◌==◌, refl, Option, some, List, [], ◌∷◌, arith, count,
  select, first, update, Bool, Bool-cases, ap, sym, ◌∙◌, eq_refl, first_holds, Option-cases, none,
  ◌⊎◌, inl, inr, eq_iff,
}
use tetra_host.Prelude.Text.{contains}
use tetra_host.Models.{Db, AdminUser}
use mathlib.Core.Path.{subst}
use tetra_host.Auth.Totp
use tetra_host.Auth.Calls.{AuthCall, Kept, act-Acted, act_found, run, get_admin_by_id}
use tetra_host.Auth.{save, text_of, remove, consume, consume_backup_code, verify_totp_login}

count-remove :
    (s : String) (xs : List String)
    → contains xs s ≡ true
    → count (λ x. x == s) xs ≡ suc (count (λ x. x == s) (remove s xs))
unfolding contains count select remove
count-remove s [] h = cc
count-remove s (x ∷ xs) h = ground (arith, count-remove s xs)

contains_of_count :
    (s : String) (xs : List String) → count (λ x. x == s) xs ≡ 0 → contains xs s ≡ false
unfolding contains count select
contains_of_count s [] h = refl
contains_of_count s (x ∷ xs) h = ground (arith, contains_of_count s xs)

contains-remove :
    (s t : String) (xs : List String) → contains xs s ≡ false → contains (remove t xs) s ≡ false
unfolding contains remove
contains-remove s t [] h = refl
contains-remove s t (x ∷ xs) h = ground (arith, contains-remove s t xs)

-- the row of an id, once a row was written back
saved :
    (id : String) (row : AdminUser) (xs : List AdminUser) {b : AdminUser}
    → first (λ x. x.id == id) (update (λ x. x.id == row.id) (λ _. row) xs) ≡ some b
    → ((row ≡ b) × (row.id ≡ id))
      ⊎ (((row.id == id) ≡ false) × (first (λ x. x.id == id) xs ≡ some b))
unfolding first update
saved id row [] h = cc
saved id row (x ∷ xs) {b} h = elim (Bool-cases (x.id == row.id)) [
  | inl hit ↦ elim (Bool-cases (row.id == id)) [
    | inl own ↦
        let there : some row ≡ some b = rw (hit, own) at h in
        inl (ground arith, (eq_iff row.id id).0 own)
    | inr miss ↦
        let moved : (x.id == id) ≡ false =
          subst (λ i. (i == id) ≡ false) (sym ((eq_iff x.id row.id).0 hit)) miss in
        rw moved (saved id row xs (rw (hit, miss) at h))
  ]
  | inr other ↦ elim (Bool-cases (x.id == id)) [
    | inl here ↦ inr (
      ground (arith, eq_iff x.id id, eq_iff row.id id, eq_iff x.id row.id, eq_refl x.id),
      rw here (rw (other, here) at h),
    )
    | inr miss ↦ rw miss (saved id row xs (rw (other, miss) at h))
  ]
]

module _ (hmac : String → ℕ → List ℕ) (sha256 : String → String) (dumps : List String → String)
    (loads : String → Option (List String)) (verify_password : String → String → Bool)
    (hash_password : String → String) (accepts : AdminUser → Db → Bool) where
  -- the codes of a row do not hold a hash
  abbrev Lacks : String → AdminUser → Type 0
  Lacks h a =
      (text_of a.totp_backup_codes ≡ "")
      ⊎ ((hashes : List String)
          → loads (text_of a.totp_backup_codes) ≡ some hashes
          → contains hashes h ≡ false)

  -- the row of an id does not, where there is one
  abbrev Spent : String → String → Db → Type 0
  Spent h id db = (a : AdminUser) → get_admin_by_id id db ≡ some a → Lacks h a

  Kept-Lacks :
      (h : String) (a b : AdminUser)
      → ((hashes : List String) → loads (dumps hashes) ≡ some hashes)
      → Kept hmac sha256 dumps loads verify_password hash_password accepts a b
      → Lacks h a
      → Lacks h b
  Kept-Lacks h a b reads (_, inl same) lacks =
      subst
        (λ t.
          (t ≡ "") ⊎ ((hashes : List String) → loads t ≡ some hashes → contains hashes h ≡ false))
        (sym same) lacks
  Kept-Lacks h a b reads (_, inr (inl gone)) lacks = inl gone
  Kept-Lacks h a b reads (_, inr (inr (code, hashes, full, held, left))) (inl none_left) =
      absurd (full none_left)
  Kept-Lacks h a b reads (_, inr (inr (code, hashes, full, held, left))) (inr lacks) =
      inr (λ kept read.
        let same : some (remove code hashes) ≡ some kept =
          sym (reads (remove code hashes)) ∙ ap loads (sym left) ∙ read in
        let gone = contains-remove h code hashes (lacks hashes held) in
        let equal : remove code hashes ≡ kept = ground arith in
        subst (λ t. contains t h ≡ false) equal gone)

  save-Spent :
      (h id : String) (row : AdminUser) (db : Db)
      → (row.id ≡ id → Lacks h row)
      → Spent h id db
      → Spent h id (save row db)
  unfolding save get_admin_by_id
  save-Spent h id row db mine others b found = elim (saved id row db.admins found) [
    | inl (same, own) ↦ subst (Lacks h) same (mine own)
    | inr (_, earlier) ↦ others b earlier
  ]

  act_found-Spent :
      (h id at_id : String) (call : AuthCall) (o : Option AdminUser) (db : Db)
      → ((hashes : List String) → loads (dumps hashes) ≡ some hashes)
      → get_admin_by_id at_id db ≡ o
      → Spent h id db
      → Spent h id
          (act_found hmac sha256 dumps loads verify_password hash_password accepts call o db)
  unfolding act_found get_admin_by_id
  act_found-Spent h id at_id call none db reads here spent = spent
  act_found-Spent h id at_id call (some a) db reads here spent =
      elim (act-Acted hmac sha256 dumps loads verify_password hash_password accepts call a db) [
        | inl same ↦ subst (Spent h id) (sym same) spent
        | inr (row, kept, written) ↦
            let named = (eq_iff a.id at_id).0 (first_holds (λ x. x.id == at_id) db.admins here) in
            subst (Spent h id) (sym written) (
              save-Spent h id row db
                (λ own. Kept-Lacks h a row reads kept (
                  spent a (
                    subst (λ i. get_admin_by_id i db ≡ some a) (sym named ∙ sym kept.0 ∙ own)
                      here)))
                spent)
      ]

  run-Spent :
      (h id : String) (calls : List (String × AuthCall)) (db : Db)
      → ((hashes : List String) → loads (dumps hashes) ≡ some hashes)
      → Spent h id db
      → Spent h id (run hmac sha256 dumps loads verify_password hash_password accepts calls db)
  unfolding run
  run-Spent h id [] db reads spent = spent
  run-Spent h id ((at_id, call) ∷ calls) db reads spent =
      run-Spent h id calls _ reads
        (act_found-Spent h id at_id call (get_admin_by_id at_id db) db reads refl spent)

  refused :
      (now : ℕ) (row : AdminUser) (code : String) (hashes : List String) (db : Db)
      → loads (text_of row.totp_backup_codes) ≡ some hashes
      → contains hashes (Totp.hash_backup_code sha256 code) ≡ false
      → Totp.verify hmac (text_of row.totp_secret) code now ≡ false
      → (verify_totp_login hmac sha256 dumps loads now row code db).0 ≡ false
  unfolding verify_totp_login consume_backup_code consume
  refused now row code hashes db stored absent off = ground arith

  unreadable :
      (now : ℕ) (row : AdminUser) (code : String) (db : Db)
      → loads (text_of row.totp_backup_codes) ≡ none
      → Totp.verify hmac (text_of row.totp_secret) code now ≡ false
      → (verify_totp_login hmac sha256 dumps loads now row code db).0 ≡ false
  unfolding verify_totp_login consume_backup_code consume
  unreadable now row code db stored off = ground arith

  lacking :
      (now : ℕ) (row : AdminUser) (code : String) (db : Db)
      → Lacks (Totp.hash_backup_code sha256 code) row
      → Totp.verify hmac (text_of row.totp_secret) code now ≡ false
      → (verify_totp_login hmac sha256 dumps loads now row code db).0 ≡ false
  unfolding verify_totp_login consume_backup_code consume
  lacking now row code db (inl empty) off =
      let same = eq_iff (text_of row.totp_backup_codes) "" in ground arith
  lacking now row code db (inr lacks) off =
      elim (Option-cases (loads (text_of row.totp_backup_codes))) [
        | inl unread ↦ unreadable now row code db unread off
        | inr (hashes, read) ↦ refused now row code hashes db read (lacks hashes read) off
      ]

  login_written :
      (now : ℕ) (admin : AdminUser) (code : String) (hashes : List String) (db : Db)
      → loads (text_of admin.totp_backup_codes) ≡ some hashes
      → Totp.verify hmac (text_of admin.totp_secret) code now ≡ false
      → (verify_totp_login hmac sha256 dumps loads now admin code db).0 ≡ true
      → (contains hashes (Totp.hash_backup_code sha256 code) ≡ true)
        × ((verify_totp_login hmac sha256 dumps loads now admin code db).2
            ≡ save
                (record admin {
                  totp_backup_codes =
                      some (dumps (remove (Totp.hash_backup_code sha256 code) hashes));
                })
                db)
  unfolding verify_totp_login consume_backup_code consume
  login_written now admin code hashes db stored off passed = (ground arith, ground arith)

  -- Where the text of any hashes reads back, the stored text of an admin on record reads as hashes
  -- that hold that of the code once at most, and a login with the code, which is none of the
  -- authenticator, passes: after any further calls of the service on any admins but the set-up of
  -- two-factor codes, a login of the admin as then on record with a code of the same hash, which is
  -- none of the authenticator, is refused.
  pub verify_totp_login-single_use :
      (now later : ℕ) (id : String) (admin row : AdminUser) (code again : String)
      (hashes : List String) (calls : List (String × AuthCall)) (db : Db)
      → ((list : List String) → loads (dumps list) ≡ some list)
      → get_admin_by_id id db ≡ some admin
      → loads (text_of admin.totp_backup_codes) ≡ some hashes
      → count (λ x. x == Totp.hash_backup_code sha256 code) hashes ≤ 1
      → Totp.verify hmac (text_of admin.totp_secret) code now ≡ false
      → (verify_totp_login hmac sha256 dumps loads now admin code db).0 ≡ true
      → (let db₁ = (verify_totp_login hmac sha256 dumps loads now admin code db).2 in
          let db₂ = run hmac sha256 dumps loads verify_password hash_password accepts calls db₁ in
          get_admin_by_id id db₂ ≡ some row)
      → Totp.hash_backup_code sha256 again ≡ Totp.hash_backup_code sha256 code
      → Totp.verify hmac (text_of row.totp_secret) again later ≡ false
      → (let db₁ = (verify_totp_login hmac sha256 dumps loads now admin code db).2 in
          let db₂ = run hmac sha256 dumps loads verify_password hash_password accepts calls db₁ in
          (verify_totp_login hmac sha256 dumps loads later row again db₂).0 ≡ false)
  unfolding get_admin_by_id save
  verify_totp_login-single_use now later id admin row code again hashes calls db reads on_record
        stored single not_now passed found same not_later =
      let h = Totp.hash_backup_code sha256 code in
      let (held, written) = login_written now admin code hashes db stored not_now passed in
      let left = count-remove h hashes held in
      let gone = contains_of_count h (remove h hashes) (omega (arith, left, single)) in
      let used : AdminUser = record admin { totp_backup_codes = some (dumps (remove h hashes)) } in
      let lacks : Lacks h used = inr (λ kept read.
        let equal : some (remove h hashes) ≡ some kept = sym (reads (remove h hashes)) ∙ read in
        let known : remove h hashes ≡ kept = ground arith in
        subst (λ t. contains t h ≡ false) known gone) in
      let spent : Spent h id (save used db) = λ b seen. elim (saved id used db.admins seen) [
        | inl (equal, own) ↦ subst (Lacks h) equal lacks
        | inr (miss, earlier) ↦
            let named = first_holds (λ a. a.id == id) db.admins on_record in absurd (ground arith)
      ] in
      let after = run-Spent h id calls _ reads (subst (Spent h id) (sym written) spent) row found in
      lacking later row again _ (subst (λ k. Lacks k row) (sym same) after) not_later
