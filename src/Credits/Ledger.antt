-- ===== src/Credits/Ledger.antt =====
-- The balance of a wallet is what the ledger adds up to.
use tetra_host.Prelude.{
  String, true, false, ◌≡◌, ◌≢◌, ◌==◌, refl, sym, ap, ◌∙◌, List, [], ◌∷◌, ◌++◌, none, some, Result,
  ok, err, arith, first, update, Option-cases, Bool-cases, inl, inr, if◌then◌else◌, eq_iff, eq_refl,
  first-append, first-append_none, first-update, first_holds, eq-false_of_ne,
}
use tetra_host.Prelude.Int.{ℤ, pos, ◌+ℤ◌, neg, int_laws, +ℤ_assoc, +ℤ-zero, leb_ℤ, ltb_ℤ}
use tetra_host.Models.{Db, TenantCredit, CreditTransaction, TransactionKind}
use tetra_host.Credits.{
  CreditError, is_wallet_of, wallet, balance_of, balance, opened, open_wallet, add_credit, apply,
  topup, debit, adjust,
}

-- the sum of a tenant's transactions
unfoldable pub total : String → List CreditTransaction → ℤ
total t [] = pos 0
total t (x ∷ xs) =
    let rest = total t xs in if x.tenant_id == t then x.delta_micro_usd +ℤ rest else rest

total-insert :
    (t : String) (x : CreditTransaction) (xs : List CreditTransaction)
    → total t (xs ++ (x ∷ []))
      ≡ total t xs +ℤ (if x.tenant_id == t then x.delta_micro_usd else pos 0)
unfolding total
total-insert t x [] = elim (Bool-cases (x.tenant_id == t)) [
  | inl e ↦ rw e (omega int_laws)
  | inr e ↦ rw e (omega int_laws)
]
total-insert t x (y ∷ xs) = elim (Bool-cases (y.tenant_id == t)) [
  | inl e ↦ rw (e, total-insert t x xs) (sym (+ℤ_assoc _ _ _))
  | inr e ↦ rw (e, total-insert t x xs) refl
]

wallet-open :
    (t : String) (db : Db)
    → (w : TenantCredit) × (wallet t (open_wallet t db) ≡ some w)
      × (w.balance_micro_usd ≡ balance t db)
unfolding wallet open_wallet opened balance first
wallet-open t db = elim (Option-cases (wallet t db)) [
  | inl gone ↦
      let fresh : TenantCredit = record { tenant_id = t; balance_micro_usd = pos 0 } in
      let alone : first (is_wallet_of t) (fresh ∷ []) ≡ some fresh = rw (eq_refl t) refl in
      let found = first-append_none (is_wallet_of t) db.wallets (fresh ∷ []) gone ∙ alone in
      (fresh, rw gone found, rw gone refl)
  | inr (w, here) ↦ (w, rw here here, rw here refl)
]

wallet-open_other :
    (t u : String) (db : Db) → (t == u) ≡ false → balance u (open_wallet t db) ≡ balance u db
unfolding wallet open_wallet opened balance first
wallet-open_other t u db other = elim (Option-cases (wallet t db)) [
  | inl gone ↦ elim (Option-cases (wallet u db)) [
    | inl none_of_u ↦
        let fresh : TenantCredit = record { tenant_id = t; balance_micro_usd = pos 0 } in
        let skipped : first (is_wallet_of u) (fresh ∷ []) ≡ none = rw other refl in
        let found =
          first-append_none (is_wallet_of u) db.wallets (fresh ∷ []) none_of_u ∙ skipped in
        rw (gone, none_of_u) (ap balance_of found)
    | inr (w, here) ↦
        rw (gone, here) (ap balance_of (first-append (is_wallet_of u) db.wallets _ here))
  ]
  | inr (w, here) ↦ rw here refl
]

wallet-update :
    (t u : String) (delta : ℤ) (ws : List TenantCredit)
    → first (is_wallet_of u) (update (is_wallet_of t) (add_credit delta) ws)
      ≡ elim (first (is_wallet_of u) ws) [
        | none ↦ none
        | some w ↦ some (if w.tenant_id == t then add_credit delta w else w)
      ]
wallet-update t u delta ws = first-update _ _ (add_credit delta) ws (λ w. refl)

update_other :
    (t u : String) (delta : ℤ) (ws : List TenantCredit)
    → (t == u) ≡ false
    → first (is_wallet_of u) (update (is_wallet_of t) (add_credit delta) ws)
      ≡ first (is_wallet_of u) ws
unfolding first update
update_other t u delta [] other = refl
update_other t u delta (w ∷ ws) other =
    ground (
      arith,
      update_other t u delta ws other,
      eq_iff w.tenant_id t,
      eq_iff w.tenant_id u,
      eq_iff t u,
    )

-- Each write changes the balance of its tenant by its amount and returns it; other balances stay.
pub balance-apply :
    (id t : String) (delta : ℤ) (kind : TransactionKind) (reference : String) (db : Db)
    → (let (told, after) = apply id t delta kind reference db in
        (told ≡ balance t db +ℤ delta)
        × (balance t after ≡ balance t db +ℤ delta)
        × ((u : String) → u ≢ t → balance u after ≡ balance u db))
unfolding apply balance wallet
balance-apply id t delta kind reference db =
    let (w, found, held) = wallet-open t db in
    let mine : (w.tenant_id == t) ≡ true = first_holds (is_wallet_of t) _ found in
    let new : balance t (apply id t delta kind reference db).1 ≡ balance t db +ℤ delta =
      rw (wallet-update t t delta (open_wallet t db).wallets, found, mine, held) refl in
    (
      new,
      new,
      λ u other.
          let apart : (t == u) ≡ false = eq-false_of_ne t u (λ e. other (sym e)) in
          ap balance_of (update_other t u delta (open_wallet t db).wallets apart)
          ∙ wallet-open_other t u db apart,
    )

transactions-open : (t : String) (db : Db) → (open_wallet t db).transactions ≡ db.transactions
unfolding open_wallet opened
transactions-open t db = elim (Option-cases (wallet t db)) [
  | inl gone ↦ rw gone refl
  | inr (w, here) ↦ rw here refl
]

-- Every tenant's balance is the sum of its ledger.
pub record IsBalanced (db : Db) : Type 0 where
  pub agrees : (t : String) → balance t db ≡ total t db.transactions

apply-IsBalanced :
    (id t : String) (delta : ℤ) (kind : TransactionKind) (reference : String) (db : Db)
    → IsBalanced db
    → IsBalanced (apply id t delta kind reference db).1
unfolding apply balance ◌+ℤ◌ wallet total
apply-IsBalanced id t delta kind reference db h =
    let (told, mine, others) = balance-apply id t delta kind reference db in
    record {
      agrees = λ u.
          rw (transactions-open t db, total-insert u)
            (elim (Bool-cases (t == u)) [
              | inl same ↦
                  let e : t ≡ u = ground (arith, eq_iff t u) in
                  rw (same, sym e, mine, h.agrees t) refl
              | inr other ↦
                  rw (other, others u (λ e. ground (arith, eq_iff t u)), +ℤ-zero) (h.agrees u)
            ]);
    }

pub data Request : Type 0 where
  topup_one debit_one adjust_one :
      (id tenant_id : String) (amount : ℤ) (reference : String) → Request

left : Db → Result CreditError (ℤ × Db) → Db
left db (ok (_, after)) = after
left db (err _) = db

-- What a call leaves behind: it is rolled back if it raises.
unfoldable pub step : Request → Db → Db
unfolding left
step (topup_one id t amount reference) db = left db (topup id t amount reference db)
step (debit_one id t amount reference) db = left db (debit id t amount reference db)
step (adjust_one id t amount reference) db = (adjust id t amount reference db).1

unfoldable pub run : List Request → Db → Db
run [] db = db
run (q ∷ qs) db = run qs (step q db)

step-IsBalanced : (q : Request) (db : Db) → IsBalanced db → IsBalanced (step q db)
unfolding step left topup debit adjust
step-IsBalanced (topup_one id t amount reference) db h = elim (Bool-cases (leb_ℤ amount (pos 0))) [
  | inl low ↦ rw low h
  | inr fine ↦ rw fine (apply-IsBalanced id t amount TransactionKind.topup reference db h)
]
step-IsBalanced (debit_one id t amount reference) db h = elim (Bool-cases (ltb_ℤ amount (pos 0))) [
  | inl low ↦ rw low h
  | inr fine ↦ rw fine (apply-IsBalanced id t (neg amount) TransactionKind.debit reference db h)
]
step-IsBalanced (adjust_one id t amount reference) db h =
    apply-IsBalanced id t amount TransactionKind.adjustment reference db h

run-IsBalanced : (qs : List Request) (db : Db) → IsBalanced db → IsBalanced (run qs db)
unfolding run
run-IsBalanced [] db h = h
run-IsBalanced (q ∷ qs) db h = run-IsBalanced qs _ (step-IsBalanced q db h)

-- Whatever top-ups, debits and adjustments are called and in whatever order, refused ones
-- included, the balance of every tenant is the sum of the amounts in its ledger, if it was before.
pub run-balance :
    (qs : List Request) (db : Db) (t : String)
    → ((u : String) → balance u db ≡ total u db.transactions)
    → balance t (run qs db) ≡ total t (run qs db).transactions
run-balance qs db t h = (run-IsBalanced qs db (record { agrees = h })).agrees t
