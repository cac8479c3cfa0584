-- ===== src/Credits.antt =====
-- app/modules/billing/credits.py: the prepaid wallets and their ledger. Amounts are integers of
-- any sign, as in the code; `overview`, a report, is left out.
pub mod Ledger
use tetra_host.Prelude.{
  ℕ, String, Bool, ◌==◌, Option, none, some, List, Result, ok, err, if◌then◌else◌, first, insert,
  select, update, newest_first, take,
}
use tetra_host.Prelude.Int.{ℤ, pos, ◌+ℤ◌, neg, ltb_ℤ, leb_ℤ}
use tetra_host.Models.{Db, TenantCredit, CreditTransaction, TransactionKind}

pub data CreditError : Type 0 where
  topup_not_positive debit_negative : CreditError

abbrev pub is_wallet_of : String → TenantCredit → Bool
is_wallet_of tenant_id w = w.tenant_id == tenant_id

-- `_wallet`, without `create`
unfoldable pub wallet : String → Db → Option TenantCredit
wallet tenant_id db = first (is_wallet_of tenant_id) db.wallets

abbrev pub balance_of : Option TenantCredit → ℤ
balance_of none = pos 0
balance_of (some w) = w.balance_micro_usd

unfoldable pub balance : String → Db → ℤ
balance tenant_id db = balance_of (wallet tenant_id db)

opened : String → Option TenantCredit → Db → Db
opened tenant_id none db = record db {
  wallets = insert (record { tenant_id = tenant_id; balance_micro_usd = pos 0 }) db.wallets;
}
opened tenant_id (some w) db = db

-- `_wallet`, with `create`: what it leaves in the table
unfoldable pub open_wallet : String → Db → Db
unfolding opened
open_wallet tenant_id db = opened tenant_id (wallet tenant_id db) db

abbrev pub add_credit : ℤ → TenantCredit → TenantCredit
add_credit delta w = record w { balance_micro_usd = w.balance_micro_usd +ℤ delta }

-- `_apply`: the new balance, and the tables with the wallet and the ledger
unfoldable pub apply : String → String → ℤ → TransactionKind → String → Db → ℤ × Db
apply id tenant_id delta kind reference db =
    let db₁ = open_wallet tenant_id db in
    let db₂ : Db = record db₁ {
      wallets = update (is_wallet_of tenant_id) (add_credit delta) db₁.wallets;
      transactions =
          insert
            (record {
              id = id;
              tenant_id = tenant_id;
              delta_micro_usd = delta;
              kind = kind;
              reference = reference;
            })
            db₁.transactions;
    } in
    (balance tenant_id db₂, db₂)

unfoldable pub topup : String → String → ℤ → String → Db → Result CreditError (ℤ × Db)
topup id tenant_id amount reference db =
    if leb_ℤ amount (pos 0)
    then err topup_not_positive
    else ok (apply id tenant_id amount TransactionKind.topup reference db)

unfoldable pub debit : String → String → ℤ → String → Db → Result CreditError (ℤ × Db)
debit id tenant_id amount reference db =
    if ltb_ℤ amount (pos 0)
    then err debit_negative
    else ok (apply id tenant_id (neg amount) TransactionKind.debit reference db)

unfoldable pub adjust : String → String → ℤ → String → Db → ℤ × Db
adjust id tenant_id delta reference db =
    apply id tenant_id delta TransactionKind.adjustment reference db

unfoldable pub transactions : String → ℕ → Db → List CreditTransaction
transactions tenant_id limit db =
    take limit (newest_first (select (λ x. x.tenant_id == tenant_id) db.transactions))
