-- ===== src/Models/Money.antt =====
-- app/models/billing.py: the prepaid wallet and its ledger, in micro-USD.
use tetra_host.Prelude.{String}
use tetra_host.Prelude.Int.{ℤ}

pub data TransactionKind : Type 0 where
  topup debit adjustment : TransactionKind

pub record TenantCredit : Type 0 where
  pub tenant_id : String
  pub balance_micro_usd : ℤ

pub record CreditTransaction : Type 0 where
  pub id : String
  pub tenant_id : String
  pub delta_micro_usd : ℤ
  pub kind : TransactionKind
  pub reference : String
