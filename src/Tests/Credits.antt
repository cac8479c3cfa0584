-- ===== src/Tests/Credits.antt =====
-- Wallets.
use tetra_host.Prelude.{String, ◌≡◌, ◌≢◌, refl, List, [], ◌∷◌, first, update}
use tetra_host.Prelude.Int.{pos, negsuc, ◌+ℤ◌, neg}
use tetra_host.Models.{TransactionKind, no_rows}
use tetra_host.Credits.{wallet, balance, open_wallet, apply, topup, debit, adjust}
use tetra_host.Credits.Ledger.{
  Request, topup_one, debit_one, adjust_one, total, run, step, balance-apply, run-balance,
}

abbrev calls : List Request
calls =
    topup_one "x1" "t1" (pos 500) "card"
    ∷ topup_one "x2" "t1" (pos 0) "nothing"
    ∷ debit_one "x3" "t1" (pos 700) "model"
    ∷ debit_one "x4" "t2" (negsuc 4) "model"
    ∷ adjust_one "x5" "t2" (pos 9) ""
    ∷ []

ends : (balance "t1" (run calls no_rows) ≡ negsuc 199) × (balance "t2" (run calls no_rows) ≡ pos 9)
unfolding run step topup debit adjust apply open_wallet wallet balance first update ◌+ℤ◌ neg
ends = (refl, refl)

balance-apply_example :
    (let (told, after) = apply "x1" "t1" (pos 500) TransactionKind.topup "card" no_rows in
      (told ≡ balance "t1" no_rows +ℤ pos 500)
      × (balance "t1" after ≡ balance "t1" no_rows +ℤ pos 500)
      × ((u : String) → u ≢ "t1" → balance u after ≡ balance u no_rows))
balance-apply_example = balance-apply "x1" "t1" (pos 500) TransactionKind.topup "card" no_rows

nobody_yet : (u : String) → balance u no_rows ≡ total u no_rows.transactions
unfolding balance wallet first total
nobody_yet u = refl

run-balance_example : balance "t1" (run calls no_rows) ≡ total "t1" (run calls no_rows).transactions
run-balance_example = run-balance calls no_rows "t1" nobody_yet
