-- ===== src/Service/Failure/Conservation.antt =====
-- What `markWithdrawalFailed` does to the money.
use tucanbit_tvs.Effects.{Env, World, Try, done, error}
use tucanbit_tvs.Effects.Keeps.{Keeps, Writes, Keeps-pure}
use tucanbit_tvs.Db.Frame.{update_withdrawal_frame, log_balance_change_frame}
use tucanbit_tvs.Db.Balances.Totals.{
  totals, release_reserved_balance-HasTotals, row_total, HasTotals, HasAmount,
}
use tucanbit_tvs.Db
use tucanbit_tvs.Service.Failure.{
  Withdrawal, WithdrawalStatus, after_release, release_reservation, mark_withdrawal_failed,
}
use tucanbit_tvs.Prelude.{List, Option, String, ◌≡◌, ap, map, ◌∙◌, refl, All, subst, sym}
use tucanbit_tvs.Prelude.Int.{ℤ}
use tucanbit_tvs.Db.Rows.{BalanceLogRow, Db}
use tucanbit_tvs.Repo.Keeps.{repo_rules}

module _ (k : List ℤ) where
  -- A write of another table than balances.
  same_balances-HasTotals :
      (db db' : Db) → db'.balances ≡ db.balances → HasTotals k db → HasTotals k db'
  same_balances-HasTotals db db' e (given, h) =
      (subst (All HasAmount) (sym e) given, ap (map row_total) e ∙ h)

  update_withdrawal-HasTotals :
      (hash : Option String) (status : WithdrawalStatus) (message : Option String) (id : String)
      → Writes (HasTotals k) (Db.Withdrawals.update_withdrawal hash status message id)
  update_withdrawal-HasTotals hash status message id = record {
    at = λ stamp db db' h e.
        same_balances-HasTotals db db'
          (update_withdrawal_frame hash status message id stamp db db' e).1 h;
  }

  log_balance_change-HasTotals :
      (row : BalanceLogRow) → Writes (HasTotals k) (λ stamp. Db.Balances.log_balance_change row)
  log_balance_change-HasTotals row = record {
    at = λ stamp db db' h e.
        same_balances-HasTotals db db' (log_balance_change_frame row db db' e).2 h;
  }

ruleset money_rules = (
  repo_rules, update_withdrawal-HasTotals, log_balance_change-HasTotals,
  release_reserved_balance-HasTotals,
)

module _ {env : Env} {k : List ℤ} where
  Keeps-after_release :
      (withdrawal : Withdrawal) (reason : String) (released : Try (Unit {0}))
      → Keeps env (HasTotals k) (after_release withdrawal reason released)
  unfolding after_release
  Keeps-after_release withdrawal reason (done _) = search money_rules depth 12
  Keeps-after_release withdrawal reason (error e) = Keeps-pure withdrawal

  Keeps-release_reservation :
      (withdrawal : Withdrawal) (reason : String)
      → Keeps env (HasTotals k) (release_reservation withdrawal reason)
  unfolding release_reservation
  Keeps-release_reservation withdrawal reason = search (money_rules, Keeps-after_release) depth 12

  Keeps-mark_withdrawal_failed :
      (withdrawal : Withdrawal) (reason : String)
      → Keeps env (HasTotals k) (mark_withdrawal_failed withdrawal reason)
  unfolding mark_withdrawal_failed
  Keeps-mark_withdrawal_failed withdrawal reason =
      search (money_rules, Keeps-release_reservation) depth 12

-- Where no balance has a null for its amount, and whatever the database, the clock and the servers do
-- and however `markWithdrawalFailed` ends, every row of balances keeps the total of its available and
-- its reserved cents, a null reserve read as zero, and no amount becomes a null.
pub mark_withdrawal_failed-totals :
    (env : Env) (withdrawal : Withdrawal) (reason : String) (w : World)
    → All HasAmount w.db.balances
    → All HasAmount (mark_withdrawal_failed withdrawal reason env w).1.db.balances
      × (totals (mark_withdrawal_failed withdrawal reason env w).1.db ≡ totals w.db)
mark_withdrawal_failed-totals env withdrawal reason w given =
    (Keeps-mark_withdrawal_failed withdrawal reason).at w (given, refl)
