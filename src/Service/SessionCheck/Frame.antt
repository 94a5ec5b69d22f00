-- ===== src/Service/SessionCheck/Frame.antt =====
-- What `verifySolanaSession` of internal/application/verificationservice/verification_service_impl.go
-- does not touch.
use tucanbit_tvs.Service.SessionCheck.{verify_solana_session, DepositSession, SessionStatus}
use tucanbit_tvs.Service.SessionCheck.Statements.{Keeps-verify_solana_session_under}
use tucanbit_tvs.Service.SessionCheck.Recorded.{check_inv, if_ok_inv}
use tucanbit_tvs.Effects.{Env, World}
use tucanbit_tvs.Effects.Keeps.{Writes}
use tucanbit_tvs.Db
use tucanbit_tvs.Db.Rows.{Db, TransactionRow, BalanceRow, WithdrawalRow, BalanceLogRow, UserRow}
use tucanbit_tvs.Db.Balances.{update_balances_inv, of_user}
use tucanbit_tvs.Prelude.{String, List, Option, ◌≡◌, refl, sym, ap, ◌∙◌, map, map-update_where}
use tucanbit_tvs.Prelude.Int.{ℤ}

-- The owner, the currency and the reserve of a balance, in cents and in units.
abbrev pub Reserve : Type 0
Reserve = String × (String × (Option ℤ × Option String))

abbrev pub reserve_of : BalanceRow → Reserve
reserve_of r = (r.user_id, (r.currency_code, (r.reserved_cents, r.reserved_units)))

abbrev pub Others : Type 0
Others = List WithdrawalRow × (List BalanceLogRow × (List UserRow × List Reserve))

-- The withdrawals, the log of the balances, the users, and the reserves.
abbrev pub others : Db → Others
others db = (db.withdrawals, (db.balance_logs, (db.users, map reserve_of db.balances)))

abbrev Untouched : Others → Db → Type 0
Untouched before db = others db ≡ before

module _ (before : Others) where
  creates_frame :
      (row : TransactionRow) → Writes (Untouched before) (Db.Transactions.create_transaction row)
  unfolding Db.Transactions.create_transaction
  creates_frame row = record {
    at = λ stamp db db' h e. sym (ap others (if_ok_inv _ _ db' _ e)) ∙ h;
  }

  updates_frame :
      (user currency : String) (cents : ℤ) (units : String)
      → Writes (Untouched before) (Db.Balances.update_balance user currency cents units)
  unfolding Db.Balances.update_balance
  updates_frame user currency cents units = record {
    at = λ stamp db db' h e.
        ap others (update_balances_inv _ _ db db' e)
        ∙ ap (λ m. (db.withdrawals, (db.balance_logs, (db.users, m))))
            (map-update_where reserve_of (of_user user currency) _ db.balances (λ r p. refl))
        ∙ h;
  }

  statuses_frame :
      (id : String) (status : SessionStatus) (message : Option String)
      → Writes (Untouched before) (Db.Sessions.update_deposit_session_status id status message)
  unfolding Db.Sessions.update_deposit_session_status
  statuses_frame id status message = record {
    at = λ stamp db db' h e. sym (ap others (check_inv status _ db' e)) ∙ h;
  }

  completes_frame :
      (id : String) (status : SessionStatus) (metadata message : Option String)
      → Writes (Untouched before) (Db.Sessions.complete_deposit_session id status metadata message)
  unfolding Db.Sessions.complete_deposit_session
  completes_frame id status metadata message = record {
    at = λ stamp db db' h e. sym (ap others (check_inv status _ db' e)) ∙ h;
  }

-- Whatever the check of a deposit session does and whatever fails on its way, it leaves the
-- withdrawals, the log of the balances and the users as they were, and of every balance the owner,
-- the currency and the reserve, both its cents and its units.
pub verify_solana_session-others :
    (env : Env) (w : World) (session : DepositSession)
    → others (verify_solana_session session env w).1.db ≡ others w.db
verify_solana_session-others env w session =
    (Keeps-verify_solana_session_under (creates_frame (others w.db)) (updates_frame (others w.db))
        (statuses_frame (others w.db)) (completes_frame (others w.db)) session).at
      w refl
