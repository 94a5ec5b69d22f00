-- ===== src/Service/System/Jobs.antt =====
-- What the goroutines keep.
use tucanbit_tvs.Db
use tucanbit_tvs.Service.System.{
  Job, session_job, withdrawal_job, run_job, Env, DepositSession, Withdrawal, World,
  verify_solana_session, verify_solana_withdrawal,
}
use tucanbit_tvs.Service.System.Conditions.{
  SessionsHold, WithdrawalsHold, create-SessionsHold, create-WithdrawalsHold, balance-SessionsHold,
  balance-WithdrawalsHold, release-SessionsHold, log-SessionsHold, withdrawal-SessionsHold,
  session-WithdrawalsHold, complete-WithdrawalsHold,
}
use tucanbit_tvs.Service.SessionCheck.Completed.{Keeps-verify_solana_session}
use tucanbit_tvs.Service.SessionCheck.Statements.{Keeps-verify_solana_session_under}
use tucanbit_tvs.Service.WithdrawalCheck.Completed.{Keeps-verify_solana_withdrawal}
use tucanbit_tvs.Service.WithdrawalCheck.Statements.{Keeps-verify_solana_withdrawal_under}
use tucanbit_tvs.Service.SessionCheck.Recorded.{check_inv}
use tucanbit_tvs.Service.Poll.Recorded.{HasSessionIds, both}
use tucanbit_tvs.Service.Poll.Settled.{HasWithdrawalIds, same_withdrawals, update-HasWithdrawalIds}
use tucanbit_tvs.Effects.Keeps.{Keeps, Writes, Keeps-ignore_error}
use tucanbit_tvs.Db.Frame.{
  update_balance_frame, log_balance_change_frame, release_reserved_balance_frame,
  create_transaction_frame,
}
use tucanbit_tvs.Db.Rows.{Db}
use tucanbit_tvs.Prelude.{String, ◌≢◌, ◌≡◌, Option, subst, All-update_where}
use tucanbit_tvs.Domain.Session.{SessionStatus}
use tucanbit_tvs.Db.Sessions.{has_session_id}

same-HasSessionIds :
    (db db' : Db) → db'.sessions ≡ db.sessions → HasSessionIds db → HasSessionIds db'
unfolding HasSessionIds
same-HasSessionIds db db' s h = rw s h

status-HasSessionIds :
    (id : String) (status : SessionStatus) (message : Option String)
    → Writes HasSessionIds (Db.Sessions.update_deposit_session_status id status message)
unfolding Db.Sessions.update_deposit_session_status HasSessionIds
status-HasSessionIds id status message = record {
  at = λ stamp db db' h e.
      subst HasSessionIds (check_inv status _ db' e)
        (All-update_where (has_session_id id) _ db.sessions (λ row p r. r) (λ row r. r) h);
}

complete-HasSessionIds :
    (id : String) (status : SessionStatus) (metadata message : Option String)
    → Writes HasSessionIds (Db.Sessions.complete_deposit_session id status metadata message)
unfolding Db.Sessions.complete_deposit_session HasSessionIds
complete-HasSessionIds id status metadata message = record {
  at = λ stamp db db' h e.
      subst HasSessionIds (check_inv status _ db' e)
        (All-update_where (has_session_id id) _ db.sessions (λ row p r. r) (λ row r. r) h);
}

-- The ids of the sessions, and all of the withdrawals.
BesideSessions : Db → Type 0
BesideSessions db = HasSessionIds db × WithdrawalsHold db

-- The ids of the withdrawals, and all of the sessions.
BesideWithdrawals : Db → Type 0
BesideWithdrawals db = HasWithdrawalIds db × SessionsHold db

Keeps-BesideSessions :
    {env : Env} (session : DepositSession)
    → Keeps env BesideSessions (verify_solana_session session)
unfolding BesideSessions
Keeps-BesideSessions =
    Keeps-verify_solana_session_under
      (λ row.
        both
          (record {
            at = λ stamp db db' h e.
                same-HasSessionIds db db' (create_transaction_frame row stamp db db' e).0 h;
          })
          (create-WithdrawalsHold row))
      (λ user currency cents units.
        both
          (record {
            at = λ stamp db db' h e.
                same-HasSessionIds db db'
                  (update_balance_frame user currency cents units stamp db db' e).0 h;
          })
          (balance-WithdrawalsHold user currency cents units))
      (λ id status message.
        both (status-HasSessionIds id status message) (session-WithdrawalsHold id status message))
      (λ id status metadata message.
        both (complete-HasSessionIds id status metadata message)
          (complete-WithdrawalsHold id status metadata message))

Keeps-BesideWithdrawals :
    {env : Env} (withdrawal : Withdrawal)
    → Keeps env BesideWithdrawals (verify_solana_withdrawal withdrawal)
unfolding BesideWithdrawals
Keeps-BesideWithdrawals =
    Keeps-verify_solana_withdrawal_under
      (λ row.
        both
          (record {
            at = λ stamp db db' h e.
                same_withdrawals db db' (create_transaction_frame row stamp db db' e).1 h;
          })
          (create-SessionsHold row))
      (λ user currency cents units.
        both
          (record {
            at = λ stamp db db' h e.
                same_withdrawals db db'
                  (update_balance_frame user currency cents units stamp db db' e).1 h;
          })
          (balance-SessionsHold user currency cents units))
      (λ user currency cents.
        both
          (record {
            at = λ stamp db db' h e.
                same_withdrawals db db'
                  (release_reserved_balance_frame user currency cents stamp db db' e).1 h;
          })
          (release-SessionsHold user currency cents))
      (λ row.
        both
          (record {
            at = λ stamp db db' h e.
                same_withdrawals db db' (log_balance_change_frame row db db' e).1 h;
          })
          (log-SessionsHold row))
      (λ hash status message id.
        both (update-HasWithdrawalIds hash status message id)
          (withdrawal-SessionsHold hash status message id))

-- All of the sessions and all of the withdrawals.
unfoldable pub DbHolds : Db → Type 0
DbHolds db = SessionsHold db × WithdrawalsHold db

-- The row that a goroutine verifies has an id.
abbrev pub IsNamedJob : Job → Type 0
IsNamedJob (session_job session) = session.session_id ≢ ""
IsNamedJob (withdrawal_job withdrawal) = withdrawal.withdrawal_id ≢ ""

pub run_job-DbHolds :
    (env : Env) (job : Job) (w : World)
    → IsNamedJob job
    → DbHolds w.db
    → DbHolds (run_job job env w).1.db
unfolding run_job DbHolds BesideSessions BesideWithdrawals
run_job-DbHolds env (session_job session) w n h =
    let side =
      (Keeps-ignore_error {env = env} _ (Keeps-BesideSessions session)).at w (h.0.0, h.1) in
    let recorded =
      (Keeps-ignore_error {env = env} _ (Keeps-verify_solana_session session n)).at w h.0.1 in
    ((side.0, recorded), side.1)
run_job-DbHolds env (withdrawal_job withdrawal) w n h =
    let side =
      (Keeps-ignore_error {env = env} _ (Keeps-BesideWithdrawals withdrawal)).at w (h.1.0, h.0) in
    let settled =
      (Keeps-ignore_error {env = env} _ (Keeps-verify_solana_withdrawal withdrawal n)).at w h.1.1 in
    (side.1, (side.0, settled))
