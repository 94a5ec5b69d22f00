-- ===== src/Service/System.antt =====
-- `StartTransactionVerification`, `processSolanaSessions` and `processSolanaWithdrawals` of
-- verification_service_impl.go: polls, and the goroutines that they start, in any order. A goroutine
-- runs from its start to its end before another one does.
pub mod Conditions
pub mod Jobs
pub mod Reachable
use tucanbit_tvs.Effects.{Env, World, Action, ignore_error}
use tucanbit_tvs.Service.SessionCheck.{verify_solana_session}
use tucanbit_tvs.Service.WithdrawalCheck.{verify_solana_withdrawal}
use tucanbit_tvs.Service.Poll.Sessions.{process_pending_sessions}
use tucanbit_tvs.Service.Poll.Withdrawals.{process_pending_withdrawals}
use tucanbit_tvs.Prelude.{◌∷◌, [], Option, List, ℕ, ◌++◌, some, map, none}
use tucanbit_tvs.Domain.Session.{DepositSession}
use tucanbit_tvs.Domain.Withdrawal.{Withdrawal}
use tucanbit_tvs.Db.Rows.{ok, err, panic, Result}

-- A goroutine of `processSolanaSessions` or `processSolanaWithdrawals`.
pub data Job : Type 0 where
  session_job : DepositSession → Job
  withdrawal_job : Withdrawal → Job

-- An error of the check is only logged.
unfoldable pub run_job : Job → Action (Unit {0})
run_job (session_job session) = ignore_error (verify_solana_session session)
run_job (withdrawal_job withdrawal) = ignore_error (verify_solana_withdrawal withdrawal)

-- The goroutines that a poll starts; an error of the poll is only logged.
abbrev pub started : {A : Type 0} → (A → Job) → Result (Option (List A)) → List Job
started f (ok none) = []
started f (ok (some rows)) = map f rows
started f (err e) = []
started f (panic text) = []

-- The service: the world and the goroutines that have not run.
pub record System : Type 0 where
  pub world : World
  pub jobs : List Job

abbrev pub after_sessions : Env → ℕ → System → System
after_sessions env fuel s =
    let polled = process_pending_sessions fuel env s.world in
    record { world = polled.1; jobs = s.jobs ++ started session_job polled.0 }

abbrev pub after_withdrawals : Env → ℕ → System → System
after_withdrawals env fuel s =
    let polled = process_pending_withdrawals fuel env s.world in
    record { world = polled.1; jobs = s.jobs ++ started withdrawal_job polled.0 }

-- A poll, or a run of one of the goroutines.
pub data Step (env : Env) : System → System → Type 0 where
  poll_sessions : (fuel : ℕ) (s : System) → Step env s (after_sessions env fuel s)
  poll_withdrawals : (fuel : ℕ) (s : System) → Step env s (after_withdrawals env fuel s)
  work :
      (earlier later : List Job) (job : Job) (w : World)
      → Step env
          (record { world = w; jobs = earlier ++ job ∷ later })
          (record { world = (run_job job env w).1; jobs = earlier ++ later })

pub data Reach (env : Env) (s : System) : System → Type 0 where
  here : Reach env s s
  next : {t u : System} → Reach env s t → Step env t u → Reach env s u
