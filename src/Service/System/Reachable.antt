-- ===== src/Service/System/Reachable.antt =====
-- What holds in every state that the service reaches.
use tucanbit_tvs.Effects.{Env}
use tucanbit_tvs.Domain.Session.{SessionStatus}
use tucanbit_tvs.Effects.Triple.{Post, Triple}
use tucanbit_tvs.Service.System.{
  Job, session_job, withdrawal_job, started, System, Step, poll_sessions, poll_withdrawals, work,
  Reach, here, next, Result,
}
use tucanbit_tvs.Service.System.Conditions.{
  session-WithdrawalsHold, release-SessionsHold, log-SessionsHold, withdrawal-SessionsHold,
  release-WithdrawalsHold, log-WithdrawalsHold,
}
use tucanbit_tvs.Service.System.Jobs.{DbHolds, IsNamedJob, run_job-DbHolds}
use tucanbit_tvs.Service.Poll.Recorded.{both, expire-HasSessionIds, Triple-process_pending_sessions}
use tucanbit_tvs.Service.Poll.Settled.{Triple-process_pending_withdrawals, update-HasWithdrawalIds}
use tucanbit_tvs.Service.Poll.Named.{OnSome}
use tucanbit_tvs.Service.Poll.Sessions.{process_pending_sessions}
use tucanbit_tvs.Service.Poll.Withdrawals.{process_pending_withdrawals}
use tucanbit_tvs.Service.SessionCheck.Recorded.{update_status-Recorded}
use tucanbit_tvs.Prelude.{◌∷◌, [], refl, All, ℕ, List, ◌≢◌, Option, ◌++◌, All-append, some, none}
use tucanbit_tvs.Service.Failure.Keeps.{Keeps-mark_withdrawal_failed}
use tucanbit_tvs.Db.Rows.{Db, ok, err, panic}
use tucanbit_tvs.Service.WithdrawalCheck.Recorded.{update_withdrawal-Settled}
use tucanbit_tvs.Db.Pages.{All-mapped}

-- The tables hold, and so do the rows that wait for their goroutine.
unfoldable pub SystemHolds : System → Type 0
SystemHolds s = DbHolds s.world.db × All IsNamedJob s.jobs

started-holds :
    {A : Type 0} (G : A → Type 0) (f : A → Job) (r : Result (Option (List A))) (db : Db)
    → ((a : A) → G a → IsNamedJob (f a))
    → Post DbHolds (λ jobs d. OnSome (All G) jobs × DbHolds d) r db
    → DbHolds db × All IsNamedJob (started f r)
started-holds G f (ok none) db k h = (h.1, tt)
started-holds G f (ok (some rows)) db k h = (h.1, All-mapped G IsNamedJob f rows k h.0)
started-holds G f (err e) db k h = (h, tt)
started-holds G f (panic text) db k h = (h, tt)

sessions_polled :
    (env : Env) (fuel : ℕ)
    → Triple env DbHolds
        (process_pending_sessions fuel)
        (λ jobs db. OnSome (All (λ s. s.session_id ≢ "")) jobs × DbHolds db)
unfolding DbHolds
sessions_polled env fuel =
    Triple-process_pending_sessions
      (λ id message.
        both
          (both (expire-HasSessionIds id message)
            (update_status-Recorded id SessionStatus.expired message refl))
          (session-WithdrawalsHold id SessionStatus.expired message))
      (λ db h. h.0.0) fuel

withdrawals_polled :
    (env : Env) (fuel : ℕ)
    → Triple env DbHolds
        (process_pending_withdrawals fuel)
        (λ jobs db. OnSome (All (λ x. x.withdrawal_id ≢ "")) jobs × DbHolds db)
unfolding DbHolds
withdrawals_polled env fuel =
    Triple-process_pending_withdrawals
      (Keeps-mark_withdrawal_failed
        (λ hash status message id n. both (withdrawal-SessionsHold hash status message id) (
          both (update-HasWithdrawalIds hash status message id)
            (update_withdrawal-Settled hash status message id n)))
        (λ user currency cents.
          both (release-SessionsHold user currency cents)
            (release-WithdrawalsHold user currency cents))
        (λ row. both (log-SessionsHold row) (log-WithdrawalsHold row)))
      (λ db h. h.1.0) fuel

All-drop_middle :
    (P : Job → Type 0) (earlier later : List Job) (job : Job)
    → All P (earlier ++ job ∷ later)
    → P job × All P (earlier ++ later)
All-drop_middle P [] later job (h, k) = (h, k)
All-drop_middle P (x ∷ earlier) later job (hx, h) =
    let (hj, rest) = All-drop_middle P earlier later job h in (hj, (hx, rest))

Step-SystemHolds : {env : Env} {s t : System} → Step env s t → SystemHolds s → SystemHolds t
unfolding SystemHolds
Step-SystemHolds {env} (poll_sessions fuel s) h =
    let (db, named) =
      started-holds (λ x. x.session_id ≢ "") session_job _ _ (λ a n. n)
        ((sessions_polled env fuel).at s.world h.0) in
    (db, All-append IsNamedJob s.jobs _ h.1 named)
Step-SystemHolds {env} (poll_withdrawals fuel s) h =
    let (db, named) =
      started-holds (λ x. x.withdrawal_id ≢ "") withdrawal_job _ _ (λ a n. n)
        ((withdrawals_polled env fuel).at s.world h.0) in
    (db, All-append IsNamedJob s.jobs _ h.1 named)
Step-SystemHolds {env} (work earlier later job w) h =
    let (n, rest) = All-drop_middle IsNamedJob earlier later job h.1 in
    (run_job-DbHolds env job w n h.0, rest)

-- If the sessions, the withdrawals and the waiting goroutines have ids, and the completed sessions and
-- withdrawals have transactions, then so it is in every state that the service reaches, whatever the
-- polls and the runs of goroutines are and in whatever order they come: a session or a withdrawal is
-- never completed without a recorded transaction.
pub Reach-SystemHolds : {env : Env} {s t : System} → SystemHolds s → Reach env s t → SystemHolds t
Reach-SystemHolds h here = h
Reach-SystemHolds h (next r step) = Step-SystemHolds step (Reach-SystemHolds h r)
