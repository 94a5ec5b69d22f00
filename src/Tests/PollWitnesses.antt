-- ===== src/Tests/PollWitnesses.antt =====
-- The theorems on the polls at concrete inputs.
use tucanbit_tvs.Tests.{test_env, test_world, withdrawal_world}
use tucanbit_tvs.Service.Poll.Recorded.{HasSessionIds, process_pending_sessions-Recorded}
use tucanbit_tvs.Service.Poll.Settled.{HasWithdrawalIds, process_pending_withdrawals-Settled}
use tucanbit_tvs.Service.Poll.SessionPages.{process_pending_sessions-ends}
use tucanbit_tvs.Service.Poll.Sessions.{process_pending_sessions}
use tucanbit_tvs.Service.Poll.Withdrawals.{process_pending_withdrawals}
use tucanbit_tvs.Service.SessionCheck.Recorded.{Recorded}
use tucanbit_tvs.Service.WithdrawalCheck.Recorded.{Settled}
use tucanbit_tvs.Service.Poll.Named.{OnSome}
use tucanbit_tvs.Effects.Triple.{Post}
use tucanbit_tvs.Service.System.{
  System, session_job, run_job, after_withdrawals, work, poll_withdrawals, here, next,
}
use tucanbit_tvs.Service.System.Reachable.{SystemHolds, Reach-SystemHolds}
use tucanbit_tvs.Service.System.Jobs.{DbHolds}
use tucanbit_tvs.Tests.{test_session}
use tucanbit_tvs.Prelude.{refl, All, ◌≢◌, none, arith, ◌∷◌, []}
use tucanbit_tvs.Db.Rows.{ok}

test_world-HasSessionIds : HasSessionIds test_world.db
unfolding HasSessionIds
test_world-HasSessionIds = ((λ e. cc e), tt)

test_world-Recorded : Recorded test_world.db
unfolding Recorded
test_world-Recorded = (refl, tt)

process_pending_sessions-Recorded_example :
    Post
      (λ db. HasSessionIds db × Recorded db)
      (λ jobs db. OnSome (All (λ s. s.session_id ≢ "")) jobs × (HasSessionIds db × Recorded db))
      (process_pending_sessions 2 test_env test_world).0
      (process_pending_sessions 2 test_env test_world).1.db
process_pending_sessions-Recorded_example =
    process_pending_sessions-Recorded test_env 2 test_world test_world-HasSessionIds
      test_world-Recorded

process_pending_sessions-ends_example : (process_pending_sessions 2 test_env test_world).0 ≢ ok none
process_pending_sessions-ends_example =
    process_pending_sessions-ends test_env 2 test_world (omega arith)

withdrawal_world-HasWithdrawalIds : HasWithdrawalIds withdrawal_world.db
unfolding HasWithdrawalIds
withdrawal_world-HasWithdrawalIds = ((λ e. cc e), tt)

withdrawal_world-Settled : Settled withdrawal_world.db
unfolding Settled
withdrawal_world-Settled = (refl, tt)

process_pending_withdrawals-Settled_example :
    Post
      (λ db. HasWithdrawalIds db × Settled db)
      (λ jobs db.
        OnSome (All (λ x. x.withdrawal_id ≢ "")) jobs × (HasWithdrawalIds db × Settled db))
      (process_pending_withdrawals 2 test_env withdrawal_world).0
      (process_pending_withdrawals 2 test_env withdrawal_world).1.db
process_pending_withdrawals-Settled_example =
    process_pending_withdrawals-Settled test_env 2 withdrawal_world
      withdrawal_world-HasWithdrawalIds withdrawal_world-Settled

abbrev waiting : System
waiting = record { world = test_world; jobs = session_job test_session ∷ [] }

waiting-SystemHolds : SystemHolds waiting
unfolding SystemHolds DbHolds HasWithdrawalIds Settled
waiting-SystemHolds =
    (((test_world-HasSessionIds, test_world-Recorded), (tt, tt)), ((λ e. cc e), tt))

-- The goroutine has run, and a poll after it.
abbrev worked : System
worked =
    after_withdrawals test_env 2
      (record { world = (run_job (session_job test_session) test_env test_world).1; jobs = [] })

Reach-SystemHolds_example : SystemHolds worked
Reach-SystemHolds_example =
    Reach-SystemHolds waiting-SystemHolds
      (next (next here (work [] [] (session_job test_session) test_world)) (poll_withdrawals 2 _))
