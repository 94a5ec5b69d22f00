-- ===== src/Service/Poll/Settled.antt =====
-- The invariants along `processPendingWithdrawals`.
use tucanbit_tvs.Effects.Triple.{
  Triple, Triple-wrap, Triple-bind, Triple-fact, Triple-pure, Triple-if, Triple-Keeps, Post,
}
use tucanbit_tvs.Db
use tucanbit_tvs.Effects.Keeps.{Writes, Keeps, keeps_rules}
use tucanbit_tvs.Service.Poll.Withdrawals.{
  visit_withdrawal, visit_hashless, load_withdrawal_page, process_pending_withdrawals,
}
use tucanbit_tvs.Service.WithdrawalCheck.Recorded.{
  check_inv, Settled, update_withdrawal-Settled, release-Settled, log-Settled,
}
use tucanbit_tvs.Service.Failure.Keeps.{Keeps-mark_withdrawal_failed}
use tucanbit_tvs.Service.Failure.{mark_withdrawal_failed}
use tucanbit_tvs.Db.Frame.{release_reserved_balance_frame, log_balance_change_frame}
use tucanbit_tvs.Prelude.{[], Option, All, ◌≡◌, String, ℕ, ◌≢◌, subst, All-update_where, ◌==◌}
use tucanbit_tvs.Db.Rows.{Db, WithdrawalRow}
use tucanbit_tvs.Repo.Withdrawals.{load_withdrawal, load_pending_withdrawals}
use tucanbit_tvs.Effects.{Env, World}
use tucanbit_tvs.Domain.Withdrawal.{Withdrawal, WithdrawalStatus, same_withdrawal_status}
use tucanbit_tvs.Service.Poll.{ByChain, on_solana}
use tucanbit_tvs.Service.Poll.Recorded.{both}
use tucanbit_tvs.Service.Poll.Named.{
  IsNamed, OnSome, AreNamed, Triple-chains, OnSome-map, on_solana-AreNamed, append_to-AreNamed,
}
use tucanbit_tvs.Effects.Queries.{Triple-query}
use tucanbit_tvs.Service.Rules.{is_pdm_chain}
use tucanbit_tvs.Effects.Returns.{ok_injective}
use tucanbit_tvs.Db.Withdrawals.{has_withdrawal_id, is_pending_withdrawal}
use tucanbit_tvs.Db.Pages.{All-page_of, All-mapped}

-- Every withdrawal of the tables has an id.
unfoldable pub HasWithdrawalIds : Db → Type 0
HasWithdrawalIds db = All (λ row. row.withdrawal_id ≢ "") db.withdrawals

load-IsNamed :
    (row : WithdrawalRow)
    → row.withdrawal_id ≢ ""
    → IsNamed (λ x. x.withdrawal_id) (λ x. x.chain_id) (load_withdrawal row)
unfolding load_withdrawal
load-IsNamed row n s = n

-- A condition of the tables that holds while withdrawals fail.
module _ {env : Env} {P : Db → Type 0}
    (fails : (withdrawal : Withdrawal) (reason : String)
      → Keeps env P (mark_withdrawal_failed withdrawal reason)) where
  pub Keeps-visit_hashless : (withdrawal : Withdrawal) → Keeps env P (visit_hashless withdrawal)
  unfolding visit_hashless
  Keeps-visit_hashless withdrawal = search (keeps_rules, fails) depth 8

  Triple-visit_withdrawal :
      (withdrawal : Withdrawal) (chains : ByChain Withdrawal)
      → IsNamed (λ x. x.withdrawal_id) (λ x. x.chain_id) withdrawal
      → AreNamed (λ x. x.withdrawal_id) (λ x. x.chain_id) chains
      → Triple env P
          (visit_withdrawal withdrawal chains)
          (λ chains' db. AreNamed (λ x. x.withdrawal_id) (λ x. x.chain_id) chains' × P db)
  unfolding visit_withdrawal
  Triple-visit_withdrawal withdrawal chains n c =
      Triple-if (is_pdm_chain withdrawal.chain_id) _ _ (λ _. Triple-pure chains (λ db h. (c, h)))
        (λ _.
          Triple-if (same_withdrawal_status withdrawal.status WithdrawalStatus.completed) _ _
            (λ _. Triple-pure chains (λ db h. (c, h)))
            (λ _.
              Triple-if (withdrawal.tx_hash == "") _ _
                (λ _.
                  Triple-bind {Q = λ _. P} _ _
                    (Triple-Keeps _ (Keeps-visit_hashless withdrawal) (λ _ db h. h))
                    (λ _. Triple-pure chains (λ db h. (c, h))) (λ _ db h. h))
                (λ _. Triple-pure _ (λ db h. (
                  append_to-AreNamed (λ x. x.withdrawal_id) (λ x. x.chain_id) withdrawal chains n c,
                  h,
                )))))

  Triple-load_withdrawal_page :
      ((db : Db) → P db → HasWithdrawalIds db)
      → (limit offset : ℕ)
      → Triple env P
          (load_withdrawal_page limit offset)
          (λ page db. All (IsNamed (λ x. x.withdrawal_id) (λ x. x.chain_id)) page × P db)
  unfolding load_withdrawal_page load_pending_withdrawals Db.Withdrawals.list_pending_withdrawals
      HasWithdrawalIds
  Triple-load_withdrawal_page names limit offset = Triple-wrap _ _ (
      Triple-bind {Q = λ rows db. All (λ r. r.withdrawal_id ≢ "") rows × P db} _ _
        (Triple-query _ (λ rows db h e. (
          subst (All _) (ok_injective _ _ e) (
              All-page_of (λ r. r.withdrawal_id ≢ "") (λ r. r.created_at) is_pending_withdrawal
                limit offset db.withdrawals (names db h)),
          h,
        )))
        (λ rows.
          Triple-fact _ (λ g. Triple-pure _ (λ db h. (All-mapped _ _ _ rows load-IsNamed g, h))))
        (λ _ db h. h.1))

  -- The withdrawals that are handed to goroutines have an id.
  pub Triple-process_pending_withdrawals :
      ((db : Db) → P db → HasWithdrawalIds db)
      → (fuel : ℕ)
      → Triple env P
          (process_pending_withdrawals fuel)
          (λ jobs db. OnSome (All (λ x. x.withdrawal_id ≢ "")) jobs × P db)
  unfolding process_pending_withdrawals
  Triple-process_pending_withdrawals names fuel =
      Triple-bind _ _
        (Triple-chains (IsNamed (λ x. x.withdrawal_id) (λ x. x.chain_id))
          (AreNamed (λ x. x.withdrawal_id) (λ x. x.chain_id)) load_withdrawal_page visit_withdrawal
          (Triple-load_withdrawal_page names) Triple-visit_withdrawal fuel 0 [] tt)
        (λ collected. Triple-fact _ (λ c. Triple-pure _ (λ db h. (
          OnSome-map _ _ on_solana collected
              (on_solana-AreNamed (λ x. x.withdrawal_id) (λ x. x.chain_id)) c,
          h,
        ))))
        (λ _ db h. h.1)

pub same_withdrawals :
    (db db' : Db) → db'.withdrawals ≡ db.withdrawals → HasWithdrawalIds db → HasWithdrawalIds db'
unfolding HasWithdrawalIds
same_withdrawals db db' s h = rw s h

pub update-HasWithdrawalIds :
    (hash : Option String) (status : WithdrawalStatus) (message : Option String) (id : String)
    → Writes HasWithdrawalIds (Db.Withdrawals.update_withdrawal hash status message id)
unfolding Db.Withdrawals.update_withdrawal HasWithdrawalIds
update-HasWithdrawalIds hash status message id = record {
  at = λ stamp db db' h e.
      subst HasWithdrawalIds (check_inv status _ db' e)
        (All-update_where (has_withdrawal_id id) _ db.withdrawals (λ row p r. r) (λ row r. r) h);
}

Keeps-failing :
    {env : Env} (withdrawal : Withdrawal) (reason : String)
    → Keeps env (λ db. HasWithdrawalIds db × Settled db) (mark_withdrawal_failed withdrawal reason)
Keeps-failing =
    Keeps-mark_withdrawal_failed
      (λ hash status message id n.
        both (update-HasWithdrawalIds hash status message id)
          (update_withdrawal-Settled hash status message id n))
      (λ user currency cents.
        both
          (record {
            at = λ stamp db db' h e.
                same_withdrawals db db'
                  (release_reserved_balance_frame user currency cents stamp db db' e).1 h;
          })
          (release-Settled user currency cents))
      (λ row.
        both
          (record {
            at = λ stamp db db' h e.
                same_withdrawals db db' (log_balance_change_frame row db db' e).1 h;
          })
          (log-Settled row))

-- If every withdrawal has an id and every completed withdrawal has a transaction, then so it is
-- after `processPendingWithdrawals`, however it ends, and every withdrawal that it starts a
-- goroutine for has an id.
pub process_pending_withdrawals-Settled :
    (env : Env) (fuel : ℕ) (w : World)
    → HasWithdrawalIds w.db
    → Settled w.db
    → Post
        (λ db. HasWithdrawalIds db × Settled db)
        (λ jobs db.
          OnSome (All (λ x. x.withdrawal_id ≢ "")) jobs × (HasWithdrawalIds db × Settled db))
        (process_pending_withdrawals fuel env w).0
        (process_pending_withdrawals fuel env w).1.db
process_pending_withdrawals-Settled env fuel w named settled =
    (Triple-process_pending_withdrawals Keeps-failing (λ db h. h.0) fuel).at w (named, settled)
