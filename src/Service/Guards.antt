-- ===== src/Service/Guards.antt =====
-- The look for an existing transaction in verifySolanaSession, verifySolanaWithdrawal,
-- processVerifiedDeposit and processVerifiedWithdrawal.
use tucanbit_tvs.Effects.{Env, World, Try, attempt, done, error}
use tucanbit_tvs.Effects.Returns.{
  Returns, Returns-bind, Returns-pure, Returns-any, Returns-attempt, Returns-raise,
}
use tucanbit_tvs.Repo.Transactions.{
  map_to_domain_transaction, get_by_hash, get_by_deposit_session_id, get_by_withdrawal_id, or_empty,
  missing,
}
use tucanbit_tvs.Prelude.{refl, String, ◌≡◌, ◌≢◌, false, Bool, ne_test, ◌&&◌, sym, arith}
use tucanbit_tvs.Domain.Transaction.{Transaction}
use tucanbit_tvs.Db.Rows.{Sentinel, TransactionRow, GoError, ok}
use tucanbit_tvs.Service.Deposit.{is_transaction_of_session}
use tucanbit_tvs.Service.Withdrawal.{is_transaction_of_withdrawal}

-- The transaction carries neither the id of a session nor the id of a withdrawal.
IsUnlinked : Transaction → Type 0
IsUnlinked tx = (tx.deposit_session_id ≡ "") × (tx.withdrawal_id ≡ "")

-- No transaction that was found carries an id.
IsUnlinkedTry : Try Transaction → Type 0
unfolding IsUnlinked
IsUnlinkedTry (done tx) = IsUnlinked tx
IsUnlinkedTry (error e) = Unit

module _ {env : Env} where
  Returns-missing :
      (sentinel : Sentinel) (e : GoError) → Returns env (missing sentinel e) IsUnlinked
  unfolding IsUnlinked
  Returns-missing Sentinel.pgx_no_rows e = Returns-pure _ (refl, refl)
  Returns-missing Sentinel.plain e = Returns-raise e
  Returns-missing Sentinel.sql_no_rows e = Returns-raise e

  Returns-or_empty : (found : Try TransactionRow) → Returns env (or_empty found) IsUnlinked
  unfolding or_empty IsUnlinked map_to_domain_transaction
  Returns-or_empty (done row) = Returns-pure _ (refl, refl)
  Returns-or_empty (error e) = Returns-missing e.sentinel e

  Returns-get_by_hash :
      (chain hash : String) → Returns env (attempt (get_by_hash chain hash)) IsUnlinkedTry
  unfolding get_by_hash IsUnlinkedTry
  Returns-get_by_hash chain hash =
      Returns-attempt _ (Returns-bind _ _ (Returns-any _) (λ found _. Returns-or_empty found))
        (λ tx h. h) (λ e. tt)

  Returns-get_by_deposit_session_id :
      (id : String) → Returns env (attempt (get_by_deposit_session_id id)) IsUnlinkedTry
  unfolding get_by_deposit_session_id IsUnlinkedTry IsUnlinked map_to_domain_transaction
  Returns-get_by_deposit_session_id id =
      Returns-attempt _ (Returns-bind _ _ (Returns-any _) (λ row _. Returns-pure _ (refl, refl)))
        (λ tx h. h) (λ e. tt)

  Returns-get_by_withdrawal_id :
      (id : String) → Returns env (attempt (get_by_withdrawal_id id)) IsUnlinkedTry
  unfolding get_by_withdrawal_id IsUnlinkedTry IsUnlinked map_to_domain_transaction
  Returns-get_by_withdrawal_id id =
      Returns-attempt _ (Returns-bind _ _ (Returns-any _) (λ row _. Returns-pure _ (refl, refl)))
        (λ tx h. h) (λ e. tt)

and_false : (b : Bool) → (b && false) ≡ false
and_false b = ground arith

unlinked_is_of_no_session :
    (id : String) (found : Try Transaction)
    → id ≢ ""
    → IsUnlinkedTry found
    → is_transaction_of_session id found ≡ false
unfolding is_transaction_of_session IsUnlinkedTry IsUnlinked
unlinked_is_of_no_session id (error e) n h = refl
unlinked_is_of_no_session id (done tx) n h = rw (h.0, ne_test "" id (λ e. n (sym e))) (and_false _)

unlinked_is_of_no_withdrawal :
    (id : String) (found : Try Transaction)
    → id ≢ ""
    → IsUnlinkedTry found
    → is_transaction_of_withdrawal id found ≡ false
unfolding is_transaction_of_withdrawal IsUnlinkedTry IsUnlinked
unlinked_is_of_no_withdrawal id (error e) n h = refl
unlinked_is_of_no_withdrawal id (done tx) n h =
    rw (h.1, ne_test "" id (λ e. n (sym e))) (and_false _)

-- The three ways in which the service looks for an earlier transaction (by the session's id, by the
-- withdrawal's id, by the hash) never lead to "already processed" for ids that are not empty,
-- whatever the tables hold: `mapToDomainTransaction` leaves out the ids that the guards compare.
pub guards-never_fire :
    (env : Env) (w : World) (session_id withdrawal_id chain hash : String)
    (by_session by_withdrawal by_hash : Try Transaction)
    → session_id ≢ ""
    → withdrawal_id ≢ ""
    → (attempt (get_by_deposit_session_id session_id) env w).0 ≡ ok by_session
    → (attempt (get_by_withdrawal_id withdrawal_id) env w).0 ≡ ok by_withdrawal
    → (attempt (get_by_hash chain hash) env w).0 ≡ ok by_hash
    → (is_transaction_of_session session_id by_session ≡ false)
      × (is_transaction_of_withdrawal withdrawal_id by_withdrawal ≡ false)
      × (is_transaction_of_session session_id by_hash ≡ false)
      × (is_transaction_of_withdrawal withdrawal_id by_hash ≡ false)
guards-never_fire env w s d chain hash by_session by_withdrawal by_hash ns nd hs hd hh =
    let unlinked = (Returns-get_by_hash chain hash).at w by_hash hh in
    (
      unlinked_is_of_no_session s by_session ns
          ((Returns-get_by_deposit_session_id s).at w by_session hs),
      unlinked_is_of_no_withdrawal d by_withdrawal nd
          ((Returns-get_by_withdrawal_id d).at w by_withdrawal hd),
      unlinked_is_of_no_session s by_hash ns unlinked,
      unlinked_is_of_no_withdrawal d by_hash nd unlinked,
    )
