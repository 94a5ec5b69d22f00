-- ===== src/Service/WithdrawalCheck/Settlement.antt =====
-- The invariant of completed withdrawals along `processVerifiedWithdrawal`.
use tucanbit_tvs.Service.Withdrawal.{process_verified_withdrawal}
use tucanbit_tvs.Db
use tucanbit_tvs.Service.WithdrawalCheck.{Withdrawal, HeliusTransaction, WithdrawalStatus}
use tucanbit_tvs.Service.SessionCheck.Completed.{null_string_lem}
use tucanbit_tvs.Effects.{Env, Action, ◌>>=◌, wrap}
use tucanbit_tvs.Effects.Keeps.{
  Keeps, Writes, keeps_rules, Keeps-pure, Keeps-bind, Keeps-wrap, Keeps-asks, Keeps-new_uuid,
  Keeps-time_now, Keeps-lift, Keeps-attempt, Keeps-if,
}
use tucanbit_tvs.Effects.Triple.{
  Triple, Triple-bind, Triple-pure, Triple-if, Triple-fact, Triple-wrap, Keeps-Triple, Triple-Keeps,
  Triple-execute,
}
use tucanbit_tvs.Repo
use tucanbit_tvs.Repo.Keeps.{
  Keeps-update_withdrawal, Keeps-release_reserved_balance, Keeps-get_balance, Keeps-update_balance,
  Keeps-get_by_hash,
}
use tucanbit_tvs.Service.WithdrawalCheck.Recorded.{
  Settled, SettledWith, update_withdrawal-SettledWith, update_balance-SettledWith,
  release-SettledWith, create-SettledWith,
}
use tucanbit_tvs.Prelude.{refl, List, String, ◌≢◌, ◌≡◌, subst, sym}
use tucanbit_tvs.Db.Rows.{Db}
use tucanbit_tvs.Service.Withdrawal.{
  release_on_success, settle_withdrawal, record_withdrawal, withdrawal_transaction, parse_or_fail,
}
use tucanbit_tvs.Domain.Transaction.{Transaction}
use tucanbit_tvs.Float.{Float}

module _ {env : Env} where
  pub Keeps-parse_or_fail : {P : Db → Type 0} (what s : String) → Keeps env P (parse_or_fail what s)
  Keeps-parse_or_fail what s = record { at = λ w h. h }

  Triple-release_on_success :
      (withdrawal : Withdrawal) (id : String)
      → withdrawal.withdrawal_id ≡ id
      → Triple env
          (SettledWith id)
          (release_on_success withdrawal)
          (λ released db. (released.withdrawal_id ≡ id) × SettledWith id db)
  unfolding release_on_success
  Triple-release_on_success withdrawal id e =
      Triple-if withdrawal.reservation_released _ _ (λ _. Triple-pure withdrawal (λ db h. (e, h)))
        (λ _.
          Triple-bind {Q = λ _ db. SettledWith id db} _ _
            (Triple-Keeps _
              (Keeps-wrap _ _
                (Keeps-release_reserved_balance _ _ _ (λ u. release-SettledWith id u "USD" _)))
              (λ _ db h. h))
            (λ _.
              Triple-bind {Q = λ _ db. SettledWith id db} _ _
                (Triple-Keeps _ Keeps-time_now (λ _ db h. h))
                (λ now. Triple-pure _ (λ db h. (e, h))) (λ _ db h. h))
            (λ _ db h. h))

  Keeps-finish :
      (withdrawal : Withdrawal) (id : String) (f : Withdrawal → Action (Unit {0}))
      → withdrawal.withdrawal_id ≡ id
      → ((released : Withdrawal)
          → released.withdrawal_id ≡ id
          → Keeps env (SettledWith id) (f released))
      → Keeps env (SettledWith id) (release_on_success withdrawal >>= f)
  Keeps-finish withdrawal id f e k =
      Keeps-Triple {Q = λ _. SettledWith id} _
        (Triple-bind _ _ (Triple-release_on_success withdrawal id e)
          (λ released. Triple-fact _ (λ same. Triple-Keeps _ (k released same) (λ _ db h. h)))
          (λ _ db h. h.1))
        (λ _ db h. h)

  Keeps-update_own :
      (withdrawal : Withdrawal) (id : String)
      → withdrawal.withdrawal_id ≡ id
      → Keeps env (SettledWith id) (Repo.Withdrawals.update_withdrawal withdrawal)
  Keeps-update_own withdrawal id e = Keeps-update_withdrawal withdrawal (λ hash message.
      subst
        (λ i.
          Writes (SettledWith id)
            (Db.Withdrawals.update_withdrawal hash withdrawal.status message i))
        (sym e) (update_withdrawal-SettledWith hash withdrawal.status message id))

  Keeps-settle_withdrawal :
      (withdrawal : Withdrawal) (amount rate : Float)
      → Keeps env (SettledWith withdrawal.withdrawal_id) (settle_withdrawal withdrawal amount rate)
  unfolding settle_withdrawal
  Keeps-settle_withdrawal withdrawal amount rate =
      Keeps-bind _ _ (Keeps-wrap _ _ (Keeps-get_balance _)) (λ balance.
        Keeps-bind _ _ (Keeps-asks _) (λ ops. Keeps-bind _ _ (Keeps-lift _) (λ updated.
          Keeps-bind _ _
            (Keeps-wrap _ _ (
              Keeps-update_balance _ _ _ _
                (λ u. update_balance-SettledWith withdrawal.withdrawal_id u "USD" _ _)))
            (λ _. Keeps-bind _ _ Keeps-time_now (λ balance_time.
              Keeps-finish withdrawal withdrawal.withdrawal_id _ refl (λ released same.
                Keeps-bind _ _ Keeps-time_now (λ now.
                  Keeps-bind _ _
                    (Keeps-wrap _ _ (
                      Keeps-update_own
                        (record released { status = WithdrawalStatus.completed; updated_at = now })
                        withdrawal.withdrawal_id same))
                    (λ _. search keeps_rules))))))))

  Triple-create :
      (tx : Transaction)
      → tx.withdrawal_id ≢ ""
      → Triple env Settled (Repo.Transactions.create tx) (λ _. SettledWith tx.withdrawal_id)
  unfolding Repo.Transactions.create Repo.Transactions.create_params
  Triple-create tx n = Triple-execute _ (λ stamp db db' h e.
      create-SettledWith tx.withdrawal_id _ stamp db db' (null_string_lem tx.withdrawal_id n) h e)

  Keeps-create_and_settle :
      (prefix : List String) (tx : Transaction) (withdrawal : Withdrawal) (amount rate : Float)
      → tx.withdrawal_id ≡ withdrawal.withdrawal_id
      → withdrawal.withdrawal_id ≢ ""
      → Keeps env Settled (
          wrap prefix (Repo.Transactions.create tx) >>= λ _.
          settle_withdrawal withdrawal amount rate)
  unfolding SettledWith
  Keeps-create_and_settle prefix tx withdrawal amount rate e n =
      Keeps-Triple {Q = λ _. SettledWith withdrawal.withdrawal_id} _
        (Triple-bind {Q = λ _. SettledWith withdrawal.withdrawal_id} _ _
          (Triple-wrap prefix _ (
            subst (λ id. Triple env Settled (Repo.Transactions.create tx) (λ _. SettledWith id)) e
              (Triple-create tx (subst (λ id. id ≢ "") (sym e) n))))
          (λ _. Triple-Keeps _ (Keeps-settle_withdrawal withdrawal amount rate) (λ _ db h. h))
          (λ _ db h. h.0))
        (λ _ db h. h.0)

  Keeps-record_withdrawal :
      (withdrawal : Withdrawal) (transaction : HeliusTransaction)
      → withdrawal.withdrawal_id ≢ ""
      → Keeps env Settled (record_withdrawal withdrawal transaction)
  unfolding record_withdrawal withdrawal_transaction
  Keeps-record_withdrawal withdrawal transaction n = Keeps-bind _ _ (Keeps-asks _) (λ metadata.
      Keeps-bind _ _ (Keeps-parse_or_fail _ _) (λ amount.
        Keeps-bind _ _ (Keeps-parse_or_fail _ _) (λ rate. Keeps-bind _ _ (Keeps-asks _) (λ ops.
          Keeps-bind _ _ Keeps-new_uuid (λ id.
            Keeps-bind _ _ Keeps-time_now
              (λ now. Keeps-create_and_settle _ _ withdrawal amount rate refl n))))))

  pub Keeps-process_verified_withdrawal :
      (withdrawal : Withdrawal) (transaction : HeliusTransaction)
      → withdrawal.withdrawal_id ≢ ""
      → Keeps env Settled (process_verified_withdrawal withdrawal transaction)
  unfolding process_verified_withdrawal
  Keeps-process_verified_withdrawal withdrawal transaction n =
      Keeps-bind _ _ (Keeps-attempt _ (Keeps-get_by_hash _ _)) (λ existing.
        Keeps-if _ _ _ (Keeps-pure tt) (Keeps-record_withdrawal withdrawal transaction n))
