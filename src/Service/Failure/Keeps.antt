-- ===== src/Service/Failure/Keeps.antt =====
-- Invariants of the database along `markWithdrawalFailed`.
use tucanbit_tvs.Db
use tucanbit_tvs.Repo
use tucanbit_tvs.Effects.Keeps.{
  Keeps, Writes, Keeps-pure, Keeps-bind, Keeps-wrap, Keeps-asks, Keeps-new_uuid, Keeps-time_now,
  Keeps-ignore_error, Keeps-send, Keeps-attempt, Keeps-if,
}
use tucanbit_tvs.Repo.Keeps.{
  Keeps-update_withdrawal, Keeps-release_reserved_balance, Keeps-log_balance_change,
}
use tucanbit_tvs.Effects.{Try, done, error, Env}
use tucanbit_tvs.Prelude.{refl, Option, String, ◌≡◌, false, true}
use tucanbit_tvs.Db.Rows.{Db, BalanceLogRow}
use tucanbit_tvs.Domain.Withdrawal.{WithdrawalStatus, same_withdrawal_status, Withdrawal}
use tucanbit_tvs.Prelude.Int.{ℤ}
use tucanbit_tvs.Service.Failure.{after_release, release_reservation, mark_withdrawal_failed}

-- A condition that the statements of `markWithdrawalFailed` keep, which sets no withdrawal to
-- completed.
module _ {env : Env} {P : Db → Type 0}
    (updates : (hash : Option String) (status : WithdrawalStatus) (message : Option String)
        (id : String)
      → same_withdrawal_status status WithdrawalStatus.completed ≡ false
      → Writes P (Db.Withdrawals.update_withdrawal hash status message id))
    (releases : (user currency : String) (cents : ℤ)
      → Writes P (Db.Balances.release_reserved_balance user currency cents))
    (logs : (row : BalanceLogRow) → Writes P (λ stamp. Db.Balances.log_balance_change row)) where
  Keeps-update_failed :
      (withdrawal : Withdrawal)
      → same_withdrawal_status withdrawal.status WithdrawalStatus.completed ≡ false
      → Keeps env P (Repo.Withdrawals.update_withdrawal withdrawal)
  Keeps-update_failed withdrawal e =
      Keeps-update_withdrawal withdrawal
        (λ hash message. updates hash withdrawal.status message withdrawal.withdrawal_id e)

  Keeps-after_release :
      (withdrawal : Withdrawal) (reason : String) (released : Try (Unit {0}))
      → same_withdrawal_status withdrawal.status WithdrawalStatus.completed ≡ false
      → Keeps env P (after_release withdrawal reason released)
  unfolding after_release
  Keeps-after_release withdrawal reason (error e) h = Keeps-pure withdrawal
  Keeps-after_release withdrawal reason (done _) h = Keeps-bind _ _ (Keeps-asks _) (λ ops.
      Keeps-bind _ _ Keeps-new_uuid (λ id. Keeps-bind _ _ Keeps-time_now (λ now.
        Keeps-bind _ _ (Keeps-ignore_error _ (Keeps-log_balance_change _ logs)) (λ _.
          Keeps-bind _ _ Keeps-time_now (λ released_at.
            Keeps-bind _ _
              (Keeps-ignore_error _ (
                Keeps-update_failed
                  (record withdrawal {
                    reservation_released = true;
                    reservation_released_at = released_at;
                  })
                  h))
              (λ _. Keeps-pure _))))))

  Keeps-release_reservation :
      (withdrawal : Withdrawal) (reason : String)
      → same_withdrawal_status withdrawal.status WithdrawalStatus.completed ≡ false
      → Keeps env P (release_reservation withdrawal reason)
  unfolding release_reservation
  Keeps-release_reservation withdrawal reason h = Keeps-if _ _ _ (Keeps-pure withdrawal) (
      Keeps-bind _ _
        (Keeps-attempt _ (Keeps-release_reserved_balance _ _ _ (λ u. releases u "USD" _)))
        (λ released. Keeps-after_release withdrawal reason released h))

  pub Keeps-mark_withdrawal_failed :
      (withdrawal : Withdrawal) (reason : String)
      → Keeps env P (mark_withdrawal_failed withdrawal reason)
  unfolding mark_withdrawal_failed
  Keeps-mark_withdrawal_failed withdrawal reason = Keeps-if _ _ _ (Keeps-pure tt) (
      Keeps-bind _ _ Keeps-time_now (λ now.
        Keeps-bind _ _
          (Keeps-wrap _ _ (
            Keeps-update_failed
              (record withdrawal { status = WithdrawalStatus.failed; updated_at = now }) refl))
          (λ _.
            Keeps-bind _ _
              (Keeps-release_reservation
                (record withdrawal { status = WithdrawalStatus.failed; updated_at = now }) reason
                refl)
              (λ released. Keeps-send _))))
