-- ===== src/Tests/Witnesses.antt =====
-- The theorems at concrete inputs.
use tucanbit_tvs.Db.Transactions.{update_transaction_status}
use tucanbit_tvs.Effects.Calls.{execute}
use tucanbit_tvs.Effects.Calls.{time_now}
use tucanbit_tvs.Effects.Calls.{must_parse_uuid}
use tucanbit_tvs.Prelude.Int.{◌-ℤ◌}
use tucanbit_tvs.Prelude.Int.{◌+ℤ◌}
use tucanbit_tvs.Repo.Transactions.{or_empty}
use tucanbit_tvs.Db.Transactions.{get_transaction_by_hash}
use tucanbit_tvs.Db.Transactions.{get_transaction_by_withdrawal_id}
use tucanbit_tvs.Db.Transactions.{get_transaction_by_deposit_session_id}
use tucanbit_tvs.Effects.Calls.{query}
use tucanbit_tvs.Prelude.Int.{◌*ℤ◌}
use tucanbit_tvs.Effects.Calls.{helius_request}
use tucanbit_tvs.Helius.{or_missing}
use tucanbit_tvs.Effects.{wrap}
use tucanbit_tvs.Effects.{◌>>=◌}
use tucanbit_tvs.Tests.{
  withdrawal_world, recorded_world, stored, test_ops, payment, test_env, test_session, test_world,
  test_withdrawal, deposit_params, withdrawal_params, test_balance, SplTokenType, of_int, pos,
  FloatOps, ◌+ℤ◌, ◌-ℤ◌,
}
use tucanbit_tvs.Prelude.{
  ◌∷◌, [], refl, true, ◌⊎◌, ◌≢◌, Any, ◌≡◌, ◌*◌, ℕ, ◌<◌, ◌+◌, arith, none, false, ◌^◌, ◌≤◌, ◌/◌,
  String, All, ◌↔◌,
}
use tucanbit_tvs.Helius.{verify_deposit, verify_withdrawal}
use tucanbit_tvs.Service.SessionCheck.Recorded.{Recorded}
use tucanbit_tvs.Db.Balances.Totals.{totals, HasAmount}
use tucanbit_tvs.Service.Deposit.{find_match, no_match, is_transaction_of_session, credited}
use tucanbit_tvs.Effects.{error, attempt, done}
use tucanbit_tvs.Service.SessionCheck.{verify_solana_session}
use tucanbit_tvs.Service.Failure.{mark_withdrawal_failed}
use tucanbit_tvs.Domain.Transaction.{VerificationStatus}
use tucanbit_tvs.Db.Rows.{ok, plain_error}
use tucanbit_tvs.Helius.Settlements.{PaysWithdrawal, verify_withdrawal-pays}
use tucanbit_tvs.Service.SessionCheck.Completed.{verify_solana_session-Recorded}
use tucanbit_tvs.Helius.Payments.{PaysDeposit, verify_deposit-pays}
use tucanbit_tvs.Service.Deposit.Match.{IsMatch, find_match_sound}
use tucanbit_tvs.Float.{Float}
use tucanbit_tvs.Currency.{hundred, bankers_round}
use tucanbit_tvs.Service.Withdrawal.{debited, is_transaction_of_withdrawal}
use tucanbit_tvs.Effects.Bounded.{Ended}
use tucanbit_tvs.Exchange.{calculate_backoff, base_or_two, get_exchange_rate, second}
use tucanbit_tvs.Repo.Transactions.{
  update_status, get_by_deposit_session_id, get_by_withdrawal_id, get_by_hash,
}
use tucanbit_tvs.Currency.Amounts.{IsRoundedFrom, IsNear, bankers_round-IsNear}
use tucanbit_tvs.Currency.Rounding.{IsBankersRounding, bankers_round-negative_tie}
use tucanbit_tvs.Prelude.Int.{negsuc, ◌≤ℤ◌, InInt64, two63}
use tucanbit_tvs.Repo.Transactions.Status.{update_status-only_verified}
use tucanbit_tvs.Service.Deposit.Credit.{credited-IsExact, debited-IsExact, IsExact, units_of}
use tucanbit_tvs.Exchange.Ends.{get_exchange_rate-ends}
use tucanbit_tvs.Service.Guards.{guards-never_fire}
use tucanbit_tvs.Exchange.Backoff.{calculate_backoff-range}
use tucanbit_tvs.Service.Failure.Conservation.{mark_withdrawal_failed-totals}
use tucanbit_tvs.Service.WithdrawalCheck.Recorded.{Settled}
use tucanbit_tvs.Service.WithdrawalCheck.{verify_solana_withdrawal}
use tucanbit_tvs.Service.WithdrawalCheck.Completed.{verify_solana_withdrawal-Settled}
use tucanbit_tvs.Service.SessionCheck.Frame.{others, verify_solana_session-others}

verified : (verify_deposit deposit_params test_env test_world).0 ≡ ok (true, payment ∷ [])
unfolding verify_deposit ◌>>=◌ wrap or_missing helius_request
verified = refl

verify_deposit-pays_example :
    (true ≡ true) × Any (PaysDeposit test_env deposit_params) (payment ∷ [])
verify_deposit-pays_example =
    verify_deposit-pays test_env deposit_params test_world true (payment ∷ []) verified

settled : (verify_withdrawal withdrawal_params test_env test_world).0 ≡ ok (true, payment)
unfolding verify_withdrawal ◌>>=◌ wrap or_missing helius_request ◌*ℤ◌
settled = refl

verify_withdrawal-pays_example : (true ≡ true) × PaysWithdrawal test_env withdrawal_params payment
verify_withdrawal-pays_example =
    verify_withdrawal-pays test_env withdrawal_params test_world true payment settled

session_id_given : ◌≢◌ {A = String} "session" ""
session_id_given e = cc

pending-Recorded : Recorded test_world.db
unfolding Recorded
pending-Recorded = (refl, tt)

verify_solana_session-Recorded_example :
    Recorded (verify_solana_session test_session test_env test_world).1.db
verify_solana_session-Recorded_example =
    verify_solana_session-Recorded test_env test_session test_world session_id_given
      pending-Recorded

mark_withdrawal_failed-totals_example :
    All HasAmount
      (mark_withdrawal_failed test_withdrawal "reason" test_env test_world).1.db.balances
    × (totals (mark_withdrawal_failed test_withdrawal "reason" test_env test_world).1.db
        ≡ totals test_world.db)
mark_withdrawal_failed-totals_example =
    mark_withdrawal_failed-totals test_env test_withdrawal "reason" test_world (refl, tt)

matching :
    find_match test_ops test_session SplTokenType.sol
      (of_int (pos 2))
      (error (plain_error ""))
      9
      (payment ∷ [])
      no_match
    ≡ ok (payment, of_int (pos 2))
unfolding find_match ◌*ℤ◌
matching = refl

signature_given : ◌≢◌ {A = String} "signature" ""
signature_given e = cc

find_match_sound_example :
    Any (λ tx. payment ≡ tx) (payment ∷ [])
    × IsMatch test_ops test_session SplTokenType.sol
        (of_int (pos 2))
        (error (plain_error ""))
        9
        (payment, of_int (pos 2))
find_match_sound_example =
    find_match_sound test_ops test_session SplTokenType.sol (of_int (pos 2))
      (error (plain_error "")) 9 (payment ∷ []) (payment, of_int (pos 2)) matching signature_given

looked_up_session :
    (attempt (get_by_deposit_session_id "session") test_env recorded_world).0 ≡ ok (done stored)
unfolding attempt get_by_deposit_session_id ◌>>=◌ query get_transaction_by_deposit_session_id
looked_up_session = refl

looked_up_withdrawal :
    (attempt (get_by_withdrawal_id "withdrawal") test_env recorded_world).0 ≡ ok (done stored)
unfolding attempt get_by_withdrawal_id ◌>>=◌ query get_transaction_by_withdrawal_id
looked_up_withdrawal = refl

looked_up_hash :
    (attempt (get_by_hash "sol-mainnet" "signature") test_env recorded_world).0 ≡ ok (done stored)
unfolding attempt get_by_hash ◌>>=◌ query get_transaction_by_hash or_empty
looked_up_hash = refl

withdrawal_id_given : ◌≢◌ {A = String} "withdrawal" ""
withdrawal_id_given e = cc

guards-never_fire_example :
    (is_transaction_of_session "session" (done stored) ≡ false)
    × (is_transaction_of_withdrawal "withdrawal" (done stored) ≡ false)
    × (is_transaction_of_session "session" (done stored) ≡ false)
    × (is_transaction_of_withdrawal "withdrawal" (done stored) ≡ false)
guards-never_fire_example =
    guards-never_fire test_env recorded_world "session" "withdrawal" "sol-mainnet" "signature"
      (done stored) (done stored) (done stored) session_id_given withdrawal_id_given
      looked_up_session looked_up_withdrawal looked_up_hash

abbrev half : Float
half = record { mantissa = pos 5; exponent = 1 }

-- 2.5 dollars are 250 cents.
half_in_cents : test_ops.mul half hundred ≡ record { mantissa = pos 500; exponent = 1 }
unfolding ◌*ℤ◌
half_in_cents = refl

small : (2 * 500 + 2 ^ 1) / (2 * 2 ^ 1) < two63
small = omega arith

product_exact : IsRoundedFrom 500 (2 ^ 1) (100 * 5) (2 ^ 1)
product_exact = record { above = omega arith; below = omega arith }

bankers_round-IsNear_example :
    (r : ℕ) × (bankers_round test_ops half ≡ pos r)
    × IsNear (100 * 5) (2 ^ 1) r
    × ((500 * 2 ^ 1 ≢ 100 * 5 * 2 ^ 1) ⊎ IsBankersRounding (100 * 5) (2 ^ 1) r)
bankers_round-IsNear_example =
    bankers_round-IsNear test_ops 5 1 500 1 half_in_cents product_exact small

-- An arithmetic in which the product is minus half a cent.
abbrev tie_ops : FloatOps
tie_ops = record test_ops { mul = λ x y. record { mantissa = negsuc 0; exponent = 1 } }

tie_in_cents : tie_ops.mul half hundred ≡ record { mantissa = negsuc (4 * 0); exponent = 1 }
tie_in_cents = refl

few : 0 < 1000000000000000000
few = omega arith

bankers_round-negative_tie_example : bankers_round tie_ops half ≡ negsuc (2 * 0 + 1)
bankers_round-negative_tie_example = bankers_round-negative_tie tie_ops half 0 tie_in_cents few

-- The numbers of the credit and of the charge below.
number_fits : (n : ℕ) → n ≤ 500 → InInt64 (pos n)
number_fits n h = (omega (arith, h), omega arith)

credited-IsExact_example :
    (credited test_ops test_session test_balance (of_int (pos 1)) (of_int (pos 1)) (pos 100)
      ≡ ok (pos 600, "100"))
    ↔ IsExact
        (pos 500 +ℤ pos 100)
        (test_ops.add
          (units_of test_ops test_balance)
          (test_ops.mul (of_int (pos 1)) (of_int (pos 1))))
        (test_ops.format 18)
        (pos 600)
        "100"
credited-IsExact_example =
    credited-IsExact test_ops test_session test_balance (of_int (pos 1)) (of_int (pos 1)) (pos 100)
      (pos 600) "100" (omega arith) (number_fits 500 (omega arith)) (number_fits 100 (omega arith))

debited-IsExact_example :
    (debited test_ops test_withdrawal test_balance (of_int (pos 1)) (of_int (pos 1))
      ≡ ok (pos 200, "100"))
    ↔ IsExact
        (pos 500 -ℤ pos 300)
        (test_ops.sub
          (units_of test_ops test_balance)
          (test_ops.mul (of_int (pos 1)) (of_int (pos 1))))
        (test_ops.format 18)
        (pos 200)
        "100"
debited-IsExact_example =
    debited-IsExact test_ops test_withdrawal test_balance (of_int (pos 1)) (of_int (pos 1))
      (pos 200) "100" (omega arith) (number_fits 500 (omega arith)) (number_fits 300 (omega arith))

get_exchange_rate-ends_example :
    Ended (get_exchange_rate "SOL" "USD" test_env test_world).0
    × ((get_exchange_rate "SOL" "USD" test_env test_world).1.tick ≤ 0 + 2 * (2 + 1))
get_exchange_rate-ends_example = get_exchange_rate-ends test_env "SOL" "USD" test_world

calculate_backoff-range_example :
    (pos 0 ≤ℤ calculate_backoff 2 (pos 2))
    × (calculate_backoff 2 (pos 2) ≤ℤ pos (30 * second))
    × ((calculate_backoff 2 (pos 2) ≡ pos 0) ↔ (base_or_two (pos 2) ≡ 2))
calculate_backoff-range_example = calculate_backoff-range 2 (pos 2) (omega arith)

status_updated :
    (update_status "id" VerificationStatus.verified none test_env recorded_world).0 ≡ ok tt
unfolding update_status ◌>>=◌ must_parse_uuid time_now execute update_transaction_status
status_updated = refl

update_status-only_verified_example : VerificationStatus.verified ≡ VerificationStatus.verified
update_status-only_verified_example =
    update_status-only_verified test_env "id" VerificationStatus.verified none recorded_world
      status_updated

pending-Settled : Settled withdrawal_world.db
unfolding Settled
pending-Settled = (refl, tt)

verify_solana_withdrawal-Settled_example :
    Settled (verify_solana_withdrawal test_withdrawal test_env withdrawal_world).1.db
verify_solana_withdrawal-Settled_example =
    verify_solana_withdrawal-Settled test_env test_withdrawal withdrawal_world withdrawal_id_given
      pending-Settled

verify_solana_session-others_example :
    others (verify_solana_session test_session test_env test_world).1.db ≡ others test_world.db
verify_solana_session-others_example = verify_solana_session-others test_env test_world test_session
