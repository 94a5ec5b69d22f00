-- ===== src/Tests/StatementWitnesses.antt =====
-- The theorems on single statements and on the exchange's rates at concrete inputs.
use tucanbit_tvs.Tests.{test_env, test_world, recorded_world}
use tucanbit_tvs.Exchange.Rates.{get_multiple_exchange_rates}
use tucanbit_tvs.Exchange.Rates.Named.{ReturnsNamed, get_multiple_exchange_rates-ReturnsNamed}
use tucanbit_tvs.Db.Transactions.Deletion.{delete_transaction, delete_transaction-deletes_nothing}
use tucanbit_tvs.Db.Transactions.Stats.{get_transaction_stats, get_transaction_stats-total}
use tucanbit_tvs.Db.Rows.{Stamp, GoError, ok, err, Db}
use tucanbit_tvs.Prelude.{◌∷◌, [], refl, ◌≡◌, ◌⊎◌, true, false, any, ◌==◌, ◌+◌}

get_multiple_exchange_rates-ReturnsNamed_example :
    ReturnsNamed test_env
      ("SOL" ∷ "ETH" ∷ [])
      test_world
      (get_multiple_exchange_rates ("SOL" ∷ "ETH" ∷ []) "USD")
get_multiple_exchange_rates-ReturnsNamed_example =
    get_multiple_exchange_rates-ReturnsNamed test_env ("SOL" ∷ "ETH" ∷ []) "USD" test_world

abbrev test_stamp : Stamp
test_stamp = record { now = 5; uuid = "fresh"; timestamptz = λ t. t }

abbrev recorded_db : Db
recorded_db = recorded_world.db

delete_transaction-deletes_nothing_example :
    ((any (λ r. r.id == "id") recorded_db.transactions ≡ true)
      × ((e : GoError) × (delete_transaction "id" test_stamp recorded_db ≡ err e)))
    ⊎ ((any (λ r. r.id == "id") recorded_db.transactions ≡ false)
        × (delete_transaction "id" test_stamp recorded_db ≡ ok (0, recorded_db)))
delete_transaction-deletes_nothing_example =
    delete_transaction-deletes_nothing "id" test_stamp recorded_db

get_transaction_stats-total_example :
    (let stats = get_transaction_stats (λ amounts. "2") (λ counts. "1") "sol-mainnet" recorded_db in
      stats.verified_count + stats.pending_count + stats.failed_count + stats.processing_count
      ≡ stats.total_transactions)
get_transaction_stats-total_example =
    get_transaction_stats-total (λ amounts. "2") (λ counts. "1") "sol-mainnet" recorded_db
      (refl, tt)
