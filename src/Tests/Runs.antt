-- ===== src/Tests/Runs.antt =====
-- Whole runs of the service on the test tables.
use tucanbit_tvs.Tests.{test_env, test_session, test_world}
use tucanbit_tvs.Db
use tucanbit_tvs.Repo
use tucanbit_tvs.Effects.{◌>>=◌, wrap, attempt, ignore_error}
use tucanbit_tvs.Effects.Calls.{
  begin_tx, query_tx, execute_tx, commit_tx, send, query, execute, parse_uuid, time_now, new_uuid,
  helius_request, exchange_request,
}
use tucanbit_tvs.Repo.Sessions.{
  get_by_session_id_tx, update_deposit_session_status_tx, complete_session, convert_from_db,
}
use tucanbit_tvs.Repo.Transactions.{
  get_by_deposit_session_id, get_by_hash, or_empty, create, create_params,
}
use tucanbit_tvs.Repo.Balances.{get_balance, parse_user_id, to_balance}
use tucanbit_tvs.Db.Sessions.{get_deposit_session_by_id, complete_deposit_session}
use tucanbit_tvs.Db.Transactions.{
  get_transaction_by_deposit_session_id, get_transaction_by_hash, create_transaction, can_store,
}
use tucanbit_tvs.Service.Deposit.{
  is_transaction_of_session, process_verified_deposit, record_deposit, credit_deposit, credited,
  find_match, visit, deposit_transaction,
}
use tucanbit_tvs.Service.Rules.{
  map_crypto_to_spl_token_type, map_chain_id_to_cluster_type, get_from_address,
}
use tucanbit_tvs.Helius.{
  get_decimals, verify_deposit, get_base_url, get_signatures_for_address, or_missing, target_mint,
  pays_deposit, get_mint_address,
}
use tucanbit_tvs.Exchange.{
  get_exchange_rate, get_exchange_rate_with_retry, after_response, parse_coin_cap_response,
  map_crypto_to_coin_cap_id, calculate_backoff,
}
use tucanbit_tvs.Float.{to_int64, math_round, distance}
use tucanbit_tvs.Currency.{crypto_to_usd_cents, bankers_round}
use tucanbit_tvs.Prelude.Int.{pos, ◌*ℤ◌, ◌+ℤ◌, ◌-ℤ◌, wrap64, wrap32}
use tucanbit_tvs.Service.SessionCheck.{
  verify_solana_session, verify_processing, verify_claimed, attempts, round, on_verified,
  after_processing,
}
use tucanbit_tvs.Domain.Session.{SessionStatus}
use tucanbit_tvs.Prelude.{some, map, ◌≡◌, refl, ◌∷◌, []}

-- A session whose payment is found is completed, with one transaction, and the 200 dollars of the two
-- coins are added to the five of the balance.
completes :
    (map (λ r. r.status) (verify_solana_session test_session test_env test_world).1.db.sessions
      ≡ SessionStatus.completed ∷ [])
    × (map
          (λ r. r.amount_cents)
          (verify_solana_session test_session test_env test_world).1.db.balances
        ≡ some (pos 20500) ∷ [])
    × (map
          (λ r. r.tx_hash)
          (verify_solana_session test_session test_env test_world).1.db.transactions
        ≡ "signature" ∷ [])
unfolding ◌>>=◌ wrap attempt ignore_error begin_tx query_tx execute_tx commit_tx send query execute
    parse_uuid time_now new_uuid helius_request exchange_request get_by_session_id_tx
    update_deposit_session_status_tx complete_session convert_from_db get_by_deposit_session_id
    get_by_hash or_empty create create_params get_balance parse_user_id to_balance
    get_deposit_session_by_id complete_deposit_session get_transaction_by_deposit_session_id
    get_transaction_by_hash create_transaction can_store is_transaction_of_session
    process_verified_deposit record_deposit credit_deposit credited find_match visit
    deposit_transaction map_crypto_to_spl_token_type map_chain_id_to_cluster_type get_from_address
    get_decimals verify_deposit get_base_url get_signatures_for_address or_missing target_mint
    pays_deposit get_mint_address get_exchange_rate get_exchange_rate_with_retry after_response
    parse_coin_cap_response map_crypto_to_coin_cap_id calculate_backoff to_int64 math_round distance
    crypto_to_usd_cents bankers_round ◌*ℤ◌ ◌+ℤ◌ ◌-ℤ◌ wrap64 wrap32 verify_solana_session
    verify_processing verify_claimed attempts round on_verified after_processing
    Db.Sessions.update_deposit_session_status Db.Balances.get_balance Db.Balances.update_balance
    Db.Balances.update_balances Repo.Balances.update_balance
completes = (refl, refl, refl)
