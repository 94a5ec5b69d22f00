-- ===== src/Service/Deposit.antt =====
-- `processVerifiedDeposit` of verification_service_impl.go.
pub mod Match
pub mod Credit
use tucanbit_tvs.Effects.{
  Action, ◌>>=◌, ◌>>◌, pure, raise, wrap, asks, lift, attempt, Try, done, error,
}
use tucanbit_tvs.Effects.Calls.{time_now, new_uuid, send}
use tucanbit_tvs.Helius.{is_sol, power_of_ten, pays_token, get_mint_address}
use tucanbit_tvs.Repo.Sessions
use tucanbit_tvs.Repo.Transactions
use tucanbit_tvs.Repo.Balances
use tucanbit_tvs.Prelude.{
  ◌∷◌, [], String, ℕ, Option, List, Bool, some, if◌then◌else◌, false, none, find_first, ◌==◌, not,
  concat, ◌&&◌, ◌++◌, ◌||◌,
}
use tucanbit_tvs.Domain.Solana.{
  HeliusTransaction, empty_helius_transaction, SplTokenType, NativeTransfer, TokenTransfer,
  SolanaClusterType, token_text,
}
use tucanbit_tvs.Float.{FloatOps, Float, of_int, unix_time, leb_float, ltb_float}
use tucanbit_tvs.Domain.Session.{DepositSession, SessionStatus}
use tucanbit_tvs.Domain.Transaction.{
  Transaction, VerificationStatus, ProcessorType, TransactionType,
}
use tucanbit_tvs.Repo.Balances.{to_balance}
use tucanbit_tvs.Db.Rows.{Result, err, ok, get_or, plain_error, panic}
use tucanbit_tvs.Prelude.Int.{ℤ, pos, wrap64, ◌+ℤ◌, ltb_ℤ}
use tucanbit_tvs.Domain.Balance.{Balance}
use tucanbit_tvs.Currency.{crypto_to_usd_cents}
use tucanbit_tvs.Service.Rules.{get_from_address}
use tucanbit_tvs.Hub.Message.{deposit_message, balance_message}

-- `matchedTx` and `txAmount`
abbrev pub Match : Type 0
Match = HeliusTransaction × Float

-- The amount of a native transfer in whole coins.
abbrev pub adjusted : FloatOps → ℕ → NativeTransfer → Float
adjusted ops decimals t = ops.div (ops.of_int64 t.amount) (power_of_ten decimals)

abbrev take_native : FloatOps → ℕ → HeliusTransaction → Match → Option NativeTransfer → Match
take_native ops decimals tx acc none = acc
take_native ops decimals tx acc (some t) = (tx, adjusted ops decimals t)

abbrev take_token : HeliusTransaction → Match → Option TokenTransfer → Match
take_token tx acc none = acc
take_token tx acc (some t) = (tx, t.token_amount)

abbrev with_mint : Try String → List String → (String → Match) → Result Match
with_mint (error e) message f = err (plain_error (concat (message ++ e.message ∷ [])))
with_mint (done mint) message f = ok (f mint)

-- One round of the loop over the transactions, for a transfer: the first transfer to the wallet of
-- at least the required amount, if there is one, replaces the match.
unfoldable pub visit :
    FloatOps
    → DepositSession
    → SplTokenType
    → Float
    → Try String
    → ℕ
    → HeliusTransaction
    → Match
    → Result Match
visit ops session token required mint decimals tx acc =
    if is_sol token
    then ok (
        take_native ops decimals tx acc (
          find_first
            (λ t.
              t.to_user_account == session.wallet_address
              && leb_float required (adjusted ops decimals t))
            tx.native_transfers))
    else with_mint mint ("failed to get mint address for " ∷ token_text token ∷ ": " ∷ [])
        (λ target.
          take_token tx acc
            (find_first (pays_token session.wallet_address target required) tx.token_transfers))

-- The end of a round: the loop stops at a transfer once the match has a signature.
abbrev pub end_of_round : Bool → (Match → Result Match) → Result Match → Result Match
end_of_round transfer later (ok acc) =
    let rest = later acc in if transfer && not (acc.0.signature == "") then ok acc else rest
end_of_round transfer later (err e) = err e
end_of_round transfer later (panic text) = panic text

-- The loop over the transactions.
unfoldable pub find_match :
    FloatOps
    → DepositSession
    → SplTokenType
    → Float
    → Try String
    → ℕ
    → List HeliusTransaction
    → Match
    → Result Match
unfolding visit
find_match ops session token required mint decimals [] acc = ok acc
find_match ops session token required mint decimals (tx ∷ txs) acc =
    end_of_round (tx.kind == "TRANSFER") (find_match ops session token required mint decimals txs) (
      if tx.kind == "TRANSFER"
      then visit ops session token required mint decimals tx acc
      else ok acc)

-- `err == nil && existingTx.ID != "" && existingTx.DepositSessionID == session.SessionID`
unfoldable pub is_transaction_of_session : String → Try Transaction → Bool
is_transaction_of_session session_id (error e) = false
is_transaction_of_session session_id (done tx) =
    not (tx.id == "") && tx.deposit_session_id == session_id

-- The record that is created for the deposit; one reading of the clock stands for its four.
unfoldable pub deposit_transaction :
    FloatOps → DepositSession → SplTokenType → Match → Float → ℤ → String → String → ℕ → Transaction
deposit_transaction ops session token matched rate cents id metadata now = record {
  id = id;
  deposit_session_id = session.session_id;
  withdrawal_id = "";
  chain_id = session.chain_id;
  network = session.network;
  crypto_currency = session.crypto_currency;
  tx_hash = matched.0.signature;
  from_address = get_from_address matched.0 token;
  to_address = session.wallet_address;
  amount = ops.format 18 matched.1;
  usd_amount_cents = cents;
  exchange_rate = ops.format 6 rate;
  fee = ops.format 18 (ops.div (ops.of_int64 matched.0.fee) (power_of_ten 9));
  block_number = matched.0.slot;
  block_hash = "";
  status = VerificationStatus.verified;
  confirmations = pos 1;
  timestamp = unix_time matched.0.timestamp;
  verified_at = now;
  processor = ProcessorType.internal;
  transaction_type = TransactionType.deposit;
  metadata = some metadata;
  created_at = now;
  updated_at = now;
}

-- The balance after the deposit, or the error for one that would be negative.
unfoldable pub credited :
    FloatOps → DepositSession → Balance → Float → Float → ℤ → Result (ℤ × String)
credited ops session balance amount rate cents =
    let new_amount_cents = wrap64 (balance.amount_cents +ℤ cents) in
    let current_amount_units = get_or (of_int (pos 0)) (ops.parse_float balance.amount_units) in
    let new_amount_units = ops.add current_amount_units (ops.mul amount rate) in
    if ltb_ℤ new_amount_cents (pos 0) || ltb_float new_amount_units (of_int (pos 0))
    then err (
        plain_error (
          concat (
            "invalid balance update for session " ∷ session.session_id ∷ ": negative balance"
            ∷ [])))
    else ok (new_amount_cents, ops.format 18 new_amount_units)

-- The part of `processVerifiedDeposit` behind the creation of the transaction.
unfoldable pub credit_deposit : DepositSession → Match → Float → ℤ → Action (Unit {0})
unfolding credited
credit_deposit session matched rate cents = do
  balance ←
      wrap ("failed to get balance for user " ∷ session.user_id ∷ ": " ∷ [])
        (Balances.get_balance session.user_id)
  ops ← asks (λ env. env.ops)
  updated ← lift (credited ops session balance matched.1 rate cents)
  wrap ("failed to update balance for user " ∷ session.user_id ∷ ": " ∷ [])
      (Balances.update_balance session.user_id "USD" updated.0 updated.1)
  balance_time ← time_now
  session_time ← time_now
  let completed = record session { status = SessionStatus.completed; updated_at = session_time }
  wrap ("failed to update session " ∷ session.session_id ∷ " status: " ∷ [])
      (Sessions.complete_session completed "")
  send (deposit_message completed)
  send (
      balance_message (record balance {
        user_id = session.user_id;
        currency_code = "USD";
        amount_cents = updated.0;
        amount_units = updated.1;
        updated_at = balance_time;
      }))

-- The part behind the search for a match.
unfoldable pub record_deposit : DepositSession → SplTokenType → Match → Float → Action (Unit {0})
unfolding credit_deposit deposit_transaction
record_deposit session token matched rate = do
  ops ← asks (λ env. env.ops)
  let cents = crypto_to_usd_cents ops matched.1 rate
  id ← new_uuid
  now ← time_now
  metadata ← asks (λ env. get_or "{}" (env.marshal matched.0))
  wrap ("failed to create transaction record for session " ∷ session.session_id ∷ ": " ∷ []) (
      Transactions.create
        (deposit_transaction ops session token matched rate cents id metadata now))
  credit_deposit (record session { metadata = some metadata }) matched rate cents

abbrev pub no_match : Match
no_match = (empty_helius_transaction, of_int (pos 0))

-- `processVerifiedDeposit`
unfoldable pub process_verified_deposit :
    DepositSession
    → List HeliusTransaction
    → SplTokenType
    → Float
    → SolanaClusterType
    → Float
    → ℕ
    → Action (Unit {0})
unfolding record_deposit find_match is_transaction_of_session
process_verified_deposit session transactions token required cluster rate decimals = do
  ops ← asks (λ env. env.ops)
  mint ← attempt (get_mint_address cluster token)
  matched ← lift (find_match ops session token required mint decimals transactions no_match)
  if matched.0.signature == ""
      then raise (
          plain_error (
            concat (
              "no matching transaction found despite verification for session " ∷ session.session_id
              ∷ [])))
      else (do
        existing ← attempt (Transactions.get_by_hash session.chain_id matched.0.signature)
        if is_transaction_of_session session.session_id existing
            then pure tt
            else record_deposit session token matched rate)
