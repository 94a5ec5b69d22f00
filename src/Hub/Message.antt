-- ===== src/Hub/Message.antt =====
-- The messages of internal/server/websocket/ws_hub.go.
use tucanbit_tvs.Domain.Session.{DepositSession}
use tucanbit_tvs.Domain.Withdrawal.{Withdrawal}
use tucanbit_tvs.Domain.Balance.{Balance}
use tucanbit_tvs.Prelude.{String, some, none, Option}

-- `WsMessage`
pub record WsMessage : Type 0 where
  pub kind : String
  pub deposit : Option DepositSession
  pub withdrawal : Option Withdrawal
  pub balance : Option Balance

-- The message that `BroadcastDepositSession` sends.
abbrev pub deposit_message : DepositSession → WsMessage
deposit_message session = record {
  kind = "deposit";
  deposit = some session;
  withdrawal = none;
  balance = none;
}

-- The message that `BroadcastWithdrawal` sends.
abbrev pub withdrawal_message : Withdrawal → WsMessage
withdrawal_message withdrawal = record {
  kind = "withdrawal";
  deposit = none;
  withdrawal = some withdrawal;
  balance = none;
}

-- The message that `BroadcastBalance` sends.
abbrev pub balance_message : Balance → WsMessage
balance_message balance = record {
  kind = "balance";
  deposit = none;
  withdrawal = none;
  balance = some balance;
}
