-- ===== src/Domain/Balance.antt =====
-- internal/domain/balance.go
use tucanbit_tvs.Prelude.{ℕ, String}
use tucanbit_tvs.Prelude.Int.{ℤ}
use tucanbit_tvs.Float.{Float}

pub record Balance : Type 0 where
  pub id : String
  pub user_id : String
  pub currency_code : String
  pub amount_cents : ℤ
  pub amount_units : String
  pub reserved_cents : ℤ
  pub reserved_units : String
  pub updated_at : ℕ

pub record BalanceLog : Type 0 where
  pub id : String
  pub user_id : String
  pub component : String
  pub currency_code : String
  pub change_cents : ℤ
  pub change_units : Float
  pub operational_group_id : String
  pub operational_type_id : String
  pub description : String
  pub timestamp : ℕ
  pub balance_after_cents : ℤ
  pub balance_after_units : Float
  pub transaction_id : String
  pub status : String
