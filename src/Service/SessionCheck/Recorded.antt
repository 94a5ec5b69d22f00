-- ===== src/Service/SessionCheck/Recorded.antt =====
-- The invariant that ties completed sessions to transactions, along the statements.
use tucanbit_tvs.Effects.Keeps.{Writes}
use tucanbit_tvs.Db
use tucanbit_tvs.Prelude.{
  refl, String, List, Bool, All, ◌≡◌, any, true, Option, not, ◌||◌, some, arith, false, subst,
  if◌then◌else◌, All-update_where, All-map, sym, eq_of_==, ==-refl,
}
use tucanbit_tvs.Db.Rows.{Db, TransactionRow, SessionRow, Stamp, ok, GoError, err}
use tucanbit_tvs.Domain.Session.{SessionStatus, same_session_status}
use tucanbit_tvs.Prelude.Int.{ℤ}
use tucanbit_tvs.Db.Frame.{update_balance_frame}
use tucanbit_tvs.Db.Transactions.{equals}
use tucanbit_tvs.Db.Sessions.{check_session_status, has_session_id}

-- A transaction carries the session's id.
abbrev pub has_transaction : String → List TransactionRow → Bool
has_transaction session_id transactions =
    any (λ r. equals r.deposit_session_id session_id) transactions

-- A session that is completed has a transaction.
abbrev is_recorded : List TransactionRow → SessionRow → Bool
is_recorded transactions row =
    not (same_session_status row.status SessionStatus.completed)
    || has_transaction row.session_id transactions

-- Every completed session has a transaction with its id.
unfoldable pub Recorded : Db → Type 0
Recorded db = All (λ row. is_recorded db.transactions row ≡ true) db.sessions

-- The same, with a transaction for the given session.
unfoldable pub RecordedWith : String → Db → Type 0
unfolding Recorded
RecordedWith id db = Recorded db × (has_transaction id db.transactions ≡ true)

pub or_true : (a b : Bool) → b ≡ true → (a || b) ≡ true
or_true a b h = ground arith

pub monotone : (a b c : Bool) → (b ≡ true → c ≡ true) → (a || b) ≡ true → (a || c) ≡ true
monotone true b c k h = refl
monotone false b c k h = k h

-- A write of another table than sessions and transactions.
same_tables-Recorded :
    (db db' : Db)
    → db'.sessions ≡ db.sessions
    → db'.transactions ≡ db.transactions
    → Recorded db
    → Recorded db'
unfolding Recorded
same_tables-Recorded db db' s t h = rw (s, t) h

pub check_inv : (status : SessionStatus) (a b : Db) → check_session_status status a ≡ ok b → a ≡ b
check_inv SessionStatus.unset a b h = cc
check_inv SessionStatus.pending a b h = cc
check_inv SessionStatus.processing a b h = cc
check_inv SessionStatus.completed a b h = cc
check_inv SessionStatus.failed a b h = cc
check_inv SessionStatus.cancelled a b h = cc
check_inv SessionStatus.expired a b h = cc

pub if_ok_inv : (b : Bool) (x y : Db) (e : GoError) → (if b then ok x else err e) ≡ ok y → x ≡ y
if_ok_inv true x y e h = cc
if_ok_inv false x y e h = cc

-- A change of a session's status to another than completed.
pub update_status-Recorded :
    (id : String) (status : SessionStatus) (message : Option String)
    → same_session_status status SessionStatus.completed ≡ false
    → Writes Recorded (Db.Sessions.update_deposit_session_status id status message)
unfolding Db.Sessions.update_deposit_session_status Recorded
update_status-Recorded id status message n = record {
  at = λ stamp db db' h e. subst Recorded (check_inv status _ db' e) (
      All-update_where (has_session_id id) _ db.sessions
        (λ row p r.
          subst (λ b. (not b || has_transaction row.session_id db.transactions) ≡ true) (sym n)
            refl)
        (λ row r. r) h);
}

pub complete-RecordedWith :
    (id : String) (status : SessionStatus) (metadata message : Option String)
    → Writes (RecordedWith id) (Db.Sessions.complete_deposit_session id status metadata message)
unfolding Db.Sessions.complete_deposit_session Recorded RecordedWith
complete-RecordedWith id status metadata message = record {
  at = λ stamp db db' h e. subst (RecordedWith id) (check_inv status _ db' e) (
    All-update_where (has_session_id id) _ db.sessions
        (λ row p r. or_true _ _ (
          subst (λ s. has_transaction s db.transactions ≡ true) (sym (eq_of_== row.session_id id p))
            h.1))
        (λ row r. r) h.0,
    h.1,
  );
}

pub update_balance-RecordedWith :
    (id user currency : String) (cents : ℤ) (units : String)
    → Writes (RecordedWith id) (Db.Balances.update_balance user currency cents units)
unfolding RecordedWith
update_balance-RecordedWith id user currency cents units = record {
  at = λ stamp db db' h e.
      let same = update_balance_frame user currency cents units stamp db db' e in
      (same_tables-Recorded db db' same.0 same.2 h.0, rw same.2 h.1);
}

pub create-RecordedWith :
    (id : String) (row : TransactionRow) (stamp : Stamp) (db db' : Db)
    → row.deposit_session_id ≡ some id
    → Recorded db
    → Db.Transactions.create_transaction row stamp db ≡ ok db'
    → RecordedWith id db'
unfolding RecordedWith Recorded Db.Transactions.create_transaction
create-RecordedWith id row stamp db db' k h e = subst (RecordedWith id) (if_ok_inv _ _ db' _ e) (
  All-map db.sessions
      (λ r.
        monotone (not (same_session_status r.status SessionStatus.completed))
          (has_transaction r.session_id db.transactions) _
          (or_true (equals row.deposit_session_id r.session_id) _))
      h,
  subst (λ o. (equals o id || has_transaction id db.transactions) ≡ true) (sym k)
      (subst (λ b. (b || has_transaction id db.transactions) ≡ true) (sym (==-refl id)) refl),
)
