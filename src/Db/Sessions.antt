-- ===== src/Db/Sessions.antt =====
-- The statements on deposit_sessions, of internal/repositories/sessionrepo/gen/queries.sql.go.
use tucanbit_tvs.Prelude.{
  ℕ, String, Bool, List, Option, some, ◌==◌, take, drop, keep, find_first, update_where,
}
use tucanbit_tvs.Domain.Session.{SessionStatus, same_session_status}
use tucanbit_tvs.Db.Rows.{
  SessionRow, Db, Stamp, Result, ok, err, coalesce, newest_first, plain_error, one_row,
}

abbrev pub is_pending_session : SessionRow → Bool
is_pending_session r = same_session_status r.status SessionStatus.pending

-- `ListPendingDepositSessions`
unfoldable pub list_pending_deposit_sessions : ℕ → ℕ → Db → List SessionRow
unfolding newest_first
list_pending_deposit_sessions limit offset db =
    take limit
      (drop offset (newest_first (λ r. r.created_at) (keep is_pending_session db.sessions)))

abbrev pub has_session_id : String → SessionRow → Bool
has_session_id session_id r = r.session_id == session_id

-- The column's enum type has no empty value.
abbrev pub check_session_status {ℓ} : {A : Type ℓ} → SessionStatus → A → Result A
check_session_status SessionStatus.unset a = err (plain_error "invalid input value for enum")
check_session_status _ a = ok a

-- `GetDepositSessionByID`
unfoldable pub get_deposit_session_by_id : String → Db → Result SessionRow
get_deposit_session_by_id session_id db =
    one_row (find_first (has_session_id session_id) db.sessions)

-- `UpdateDepositSessionStatus`
unfoldable pub update_deposit_session_status :
    String → SessionStatus → Option String → Stamp → Db → Result Db
update_deposit_session_status session_id status error_message stamp db =
    check_session_status status (record db {
      sessions =
          update_where (has_session_id session_id)
            (λ r. record r {
              status = status;
              error_message = coalesce error_message r.error_message;
              updated_at = some stamp.now;
            })
            db.sessions;
    })

-- `CompleteDepositSession`
unfoldable pub complete_deposit_session :
    String → SessionStatus → Option String → Option String → Stamp → Db → Result Db
complete_deposit_session session_id status metadata error_message stamp db =
    check_session_status status (record db {
      sessions =
          update_where (has_session_id session_id)
            (λ r. record r {
              status = status;
              metadata = metadata;
              error_message = coalesce error_message r.error_message;
              updated_at = some stamp.now;
            })
            db.sessions;
    })
