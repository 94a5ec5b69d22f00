-- ===== src/Service/Poll/Recorded.antt =====
-- The invariants along `processPendingSessions`.
use tucanbit_tvs.Effects.Triple.{
  Triple, Triple-wrap, Triple-bind, Triple-fact, Triple-asks, Triple-pure, Triple-if, Triple-Keeps,
  Post,
}
use tucanbit_tvs.Db
use tucanbit_tvs.Service.Poll.Named.{
  IsNamed, AreNamed, append_to-AreNamed, OnSome, Triple-chains, OnSome-map, on_solana-AreNamed,
}
use tucanbit_tvs.Db.Rows.{Db, SessionRow, Stamp, Result}
use tucanbit_tvs.Domain.Session.{DepositSession, SessionStatus, same_session_status}
use tucanbit_tvs.Repo.Sessions.{convert_from_db, load_pending_deposit_sessions}
use tucanbit_tvs.Prelude.{
  All, String, ◌≢◌, Option-cases, if◌then◌else◌, ◌==◌, some, inl, inr, Option, ℕ, subst, ltb, ◌-◌,
  [], refl, All-update_where,
}
use tucanbit_tvs.Service.Rules.{is_solana_chain, is_pdm_chain}
use tucanbit_tvs.Float.{FloatOps, of_int}
use tucanbit_tvs.Prelude.Int.{pos}
use tucanbit_tvs.Effects.{Env, World}
use tucanbit_tvs.Effects.Keeps.{Writes, Keeps, Keeps-time_now}
use tucanbit_tvs.Service.Poll.Sessions.{
  expire_session, visit_session, sort_in, load_session_page, timeout_of, process_pending_sessions,
}
use tucanbit_tvs.Repo.Keeps.{repo_rules}
use tucanbit_tvs.Service.Poll.{ByChain, on_solana}
use tucanbit_tvs.Effects.Queries.{Triple-query}
use tucanbit_tvs.Db.Pages.{All-mapped, All-page_of}
use tucanbit_tvs.Effects.Returns.{ok_injective}
use tucanbit_tvs.Db.Sessions.{is_pending_session, has_session_id}
use tucanbit_tvs.Service.SessionCheck.Recorded.{check_inv, Recorded, update_status-Recorded}

-- Every session of the tables has an id.
unfoldable pub HasSessionIds : Db → Type 0
HasSessionIds db = All (λ row. row.session_id ≢ "") db.sessions

convert-IsNamed :
    (ops : FloatOps) (row : SessionRow)
    → row.session_id ≢ ""
    → IsNamed (λ s. s.session_id) (λ s. s.chain_id) (convert_from_db ops row)
unfolding convert_from_db is_solana_chain
convert-IsNamed ops row n =
    elim (Option-cases
      (if row.amount == "" then some (of_int (pos 0)) else ops.parse_float row.amount)) [
        | inl e ↦ rw e (λ s. cc s)
        | inr (a, e) ↦ rw e (λ s. n)
      ]

-- A condition of the tables that holds while sessions expire.
module _ {env : Env} {P : Db → Type 0}
    (expires : (id : String) (message : Option String)
      → Writes P (Db.Sessions.update_deposit_session_status id SessionStatus.expired message)) where
  pub Keeps-expire_session : (session : DepositSession) → Keeps env P (expire_session session)
  unfolding expire_session
  Keeps-expire_session session = search (repo_rules, expires)

  Triple-visit_session :
      (session : DepositSession) (chains : ByChain DepositSession)
      → IsNamed (λ s. s.session_id) (λ s. s.chain_id) session
      → AreNamed (λ s. s.session_id) (λ s. s.chain_id) chains
      → Triple env P
          (visit_session session chains)
          (λ chains' db. AreNamed (λ s. s.session_id) (λ s. s.chain_id) chains' × P db)
  unfolding visit_session sort_in
  Triple-visit_session session chains n c =
      Triple-if (is_pdm_chain session.chain_id) _ _ (λ _. Triple-pure chains (λ db h. (c, h)))
        (λ _.
          Triple-if (same_session_status session.status SessionStatus.completed) _ _
            (λ _. Triple-pure chains (λ db h. (c, h)))
            (λ _.
              Triple-bind {Q = λ _. P} _ _ (Triple-Keeps _ Keeps-time_now (λ _ db h. h))
                (λ now.
                  Triple-bind {Q = λ _. P} _ _ (Triple-asks _ (λ db h. h))
                    (λ hours.
                      Triple-if (ltb (timeout_of hours) (now - session.created_at)) _ _
                        (λ _.
                          Triple-bind {Q = λ _. P} _ _
                            (Triple-Keeps _ (Keeps-expire_session session) (λ _ db h. h))
                            (λ _. Triple-pure chains (λ db h. (c, h))) (λ _ db h. h))
                        (λ _. Triple-pure _ (λ db h. (
                          append_to-AreNamed (λ s. s.session_id) (λ s. s.chain_id) session chains n
                              c,
                          h,
                        ))))
                    (λ _ db h. h))
                (λ _ db h. h)))

  Triple-load_session_page :
      ((db : Db) → P db → HasSessionIds db)
      → (limit offset : ℕ)
      → Triple env P
          (load_session_page limit offset)
          (λ page db. All (IsNamed (λ s. s.session_id) (λ s. s.chain_id)) page × P db)
  unfolding load_session_page load_pending_deposit_sessions
      Db.Sessions.list_pending_deposit_sessions HasSessionIds
  Triple-load_session_page names limit offset = Triple-wrap _ _ (
      Triple-bind {Q = λ rows db. All (λ r. r.session_id ≢ "") rows × P db} _ _
        (Triple-wrap _ _ (
          Triple-query _ (λ rows db h e. (
            subst (All _) (ok_injective _ _ e) (
                All-page_of (λ r. r.session_id ≢ "") (λ r. r.created_at) is_pending_session limit
                  offset db.sessions (names db h)),
            h,
          ))))
        (λ rows. Triple-fact _ (λ g.
          Triple-bind {Q = λ ops. P} _ _ (Triple-asks _ (λ db h. h))
            (λ ops. Triple-pure _ (λ db h. (All-mapped _ _ _ rows (convert-IsNamed ops) g, h)))
            (λ _ db h. h)))
        (λ _ db h. h.1))

  -- The sessions that are handed to goroutines have an id.
  pub Triple-process_pending_sessions :
      ((db : Db) → P db → HasSessionIds db)
      → (fuel : ℕ)
      → Triple env P
          (process_pending_sessions fuel)
          (λ jobs db. OnSome (All (λ s. s.session_id ≢ "")) jobs × P db)
  unfolding process_pending_sessions
  Triple-process_pending_sessions names fuel =
      Triple-bind _ _
        (Triple-chains (IsNamed (λ s. s.session_id) (λ s. s.chain_id))
          (AreNamed (λ s. s.session_id) (λ s. s.chain_id)) load_session_page visit_session
          (Triple-load_session_page names) Triple-visit_session fuel 0 [] tt)
        (λ collected. Triple-fact _ (λ c. Triple-pure _ (λ db h. (
          OnSome-map _ _ on_solana collected
              (on_solana-AreNamed (λ s. s.session_id) (λ s. s.chain_id)) c,
          h,
        ))))
        (λ _ db h. h.1)

pub expire-HasSessionIds :
    (id : String) (message : Option String)
    → Writes HasSessionIds
        (Db.Sessions.update_deposit_session_status id SessionStatus.expired message)
unfolding Db.Sessions.update_deposit_session_status HasSessionIds
expire-HasSessionIds id message = record {
  at = λ stamp db db' h e.
      subst HasSessionIds (check_inv SessionStatus.expired _ db' e)
        (All-update_where (has_session_id id) _ db.sessions (λ row p r. r) (λ row r. r) h);
}

pub both :
    {P Q : Db → Type 0} {write : Stamp → Db → Result Db}
    → Writes P write
    → Writes Q write
    → Writes (λ db. P db × Q db) write
both p q = record { at = λ stamp db db' h e. (p.at stamp db db' h.0 e, q.at stamp db db' h.1 e) }

-- If every session has an id and every completed session has a transaction, then so it is after
-- `processPendingSessions`, however it ends, and every session that it starts a goroutine for has
-- an id.
pub process_pending_sessions-Recorded :
    (env : Env) (fuel : ℕ) (w : World)
    → HasSessionIds w.db
    → Recorded w.db
    → Post
        (λ db. HasSessionIds db × Recorded db)
        (λ jobs db. OnSome (All (λ s. s.session_id ≢ "")) jobs × (HasSessionIds db × Recorded db))
        (process_pending_sessions fuel env w).0
        (process_pending_sessions fuel env w).1.db
process_pending_sessions-Recorded env fuel w named recorded =
    (Triple-process_pending_sessions
        (λ id message.
          both (expire-HasSessionIds id message)
            (update_status-Recorded id SessionStatus.expired message refl))
        (λ db h. h.0) fuel).at
      w (named, recorded)
