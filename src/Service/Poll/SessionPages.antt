-- ===== src/Service/Poll/SessionPages.antt =====
-- The loop of `processPendingSessions` over the pages.
use tucanbit_tvs.Effects.Triple.{
  Triple, Triple-wrap, Triple-bind, Triple-fact, Triple-asks, Triple-pure, Post,
}
use tucanbit_tvs.Db
use tucanbit_tvs.Service.Poll.Named.{is_none_of_map}
use tucanbit_tvs.Db.Rows.{Db, ok}
use tucanbit_tvs.Domain.Session.{DepositSession, SessionStatus}
use tucanbit_tvs.Repo.Sessions.{load_pending_deposit_sessions}
use tucanbit_tvs.Prelude.{
  String, ◌≢◌, Option, ℕ, subst, List, none, [], length, ◌≤◌, ◌+◌, ◌*◌, ◌<◌, arith, refl, Bool,
  length-update_where, ◌≡◌, sym,
}
use tucanbit_tvs.Effects.{Env, World}
use tucanbit_tvs.Effects.Keeps.{Writes, Keeps, keeps_rules}
use tucanbit_tvs.Service.Poll.Sessions.{
  visit_session, sort_in, load_session_page, process_pending_sessions,
}
use tucanbit_tvs.Service.Poll.{ByChain, page_limit, on_solana}
use tucanbit_tvs.Effects.Queries.{Triple-query}
use tucanbit_tvs.Db.Pages.{length-map, page_of, length-page_of}
use tucanbit_tvs.Effects.Returns.{ok_injective}
use tucanbit_tvs.Db.Sessions.{is_pending_session, has_session_id}
use tucanbit_tvs.Service.Poll.Ends.{Triple-collect}
use tucanbit_tvs.Service.SessionCheck.Recorded.{check_inv}
use tucanbit_tvs.Service.Poll.Recorded.{Keeps-expire_session}

within :
    {A : Type 0} (key : A → Option ℕ) (p : A → Bool) (limit offset n : ℕ) (table rows : List A)
    → page_of key p limit offset table ≡ rows
    → length table ≤ n
    → 0 < length rows
    → offset < n
within key p limit offset n table rows e small some_row = omega (
  arith,
  small,
  length-page_of key p limit offset table (subst (λ rs. 0 < length rs) (sym e) some_row),
)

-- A condition of the tables that holds while sessions expire.
module _ {env : Env} {P : Db → Type 0}
    (expires : (id : String) (message : Option String)
      → Writes P (Db.Sessions.update_deposit_session_status id SessionStatus.expired message)) where
  Keeps-visit_session :
      (session : DepositSession) (chains : ByChain DepositSession)
      → Keeps env P (visit_session session chains)
  unfolding visit_session sort_in
  Keeps-visit_session session chains = search (keeps_rules, Keeps-expire_session) depth 8

  -- The loop over the pages of a table of at most `n` sessions is at its end with fuel for them.
  process_pending_sessions-completes :
      (n : ℕ)
      → ((db : Db) → P db → length db.sessions ≤ n)
      → (fuel : ℕ) → n + page_limit ≤ page_limit * fuel
      → Triple env P (process_pending_sessions fuel) (λ jobs db. (jobs ≢ none) × P db)
  unfolding process_pending_sessions load_session_page load_pending_deposit_sessions
      Db.Sessions.list_pending_deposit_sessions
  process_pending_sessions-completes n small fuel enough =
      Triple-bind _ _
        (Triple-collect load_session_page visit_session Keeps-visit_session n
          (λ offset. Triple-wrap _ _ (
            Triple-bind {Q = λ rows db. (0 < length rows → offset < n) × P db} _ _
              (Triple-wrap _ _ (
                Triple-query _ (λ rows db h e. (
                  (λ some_row.
                      within (λ r. r.created_at) is_pending_session page_limit offset n db.sessions
                        rows (ok_injective _ _ e) (small db h) some_row),
                  h,
                ))))
              (λ rows. Triple-fact _ (λ g.
                Triple-bind {Q = λ ops. P} _ _ (Triple-asks _ (λ db h. h))
                  (λ ops. Triple-pure _ (λ db h.
                    ((λ some_row. g (subst (λ k. 0 < k) (length-map _ rows) some_row)), h)))
                  (λ _ db h. h)))
              (λ _ db h. h.1)))
          fuel 0 [] (omega (arith, enough)) (omega arith))
        (λ collected.
          Triple-fact _ (λ c. Triple-pure _ (λ db h. (is_none_of_map on_solana collected c, h))))
        (λ _ db h. h.1)

expire-length :
    (n : ℕ) (id : String) (message : Option String)
    → Writes
        (λ db. length db.sessions ≤ n)
        (Db.Sessions.update_deposit_session_status id SessionStatus.expired message)
unfolding Db.Sessions.update_deposit_session_status
expire-length n id message = record {
  at = λ stamp db db' h e.
      subst (λ d. length d.sessions ≤ n) (check_inv SessionStatus.expired _ db' e)
        (omega (arith, h, length-update_where (has_session_id id) _ db.sessions));
}

-- With fuel for one page more than the table of sessions has, the loop of `processPendingSessions`
-- over the pages ends: the poll returns the sessions to verify, or an error, however the database
-- behaves.
pub process_pending_sessions-ends :
    (env : Env) (fuel : ℕ) (w : World)
    → length w.db.sessions + page_limit ≤ page_limit * fuel
    → (process_pending_sessions fuel env w).0 ≢ ok none
process_pending_sessions-ends env fuel w enough e =
    (subst
        (λ r.
          Post (λ db. length db.sessions ≤ length w.db.sessions)
            (λ jobs db. (jobs ≢ none) × (length db.sessions ≤ length w.db.sessions)) r
            (process_pending_sessions fuel env w).1.db)
        e
        ((process_pending_sessions-completes (expire-length (length w.db.sessions))
            (length w.db.sessions) (λ db h. h) fuel enough).at
          w (omega arith))).0
      refl
