-- ===== src/Service/Poll.antt =====
-- The polling of internal/application/verificationservice/verification_service_impl.go: a poll reads
-- the pending rows page by page and hands those that are to be verified to goroutines, the jobs.
pub mod Sessions
pub mod Withdrawals
pub mod Ends
pub mod Named
pub mod Recorded
pub mod SessionPages
pub mod Settled
use tucanbit_tvs.Prelude.{
  ◌∷◌, [], ℕ, List, String, if◌then◌else◌, ◌==◌, ◌++◌, Option, some, none, suc, ◌+◌, zero,
}
use tucanbit_tvs.Effects.{◌>>=◌, Action, pure}
use tucanbit_tvs.Service.Rules.{is_solana_chain}

-- `const limit = 100`
abbrev pub page_limit : ℕ
page_limit = 100

-- A map from a chain to the rows that are to be verified, `chainSessions` and `chainWithdrawals`.
abbrev pub ByChain : Type 0 → Type 0
ByChain A = List (String × List A)

-- `rows[chain] = append(rows[chain], row)`
abbrev pub append_to : {A : Type 0} → String → A → ByChain A → ByChain A
append_to chain row [] = (chain, row ∷ []) ∷ []
append_to chain row ((c, rows) ∷ chains) =
    let rest = append_to chain row chains in
    if c == chain then (c, rows ++ row ∷ []) ∷ chains else (c, rows) ∷ rest

-- The loop over the pages, which `processPendingSessions` and `processPendingWithdrawals` each write
-- out: `load` reads a page, `visit` is the body of the loop over its rows.
module _ {A : Type 0} (load : ℕ → ℕ → Action (List A))
    (visit : A → ByChain A → Action (ByChain A)) where
  unfoldable pub visit_rows : List A → ByChain A → Action (ByChain A)
  visit_rows [] chains = pure chains
  visit_rows (row ∷ rows) chains = do chains' ← visit row chains; visit_rows rows chains'

  -- The body of the loop over the pages, given what the later rounds do.
  unfoldable pub visit_page :
      List A → ByChain A → (ByChain A → Action (Option (ByChain A))) → Action (Option (ByChain A))
  unfolding visit_rows
  visit_page [] chains later = pure (some chains)
  visit_page (row ∷ rows) chains later = do chains' ← visit_rows (row ∷ rows) chains; later chains'

  -- On fuel: without fuel the loop is not at its end.
  unfoldable pub collect : ℕ → ℕ → ByChain A → Action (Option (ByChain A))
  unfolding visit_page
  collect zero offset chains = pure none
  collect (suc fuel) offset chains = do
    page ← load page_limit offset
    visit_page page chains (collect fuel (offset + page_limit))

-- The rows that goroutines verify: those of the Solana chains. The processors of the other chains
-- only log, and so does the branch for a chain without a processor.
unfoldable pub on_solana : {A : Type 0} → ByChain A → List A
unfolding is_solana_chain
on_solana [] = []
on_solana ((chain, rows) ∷ chains) =
    let rest = on_solana chains in if is_solana_chain chain then rows ++ rest else rest
