-- ===== src/Repo/Transactions/Status.antt =====
-- When `UpdateStatus` of transaction_repo_impl.go succeeds.
use tucanbit_tvs.Effects.{Env, World}
use tucanbit_tvs.Effects.Returns.{Returns, Returns-bind, Returns-any, Returns-crash}
use tucanbit_tvs.Repo.Transactions.{update_status, verified_time, VerificationStatus, ok}
use tucanbit_tvs.Prelude.{refl, String, ◌≡◌, Option}

module _ {env : Env} where
  Returns-verified_time :
      (status : VerificationStatus)
      → Returns env (verified_time status) (λ _. status ≡ VerificationStatus.verified)
  Returns-verified_time VerificationStatus.verified = record { at = λ w a h. refl }
  Returns-verified_time VerificationStatus.unset = Returns-crash _
  Returns-verified_time VerificationStatus.pending = Returns-crash _
  Returns-verified_time VerificationStatus.failed = Returns-crash _
  Returns-verified_time VerificationStatus.processing = Returns-crash _

  Returns-update_status :
      (id : String) (status : VerificationStatus) (metadata : Option (Option String))
      → Returns env (update_status id status metadata) (λ _. status ≡ VerificationStatus.verified)
  unfolding update_status
  Returns-update_status id status metadata = Returns-bind _ _ (Returns-any _) (λ text _.
      Returns-bind _ _ (Returns-any _) (λ uuid _.
        Returns-bind _ _ (Returns-verified_time status) (λ now v. record { at = λ w a h. v })))

-- `UpdateStatus` returns without an error for the status `verified` alone: for every other status it
-- fails or panics, whatever the tables hold, since it reads the pointer that only `verified` sets.
pub update_status-only_verified :
    (env : Env) (id : String) (status : VerificationStatus) (metadata : Option (Option String))
    (w : World)
    → (update_status id status metadata env w).0 ≡ ok tt
    → status ≡ VerificationStatus.verified
update_status-only_verified env id status metadata w h =
    (Returns-update_status id status metadata).at w tt h
