-- ===== src/Db/Transactions/Deletion.antt =====
-- `DeleteTransaction` of internal/repositories/transactionrepo/gen/queries.sql.go, which sets a status.
use tucanbit_tvs.Db.Transactions.{is_verification_status}
use tucanbit_tvs.Db.Rows.{Db, Stamp, Result, GoError, ok, err, plain_error}
use tucanbit_tvs.Domain.Transaction.{VerificationStatus}
use tucanbit_tvs.Prelude.{
  ℕ, String, Bool, true, false, if◌then◌else◌, ◌==◌, ◌&&◌, not, any, keep, length, update_where,
  List, ◌∷◌, [], ◌≡◌, refl, some, Bool-cases, inl, inr, ◌⊎◌, ◌||◌,
}

-- The status that a text of the column stands for; the CHECK of the table allows no other text.
unfoldable pub read_status : String → VerificationStatus
read_status text =
    if text == "pending"
    then VerificationStatus.pending
    else if text == "verified"
    then VerificationStatus.verified
    else if text == "failed"
    then VerificationStatus.failed
    else if text == "processing"
    then VerificationStatus.processing
    else VerificationStatus.unset

-- `DeleteTransaction`: the number of the changed rows, and the tables.
unfoldable pub delete_transaction : String → Stamp → Db → Result (ℕ × Db)
unfolding read_status
delete_transaction id stamp db =
    if any (λ r. r.id == id) db.transactions && not (is_verification_status (read_status "deleted"))
    then err (plain_error "new row for relation \"transactions\" violates a constraint")
    else ok (
      length (keep (λ r. r.id == id) db.transactions),
      record db {
        transactions =
            update_where (λ r. r.id == id)
              (λ r. record r { status = read_status "deleted"; updated_at = some stamp.now })
              db.transactions;
      },
    )

neither : (a b : Bool) → (a || b) ≡ false → (a ≡ false) × (b ≡ false)
neither true b h = absurd (cc h)
neither false b h = (refl, h)

module _ {A : Type 0} where
  keep_none : (p : A → Bool) (xs : List A) → any p xs ≡ false → keep p xs ≡ []
  keep_none p [] h = refl
  keep_none p (x ∷ xs) h =
      let (here, rest) = neither (p x) (any p xs) h in rw (here, keep_none p xs rest) refl

  update_none :
      (p : A → Bool) (f : A → A) (xs : List A) → any p xs ≡ false → update_where p f xs ≡ xs
  update_none p f [] h = refl
  update_none p f (x ∷ xs) h =
      let (here, rest) = neither (p x) (any p xs) h in rw (here, update_none p f xs rest) refl

-- `DeleteTransaction` deletes nothing: on the id of a transaction it fails, since the table's CHECK
-- refuses the status that it sets, and on any other id it changes no row and leaves the tables.
pub delete_transaction-deletes_nothing :
    (id : String) (stamp : Stamp) (db : Db)
    → ((any (λ r. r.id == id) db.transactions ≡ true)
        × ((e : GoError) × (delete_transaction id stamp db ≡ err e)))
      ⊎ ((any (λ r. r.id == id) db.transactions ≡ false)
          × (delete_transaction id stamp db ≡ ok (0, db)))
unfolding delete_transaction read_status
delete_transaction-deletes_nothing id stamp db =
    elim (Bool-cases (any (λ r. r.id == id) db.transactions)) [
      | inl e ↦ inl (
        e,
        (plain_error "new row for relation \"transactions\" violates a constraint", rw e refl),
      )
      | inr e ↦ inr (
        e,
        rw
            (
              e,
              keep_none (λ r. r.id == id) db.transactions e,
              update_none (λ r. r.id == id)
                  (λ r. record r { status = VerificationStatus.unset; updated_at = some stamp.now })
                  db.transactions e,
            )
            refl,
      )
    ]
