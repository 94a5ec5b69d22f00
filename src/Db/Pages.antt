-- ===== src/Db/Pages.antt =====
-- The rows of one page of a sorted and filtered table, `ORDER BY ... LIMIT ... OFFSET`.
use tucanbit_tvs.Db.Rows.{newest_first, insert_newest, newer}
use tucanbit_tvs.Prelude.{
  keep, take, drop, ◌∷◌, [], refl, Option, Bool, ℕ, List, length, ◌<◌, All, ◌≤◌, ◌≡◌, arith,
  Bool-cases, suc, map, ◌∙◌, ◌-◌, zero, inl, ap, inr, All-keep,
}

-- A page of a table.
abbrev pub page_of {ℓ} : {A : Type ℓ} → (A → Option ℕ) → (A → Bool) → ℕ → ℕ → List A → List A
page_of key p limit offset rows = take limit (drop offset (newest_first key (keep p rows)))

module _ {ℓ} {A : Type ℓ} where
  length-keep : (p : A → Bool) (rows : List A) → length (keep p rows) ≤ length rows
  length-keep p [] = omega arith
  length-keep p (r ∷ rows) = ground (arith, length-keep p rows)

  length-insert_newest :
      (key : A → Option ℕ) (r : A) (rows : List A)
      → length (insert_newest key r rows) ≡ suc (length rows)
  unfolding insert_newest
  length-insert_newest key r [] = refl
  length-insert_newest key r (s ∷ rows) = elim (Bool-cases (newer (key r) (key s))) [
    | inl e ↦ rw e refl
    | inr e ↦ rw e (ap suc (length-insert_newest key r rows))
  ]

  length-newest_first :
      (key : A → Option ℕ) (rows : List A) → length (newest_first key rows) ≡ length rows
  unfolding newest_first
  length-newest_first key [] = refl
  length-newest_first key (r ∷ rows) =
      length-insert_newest key r (newest_first key rows) ∙ ap suc (length-newest_first key rows)

  length-drop : (n : ℕ) (rows : List A) → length (drop n rows) ≡ length rows - n
  length-drop zero rows = omega arith
  length-drop (suc n) [] = omega arith
  length-drop (suc n) (r ∷ rows) = omega (arith, length-drop n rows)

  length-take : (n : ℕ) (rows : List A) → length (take n rows) ≤ length rows
  length-take zero rows = omega arith
  length-take (suc n) [] = omega arith
  length-take (suc n) (r ∷ rows) = omega (arith, length-take n rows)

  -- A page with a row starts within the table.
  pub length-page_of :
      (key : A → Option ℕ) (p : A → Bool) (limit offset : ℕ) (rows : List A)
      → 0 < length (page_of key p limit offset rows)
      → offset < length rows
  length-page_of key p limit offset rows h = omega (
    arith,
    length-take limit (drop offset (newest_first key (keep p rows))),
    length-drop offset (newest_first key (keep p rows)),
    length-newest_first key (keep p rows),
    length-keep p rows,
  )

  module _ {κ} (P : A → Type κ) where
    All-insert_newest :
        (key : A → Option ℕ) (r : A) (rows : List A)
        → P r
        → All P rows
        → All P (insert_newest key r rows)
    unfolding insert_newest
    All-insert_newest key r [] hr h = (hr, tt)
    All-insert_newest key r (s ∷ rows) hr (hs, h) = elim (Bool-cases (newer (key r) (key s))) [
      | inl e ↦ rw e (hr, (hs, h))
      | inr e ↦ rw e (hs, All-insert_newest key r rows hr h)
    ]

    All-newest_first :
        (key : A → Option ℕ) (rows : List A) → All P rows → All P (newest_first key rows)
    unfolding newest_first
    All-newest_first key [] h = tt
    All-newest_first key (r ∷ rows) (hr, h) =
        All-insert_newest key r _ hr (All-newest_first key rows h)

    All-drop : (n : ℕ) (rows : List A) → All P rows → All P (drop n rows)
    All-drop zero rows h = h
    All-drop (suc n) [] h = tt
    All-drop (suc n) (r ∷ rows) (hr, h) = All-drop n rows h

    All-take : (n : ℕ) (rows : List A) → All P rows → All P (take n rows)
    All-take zero rows h = tt
    All-take (suc n) [] h = tt
    All-take (suc n) (r ∷ rows) (hr, h) = (hr, All-take n rows h)

    -- A page has rows of the table.
    pub All-page_of :
        (key : A → Option ℕ) (p : A → Bool) (limit offset : ℕ) (rows : List A)
        → All P rows
        → All P (page_of key p limit offset rows)
    All-page_of key p limit offset rows h =
        All-take limit _ (All-drop offset _ (All-newest_first key _ (All-keep P p rows h)))

-- What holds of the elements holds of their images.
pub All-mapped {ℓ κ} :
    {A : Type ℓ} {B : Type κ} (P : A → Type 0) (Q : B → Type 0) (f : A → B) (xs : List A)
    → ((x : A) → P x → Q (f x))
    → All P xs
    → All Q (map f xs)
All-mapped P Q f [] k h = tt
All-mapped P Q f (x ∷ xs) k (hx, h) = (k x hx, All-mapped P Q f xs k h)

pub length-map {ℓ κ} :
    {A : Type ℓ} {B : Type κ} (f : A → B) (xs : List A) → length (map f xs) ≡ length xs
length-map f [] = refl
length-map f (x ∷ xs) = ap suc (length-map f xs)
