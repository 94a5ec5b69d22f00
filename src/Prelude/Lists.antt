-- ===== src/Prelude/Lists.antt =====
-- Lists measured by native numbers, under the library's names, and searches through a list.
use Prim.Native.Nat.{ℕ, zero, suc, ◌+◌}
use mathlib.Core.Path.{◌≡◌, refl, ap, sym, subst}
use mathlib.Core.Bool.{Bool, true, false, ◌||◌}
use mathlib.Core.List.{List, [], ◌∷◌, ◌++◌, map}
use mathlib.Core.Logic.{inl, inr, ◌⊎◌}
use mathlib.Core.Option.{Option, none, some}
use native.Mathlib.Omega.{arith}
use tucanbit_tvs.Prelude.Tests.{if◌then◌else◌, Bool-cases}

module _ {ℓ} {A : Type ℓ} where
  abbrev pub length : List A → ℕ
  length [] = 0
  length (x ∷ xs) = suc (length xs)

  abbrev pub take : ℕ → List A → List A
  take zero xs = []
  take (suc n) [] = []
  take (suc n) (x ∷ xs) = x ∷ take n xs

  abbrev pub drop : ℕ → List A → List A
  drop zero xs = xs
  drop (suc n) [] = []
  drop (suc n) (x ∷ xs) = drop n xs

  -- The elements that pass a test, in order.
  abbrev pub keep : (A → Bool) → List A → List A
  keep p [] = []
  keep p (x ∷ xs) = let rest = keep p xs in if p x then x ∷ rest else rest

  -- The first element that passes a test.
  abbrev pub find_first : (A → Bool) → List A → Option A
  find_first p [] = none
  find_first p (x ∷ xs) = if p x then some x else find_first p xs

  -- Some element passes a test.
  abbrev pub any : (A → Bool) → List A → Bool
  any p [] = false
  any p (x ∷ xs) = p x || any p xs

  -- Change the elements that pass a test.
  abbrev pub update_where : (A → Bool) → (A → A) → List A → List A
  update_where p f [] = []
  update_where p f (x ∷ xs) = (if p x then f x else x) ∷ update_where p f xs

  abbrev pub All {κ} : (A → Type κ) → List A → Type κ
  All P [] = Unit
  All P (x ∷ xs) = P x × All P xs

  pub length-append : (xs ys : List A) → length (xs ++ ys) ≡ length xs + length ys
  length-append [] ys = omega arith
  length-append (x ∷ xs) ys = omega (arith, length-append xs ys)

  pub length-update_where :
      (p : A → Bool) (f : A → A) (xs : List A) → length (update_where p f xs) ≡ length xs
  length-update_where p f [] = refl
  length-update_where p f (x ∷ xs) = ap suc (length-update_where p f xs)

  -- A found element passes the test.
  pub find_first-passes :
      (p : A → Bool) (xs : List A) (a : A) → find_first p xs ≡ some a → p a ≡ true
  find_first-passes p [] a h = cc
  find_first-passes p (x ∷ xs) a h = ground (arith, find_first-passes p xs a)

-- A function that the change leaves alone has the same values on the list.
pub map-update_where {ℓ κ} :
    {A : Type ℓ} {B : Type κ} (g : A → B) (p : A → Bool) (f : A → A) (xs : List A)
    → ((x : A) → p x ≡ true → g (f x) ≡ g x)
    → map g (update_where p f xs) ≡ map g xs
map-update_where g p f [] h = refl
map-update_where g p f (x ∷ xs) h = elim (Bool-cases (p x)) [
  | inl e ↦ rw e (cc (h x e, map-update_where g p f xs h))
  | inr e ↦ rw e (cc (map-update_where g p f xs h))
]

module _ {ℓ} {A : Type ℓ} where
  -- Some element satisfies a predicate.
  abbrev pub Any : (A → Type 0) → List A → Type 0
  Any P [] = ⊥
  Any P (x ∷ xs) = P x ⊎ Any P xs

  pub any-Any :
      {P : A → Type 0} (p : A → Bool) (xs : List A)
      → ((x : A) → p x ≡ true → P x)
      → any p xs ≡ true
      → Any P xs
  any-Any p [] k h = cc
  any-Any p (x ∷ xs) k h = elim (Bool-cases (p x)) [
    | inl e ↦ inl (k x e)
    | inr e ↦ inr (any-Any p xs k (subst (λ b. (b || any p xs) ≡ true) e h))
  ]

  pub find_first-Any :
      (P : A → Type 0) (p : A → Bool) (xs : List A) (a : A)
      → (p a ≡ true → P a)
      → find_first p xs ≡ some a
      → Any P xs
  find_first-Any P p [] a k h = cc
  find_first-Any P p (x ∷ xs) a k h = elim (Bool-cases (p x)) [
    | inl e ↦
        let same : some x ≡ some a =
          subst (λ b. (if b then some x else find_first p xs) ≡ some a) e h in
        let here : x ≡ a = cc same in inl (subst P (sym here) (k (subst (λ y. p y ≡ true) here e)))
    | inr e ↦ inr (
        find_first-Any P p xs a k
          (subst (λ b. (if b then some x else find_first p xs) ≡ some a) e h))
  ]

  pub All-update_where :
      {P Q : A → Type 0} (p : A → Bool) (f : A → A) (xs : List A)
      → ((x : A) → p x ≡ true → P x → Q (f x))
      → ((x : A) → P x → Q x)
      → All P xs
      → All Q (update_where p f xs)
  All-update_where p f [] h k hs = tt
  All-update_where {P} {Q} p f (x ∷ xs) h k (hx, hs) = (
    elim (Bool-cases (p x)) [
      | inl e ↦ subst (λ b. Q (if b then f x else x)) (sym e) (h x e hx)
      | inr e ↦ subst (λ b. Q (if b then f x else x)) (sym e) (k x hx)
    ],
    All-update_where p f xs h k hs,
  )

  pub All-map : {P Q : A → Type 0} (xs : List A) → ((x : A) → P x → Q x) → All P xs → All Q xs
  All-map [] k hs = tt
  All-map (x ∷ xs) k (hx, hs) = (k x hx, All-map xs k hs)

  pub All-append : (P : A → Type 0) (xs ys : List A) → All P xs → All P ys → All P (xs ++ ys)
  All-append P [] ys h k = k
  All-append P (x ∷ xs) ys (hx, h) k = (hx, All-append P xs ys h k)

  pub All-keep {κ} : (P : A → Type κ) (p : A → Bool) (xs : List A) → All P xs → All P (keep p xs)
  All-keep P p [] h = tt
  All-keep P p (x ∷ xs) (hx, h) = elim (Bool-cases (p x)) [
    | inl e ↦ rw e (hx, All-keep P p xs h)
    | inr e ↦ rw e (All-keep P p xs h)
  ]
