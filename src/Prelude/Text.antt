-- ===== src/Prelude/Text.antt =====
-- Go strings: equality of whole texts by the native test, `strings.Contains` over the code points,
-- and the concatenation that `fmt.Sprintf` of string verbs amounts to.
use Prim.Native.Nat.{ℕ}
use Prim.Native.Char.{code}
use Prim.Native.String
use Prim.Native.String.{String}
use mathlib.Core.Path.{◌≡◌, refl, ap, ◌∙◌}
use mathlib.Core.Bool.{Bool, true, false, ◌&&◌, ◌||◌}
use mathlib.Core.List.{List, [], ◌∷◌, ◌++◌}
use native.Mathlib.Omega.{arith}
use text.Mathlib.TextLemmas.{cons-append, nil-append}
use tucanbit_tvs.Prelude.Tests.{eqb, Bool-cases}
use text.Mathlib.TextEquality.{eq_iff}
use mathlib.Core.Logic.{◌≢◌, inl, inr}
pub use text.Mathlib.Text.{◌==◌}

abbrev pub codes : String → List ℕ
codes String.[] = []
codes (String.◌∷◌ c s) = code c ∷ codes s

abbrev pub concat : List String → String
concat [] = ""
concat (s ∷ ss) = String.◌++◌ s (concat ss)

-- The second list is a prefix of the first.
pub has_prefix : List ℕ → List ℕ → Bool
has_prefix hay [] = true
has_prefix [] (n ∷ needle) = false
has_prefix (h ∷ hay) (n ∷ needle) = eqb h n && has_prefix hay needle

pub has_infix : List ℕ → List ℕ → Bool
unfolding has_prefix
has_infix [] needle = has_prefix [] needle
has_infix (h ∷ hay) needle = has_prefix (h ∷ hay) needle || has_infix hay needle

-- `strings.Contains(s, sub)`
unfoldable pub contains : String → String → Bool
unfolding has_infix has_prefix
contains s sub = has_infix (codes s) (codes sub)

has_prefix-append : (xs ys : List ℕ) → has_prefix (xs ++ ys) xs ≡ true
unfolding has_prefix
has_prefix-append [] [] = refl
has_prefix-append [] (y ∷ ys) = refl
has_prefix-append (x ∷ xs) ys = ground (arith, has_prefix-append xs ys)

has_infix_of_prefix :
    (hay needle : List ℕ) → has_prefix hay needle ≡ true → has_infix hay needle ≡ true
unfolding has_infix
has_infix_of_prefix [] needle h = h
has_infix_of_prefix (x ∷ hay) needle h = ground arith

has_infix-append : (xs ys zs : List ℕ) → has_infix (xs ++ (ys ++ zs)) ys ≡ true
unfolding has_infix
has_infix-append [] ys zs = has_infix_of_prefix (ys ++ zs) ys (has_prefix-append ys zs)
has_infix-append (x ∷ xs) ys zs = ground (arith, has_infix-append xs ys zs)

codes-append : (s t : String) → codes (String.◌++◌ s t) ≡ codes s ++ codes t
codes-append String.[] t = ap codes (nil-append t)
codes-append (String.◌∷◌ c s) t =
    ap codes (cons-append c s t) ∙ ap (λ r. code c ∷ r) (codes-append s t)

-- A text contains every text that it was joined from.
pub contains-append : (s t u : String) → contains (String.◌++◌ s (String.◌++◌ t u)) t ≡ true
unfolding contains
contains-append s t u =
    rw (codes-append s (String.◌++◌ t u), codes-append t u)
      (has_infix-append (codes s) (codes t) (codes u))

pub eq_of_== : (s t : String) → (s == t) ≡ true → s ≡ t
eq_of_== s t = (eq_iff s t).0

pub ==-refl : (s : String) → (s == s) ≡ true
==-refl s = (eq_iff s s).1 refl

pub ne_test : (s t : String) → s ≢ t → (s == t) ≡ false
ne_test s t n = elim (Bool-cases (s == t)) [ inl e ↦ absurd (n (eq_of_== s t e)) | inr e ↦ e ]
