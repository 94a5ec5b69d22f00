-- ===== src/Server/Spaces.antt =====
-- `strings.Split(authHeader, " ")` of internal/server/middleware/middleware.go.
use tucanbit_tvs.Server.Middleware.{split_spaces, cons_first}
use Prim.Native.String
use Prim.Native.String.{String}
use Prim.Native.Char.{Char, code, char}
use text.Mathlib.TextEquality.{Char-path}
use text.Mathlib.TextLemmas.{cons-append, nil-append}
use tucanbit_tvs.Prelude.{
  List, [], ◌∷◌, ◌≡◌, refl, ap, sym, ◌∙◌, Bool, true, not, ◌&&◌, eqb, All, inl, inr, Bool-cases,
  subst, split, arith,
}

abbrev pub space : Char
space = char 32 tt

-- No character is a space.
unfoldable pub no_space : String → Bool
no_space String.[] = true
no_space (String.◌∷◌ c s) = not (eqb (code c) 32) && no_space s

-- The parts with a space between each two.
unfoldable pub join_spaces : List String → String
join_spaces [] = ""
join_spaces (p ∷ []) = p
join_spaces (p ∷ q ∷ ps) = String.◌++◌ p (String.◌∷◌ space (join_spaces (q ∷ ps)))

-- A split has a first part.
split-some : (s : String) → (p : String) × ((ps : List String) × (split_spaces s ≡ p ∷ ps))
unfolding split_spaces
split-some String.[] = ("", ([], refl))
split-some (String.◌∷◌ c s) = elim (Bool-cases (eqb (code c) 32)) [
  | inl e ↦ ("", (split_spaces s, rw e refl))
  | inr e ↦ let (p, (ps, q)) = split-some s in (String.◌∷◌ c p, (ps, rw (e, q) refl))
]

join-cons_first :
    (c : Char) (p : String) (ps : List String)
    → join_spaces (cons_first c (p ∷ ps)) ≡ String.◌∷◌ c (join_spaces (p ∷ ps))
unfolding join_spaces
join-cons_first c p [] = refl
join-cons_first c p (q ∷ ps) = cons-append c p _

join-space :
    (p : String) (ps : List String)
    → join_spaces ("" ∷ p ∷ ps) ≡ String.◌∷◌ space (join_spaces (p ∷ ps))
unfolding join_spaces
join-space p ps = nil-append _

is_space : (c : Char) → eqb (code c) 32 ≡ true → c ≡ space
is_space c e = let number : code c ≡ 32 = ground (arith, e) in Char-path c space number

-- Joining takes a split back.
pub join-split : (s : String) → join_spaces (split_spaces s) ≡ s
unfolding split_spaces join_spaces
join-split String.[] = refl
join-split (String.◌∷◌ c s) =
    let (p, (ps, q)) = split-some s in
    let whole : join_spaces (p ∷ ps) ≡ s = ap join_spaces (sym q) ∙ join-split s in
    elim (Bool-cases (eqb (code c) 32)) [
      | inl e ↦ rw (e, q) (join-space p ps ∙ rw (whole, is_space c e) refl)
      | inr e ↦ rw (e, q) (join-cons_first c p ps ∙ rw whole refl)
    ]

-- No part of a split has a space.
pub split-no_space : (s : String) → All (λ p. no_space p ≡ true) (split_spaces s)
unfolding split_spaces no_space
split-no_space String.[] = (refl, tt)
split-no_space (String.◌∷◌ c s) =
    let (p, (ps, q)) = split-some s in
    let parts : All (λ x. no_space x ≡ true) (p ∷ ps) =
      subst (All (λ x. no_space x ≡ true)) q (split-no_space s) in
    elim (Bool-cases (eqb (code c) 32)) [
      | inl e ↦ rw e (refl, split-no_space s)
      | inr e ↦ rw (e, q) (rw e parts.0, parts.1)
    ]

-- A text without a space is its own split.
split_one : (s : String) → no_space s ≡ true → split_spaces s ≡ s ∷ []
unfolding split_spaces no_space
split_one String.[] h = refl
split_one (String.◌∷◌ c s) h =
    let (here, rest) = split (not (eqb (code c) 32)) (no_space s) h in
    rw (split_one s rest) (ground (arith, here))

-- Two texts without a space and a space between them.
pub split_two :
    (s t : String)
    → no_space s ≡ true
    → no_space t ≡ true
    → split_spaces (String.◌++◌ s (String.◌∷◌ space t)) ≡ s ∷ t ∷ []
unfolding split_spaces no_space
split_two String.[] t h k = rw (nil-append (String.◌∷◌ space t), split_one t k) refl
split_two (String.◌∷◌ c s) t h k =
    let (here, rest) = split (not (eqb (code c) 32)) (no_space s) h in
    rw (cons-append c s (String.◌∷◌ space t), split_two s t rest k) (ground (arith, here))
