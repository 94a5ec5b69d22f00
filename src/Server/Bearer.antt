-- ===== src/Server/Bearer.antt =====
-- The header that `AuthMiddleware` of internal/server/middleware/middleware.go takes a token from.
use tucanbit_tvs.Server.Spaces.{space, no_space, join_spaces, join-split, split-no_space, split_two}
use tucanbit_tvs.Server.Middleware.{split_spaces, bearer, or_format_error, find_token}
use tucanbit_tvs.Server.Request.{Request}
use Prim.Native.String
use Prim.Native.String.{String}
use Prim.Native.Char.{Char, char}
use text.Mathlib.TextLemmas.{cons-append}
use tucanbit_tvs.Prelude.{
  List, [], ◌∷◌, ◌≡◌, refl, ap, sym, ◌∙◌, Bool, true, false, not, ◌⊎◌, if◌then◌else◌, All, inl, inr,
  Bool-cases, ◌↔◌, some, none, subst, ◌==◌, Option, eq_of_==, ne_test,
}

-- Two equal results hold one value.
some_inv : {s t : String} → Path (Option String) (some s) (some t) → s ≡ t
some_inv e = cc e

bearer_word :
    (p q token : String)
    → p == "Bearer" ≡ true
    → bearer (p ∷ q ∷ []) ≡ some token
    → p ∷ q ∷ [] ≡ "Bearer" ∷ token ∷ []
bearer_word p q token e h =
    let given : (if p == "Bearer" then some q else none) ≡ some token = h in
    let same : q ≡ token =
      some_inv (subst (λ b. (if b then some q else none) ≡ some token) e given) in
    rw (eq_of_== p "Bearer" e, same) refl

bearer_inv :
    (parts : List String) (token : String)
    → bearer parts ≡ some token
    → parts ≡ "Bearer" ∷ token ∷ []
bearer_inv [] token h = absurd (cc h)
bearer_inv (p ∷ []) token h = absurd (cc h)
bearer_inv (p ∷ q ∷ []) token h = elim (Bool-cases (p == "Bearer")) [
  | inl e ↦ bearer_word p q token e h
  | inr e ↦ absurd (cc (h, e))
]
bearer_inv (p ∷ q ∷ r ∷ ps) token h = absurd (cc h)

-- A header gives a token exactly if it is the word `Bearer`, one space and the token, and the token
-- has no space.
bearer-split_spaces :
    (header token : String)
    → (bearer (split_spaces header) ≡ some token)
      ↔ ((header ≡ String.◌++◌ "Bearer" (String.◌∷◌ space token)) × (no_space token ≡ true))
unfolding join_spaces no_space
bearer-split_spaces header token = (
  λ h.
      let parts = bearer_inv (split_spaces header) token h in
      (
        sym (join-split header) ∙ ap join_spaces parts,
        (subst (All (λ p. no_space p ≡ true)) parts (split-no_space header)).1.0,
      ),
  λ (e, k). rw (e, split_two "Bearer" token refl k) refl,
)

-- The request names the token in its header Authorization, or without that header in its query.
abbrev pub Names : Request → String → Type 0
Names request token =
    ((request.authorization ≡ String.◌++◌ "Bearer" (String.◌∷◌ space token))
      × (no_space token ≡ true))
    ⊎ ((request.authorization ≡ "") × ((request.token ≡ token) × ((token == "") ≡ false)))

or_format_error_inv :
    (found : Option String) (token : String)
    → or_format_error found ≡ inr token
    → found ≡ some token
or_format_error_inv none token h = absurd (cc h)
or_format_error_inv (some t) token h = ap some (cc h)

-- The choice between the header and the query.
abbrev choose : Bool → Bool → Request → String ⊎ String
choose without_header without_query request =
    if not without_header
    then or_format_error (bearer (split_spaces request.authorization))
    else if without_query
    then inl "Authorization token required via Authorization header or token query parameter"
    else inr request.token

header_inv :
    (request : Request) (token : String)
    → request.authorization == "" ≡ false
    → find_token request ≡ inr token
    → bearer (split_spaces request.authorization) ≡ some token
unfolding find_token
header_inv request token e h =
    or_format_error_inv (bearer (split_spaces request.authorization)) token
      (subst (λ b. choose b (request.token == "") request ≡ inr token) e h)

query_inv :
    (request : Request) (token : String)
    → request.authorization == "" ≡ true
    → find_token request ≡ inr token
    → (request.token ≡ token) × ((token == "") ≡ false)
unfolding find_token
query_inv request token e h =
    let chosen : choose true (request.token == "") request ≡ inr token =
      subst (λ b. choose b (request.token == "") request ≡ inr token) e h in
    elim (Bool-cases (request.token == "")) [
      | inl q ↦ absurd (cc (subst (λ b. choose true b request ≡ inr token) q chosen))
      | inr q ↦
          let same : request.token ≡ token =
            cc (subst (λ b. choose true b request ≡ inr token) q chosen) in
          (same, subst (λ t. (t == "") ≡ false) same q)
    ]

find_token-inv :
    (request : Request) (token : String) → find_token request ≡ inr token → Names request token
find_token-inv request token h = elim (Bool-cases (request.authorization == "")) [
  | inl e ↦ inr (eq_of_== request.authorization "" e, query_inv request token e h)
  | inr e ↦ inl ((bearer-split_spaces request.authorization token).0 (header_inv request token e h))
]

cons_not_empty : (c : Char) (s : String) → (String.◌∷◌ c s == "") ≡ false
cons_not_empty c s = ne_test (String.◌∷◌ c s) "" (λ e. cc e)

append_not_empty : (c : Char) (s t : String) → (String.◌++◌ (String.◌∷◌ c s) t == "") ≡ false
append_not_empty c s t = rw (cons-append c s t) (cons_not_empty c (String.◌++◌ s t))

find_token-named :
    (request : Request) (token : String) → Names request token → find_token request ≡ inr token
unfolding find_token
find_token-named request token (inl (e, k)) =
    rw
      (
        e,
        append_not_empty (char 66 tt) "earer" (String.◌∷◌ space token),
        (bearer-split_spaces _ token).1 (refl, k),
      )
      refl
find_token-named request token (inr (e, (q, k))) = rw (e, q, k) refl

-- The middleware takes a token from a request exactly if the header Authorization is the word
-- `Bearer`, one space and the token, which has no space in it, or the header is missing and the
-- query parameter is the token and not empty.
pub find_token-Names :
    (request : Request) (token : String) → (find_token request ≡ inr token) ↔ Names request token
find_token-Names request token = (find_token-inv request token, find_token-named request token)
