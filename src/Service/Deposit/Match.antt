-- ===== src/Service/Deposit/Match.antt =====
-- The search for the matching transaction in `processVerifiedDeposit`.
use tucanbit_tvs.Float.{FloatOps, Float, leb_float}
use tucanbit_tvs.Domain.Session.{DepositSession}
use tucanbit_tvs.Domain.Solana.{SplTokenType, HeliusTransaction, NativeTransfer, TokenTransfer}
use tucanbit_tvs.Effects.{Try, done, error}
use tucanbit_tvs.Prelude.{
  String, ℕ, ◌≡◌, Any, Option, find_first, ◌==◌, true, ◌&&◌, ◌⊎◌, refl, inl, some, inr, false,
  find_first-Any, split, eq_of_==, none, subst, ◌∷◌, [], List, Bool-cases, Bool, ◌∙◌, if◌then◌else◌,
  ap, ◌≢◌, sym, not,
}
use tucanbit_tvs.Service.Deposit.{
  Match, adjusted, take_native, is_sol, pays_token, take_token, visit, ok, find_match, no_match,
  Result, end_of_round, err,
}
use tucanbit_tvs.Helius.Payments.{for_kind, pays_token_lem}
use tucanbit_tvs.Db.Rows.{err, panic}

-- The match is a TRANSFER with a transfer to the wallet of at least the required amount, and its
-- amount is that transfer's.
unfoldable pub IsMatch :
    FloatOps → DepositSession → SplTokenType → Float → Try String → ℕ → Match → Type 0
IsMatch ops session token required mint decimals m =
    (m.0.kind ≡ "TRANSFER")
    × for_kind token
        (Any
          (λ t.
            (t.to_user_account ≡ session.wallet_address)
            × (leb_float required (adjusted ops decimals t) ≡ true)
            × (m.1 ≡ adjusted ops decimals t))
          m.0.native_transfers)
        ((target : String) × (mint ≡ done target)
          × Any
              (λ t.
                (t.to_user_account ≡ session.wallet_address)
                × (t.mint ≡ target)
                × (leb_float required t.token_amount ≡ true)
                × (m.1 ≡ t.token_amount))
              m.0.token_transfers)

-- The match is the one that the loop had before, or one of this transaction.
abbrev Found :
    FloatOps
    → DepositSession
    → SplTokenType
    → Float
    → Try String
    → ℕ
    → HeliusTransaction
    → Match
    → Match
    → Type 0
Found ops session token required mint decimals tx acc m =
    (m ≡ acc) ⊎ ((m.0 ≡ tx) × IsMatch ops session token required mint decimals m)

module _ (ops : FloatOps) (session : DepositSession) (required : Float) (mint : Try String)
    (decimals : ℕ) where
  take_native_lem :
      (tx : HeliusTransaction) (acc : Match) (found : Option NativeTransfer)
      → tx.kind ≡ "TRANSFER"
      → find_first
          (λ t.
            t.to_user_account == session.wallet_address
            && leb_float required (adjusted ops decimals t))
          tx.native_transfers
        ≡ found
      → Found ops session SplTokenType.sol required mint decimals tx acc
          (take_native ops decimals tx acc found)
  unfolding IsMatch
  take_native_lem tx acc none k f = inl refl
  take_native_lem tx acc (some t) k f = inr (
    refl,
    (
      k,
      find_first-Any _ _ tx.native_transfers t
          (λ h.
            let (a, l) = split (t.to_user_account == session.wallet_address) _ h in
            (eq_of_== t.to_user_account session.wallet_address a, l, refl))
          f,
    ),
  )

  take_token_lem :
      (token : SplTokenType) (target : String) (tx : HeliusTransaction) (acc : Match)
      (found : Option TokenTransfer)
      → is_sol token ≡ false
      → mint ≡ done target
      → tx.kind ≡ "TRANSFER"
      → find_first (pays_token session.wallet_address target required) tx.token_transfers ≡ found
      → Found ops session token required mint decimals tx acc (take_token tx acc found)
  unfolding IsMatch
  take_token_lem token target tx acc none s e k f = inl refl
  take_token_lem SplTokenType.sol target tx acc (some t) s e k f = cc
  take_token_lem SplTokenType.usdc target tx acc (some t) s e k f = inr (
    refl,
    (
      k,
      (
        target,
        e,
        find_first-Any _ _ tx.token_transfers t
            (λ h. let (a, m, l) = pays_token_lem _ target required t h in (a, m, l, refl)) f,
      ),
    ),
  )
  take_token_lem SplTokenType.usdt target tx acc (some t) s e k f = inr (
    refl,
    (
      k,
      (
        target,
        e,
        find_first-Any _ _ tx.token_transfers t
            (λ h. let (a, m, l) = pays_token_lem _ target required t h in (a, m, l, refl)) f,
      ),
    ),
  )

end_of_round_inv :
    (transfer : Bool) (later : Match → Result Match) (r : Result Match) (m : Match)
    → end_of_round transfer later r ≡ ok m
    → (acc : Match) × (r ≡ ok acc) × ((m ≡ acc) ⊎ (later acc ≡ ok m))
end_of_round_inv transfer later (err e) m h = cc
end_of_round_inv transfer later (panic text) m h = cc
end_of_round_inv transfer later (ok acc) m h = (
  acc,
  refl,
  elim (Bool-cases (transfer && not (acc.0.signature == ""))) [
    | inl e ↦ inl (cc (subst (λ b. (if b then ok acc else later acc) ≡ ok m) e h))
    | inr e ↦ inr (subst (λ b. (if b then ok acc else later acc) ≡ ok m) e h)
  ],
)

module _ (ops : FloatOps) (session : DepositSession) (required : Float) (decimals : ℕ) where
  visit_lem :
      (token : SplTokenType) (mint : Try String) (tx : HeliusTransaction) (acc m : Match)
      → tx.kind ≡ "TRANSFER"
      → visit ops session token required mint decimals tx acc ≡ ok m
      → Found ops session token required mint decimals tx acc m
  unfolding visit
  visit_lem SplTokenType.sol mint tx acc m k h =
      subst (Found ops session SplTokenType.sol required mint decimals tx acc) (cc h)
        (take_native_lem ops session required mint decimals tx acc _ k refl)
  visit_lem SplTokenType.usdc (error e) tx acc m k h = cc
  visit_lem SplTokenType.usdt (error e) tx acc m k h = cc
  visit_lem SplTokenType.usdc (done target) tx acc m k h =
      subst (Found ops session SplTokenType.usdc required (done target) decimals tx acc) (cc h) (
        take_token_lem ops session required (done target) decimals SplTokenType.usdc target tx acc _
          refl refl k refl)
  visit_lem SplTokenType.usdt (done target) tx acc m k h =
      subst (Found ops session SplTokenType.usdt required (done target) decimals tx acc) (cc h) (
        take_token_lem ops session required (done target) decimals SplTokenType.usdt target tx acc _
          refl refl k refl)

  visit_or_skip :
      (token : SplTokenType) (mint : Try String) (tx : HeliusTransaction) (acc m : Match) (b : Bool)
      → (tx.kind == "TRANSFER") ≡ b
      → (if b then visit ops session token required mint decimals tx acc else ok acc) ≡ ok m
      → Found ops session token required mint decimals tx acc m
  visit_or_skip token mint tx acc m true e h =
      visit_lem token mint tx acc m (eq_of_== tx.kind "TRANSFER" e) h
  visit_or_skip token mint tx acc m false e h = inl (cc h)

  -- A match that was kept through the rest of the list.
  widen :
      (token : SplTokenType) (mint : Try String) (tx : HeliusTransaction)
      (txs : List HeliusTransaction) (acc acc' m : Match)
      → Found ops session token required mint decimals tx acc acc'
      → (m ≡ acc')
        ⊎ (Any (λ tx'. m.0 ≡ tx') txs × IsMatch ops session token required mint decimals m)
      → (m ≡ acc)
        ⊎ (Any (λ tx'. m.0 ≡ tx') (tx ∷ txs) × IsMatch ops session token required mint decimals m)
  widen token mint tx txs acc acc' m (inl e) (inl h) = inl (h ∙ e)
  widen token mint tx txs acc acc' m (inr (e, f)) (inl h) = inr (
    inl (ap (λ n. n.0) h ∙ e),
    subst (IsMatch ops session token required mint decimals) (sym h) f,
  )
  widen token mint tx txs acc acc' m f (inr (a, g)) = inr (inr a, g)

  find_match_lem :
      (token : SplTokenType) (mint : Try String) (txs : List HeliusTransaction) (acc m : Match)
      → find_match ops session token required mint decimals txs acc ≡ ok m
      → (m ≡ acc) ⊎ (Any (λ tx. m.0 ≡ tx) txs × IsMatch ops session token required mint decimals m)
  unfolding find_match
  find_match_lem token mint [] acc m h = inl (cc h)
  find_match_lem token mint (tx ∷ txs) acc m h =
      let (acc', v, l) = end_of_round_inv (tx.kind == "TRANSFER") _ _ m h in
      widen token mint tx txs acc acc' m (visit_or_skip token mint tx acc acc' _ refl v)
        (elim l [ inl e ↦ inl e | inr e ↦ find_match_lem token mint txs acc' m e ])

-- When the loop of `processVerifiedDeposit` ends with a match that has a signature, the match is one
-- of the given transactions, it is a TRANSFER, and one of its transfers goes to the session's wallet,
-- carries at least the required amount (in the configured token), and is the amount that is credited.
pub find_match_sound :
    (ops : FloatOps) (session : DepositSession) (token : SplTokenType) (required : Float)
    (mint : Try String) (decimals : ℕ) (transactions : List HeliusTransaction) (matched : Match)
    → find_match ops session token required mint decimals transactions no_match ≡ ok matched
    → matched.0.signature ≢ ""
    → Any (λ tx. matched.0 ≡ tx) transactions
      × IsMatch ops session token required mint decimals matched
find_match_sound ops session token required mint decimals transactions matched h n =
    elim (find_match_lem ops session required decimals token mint transactions no_match matched h) [
      | inl e ↦ absurd (n (ap (λ m. m.0.signature) e))
      | inr f ↦ f
    ]
