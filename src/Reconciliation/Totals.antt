-- ===== src/Reconciliation/Totals.antt =====
-- What src/indexer/authoritative-state.reader.ts makes of the rows of one wallet: the sum of its
-- investments and its latest score.
use mathlib.Core.Bool.{◌||◌}
use step_fi_api.Common.{
  ℕ, ◌+◌, ◌≡◌, ◌≢◌, inl, inr, refl, sym, ap, ◌∙◌, String, Bool, true, false, List, [], ◌∷◌, ◌++◌,
  map, Option, none, some, str_eq, eq_iff, arith, sum_of, All, Bool-cases, if◌then◌else◌,
}
use step_fi_api.Access.Roles.{includes}
use step_fi_api.Reconciliation.{LiquidityPosition, AuthoritativeReputation, ReputationHistoryRow}
use step_fi_api.Reconciliation.Reader.{
  add_amount, liquidity_by_wallet, add_latest, latest_reputation,
}
use step_fi_api.Reconciliation.Sync.{Distinct}

-- The sum of the amounts of a wallet.
abbrev pub amount_of : String → List LiquidityPosition → ℕ
amount_of k ps = sum_of (λ p. if str_eq p.user_wallet k then p.amount else 0) ps

abbrev pub has_position : String → List LiquidityPosition → Bool
has_position k ps = includes (map (λ p. p.user_wallet) ps) k

amount_of-add_amount :
    (k : String) (ps : List LiquidityPosition) (row : LiquidityPosition)
    → amount_of k (add_amount ps row) ≡ amount_of k ps + amount_of k (row ∷ [])
unfolding add_amount
amount_of-add_amount k [] row = omega arith
amount_of-add_amount k (p ∷ ps) row = elim (Bool-cases (str_eq p.user_wallet row.user_wallet)) [
  | inl same ↦
      let e : p.user_wallet ≡ row.user_wallet = (eq_iff p.user_wallet row.user_wallet).0 same in
      let t : str_eq p.user_wallet k ≡ str_eq row.user_wallet k = ap (λ w. str_eq w k) e in
      rw same (ground (arith, t))
  | inr other ↦ rw other (omega (arith, amount_of-add_amount k ps row))
]

pub amount_of-liquidity_by_wallet :
    (k : String) (totals rows : List LiquidityPosition)
    → amount_of k (liquidity_by_wallet totals rows) ≡ amount_of k totals + amount_of k rows
unfolding liquidity_by_wallet
amount_of-liquidity_by_wallet k totals [] = omega arith
amount_of-liquidity_by_wallet k totals (row ∷ rows) = omega (
  arith,
  amount_of-liquidity_by_wallet k (add_amount totals row) rows,
  amount_of-add_amount k totals row,
)

has_position-add_amount :
    (k : String) (ps : List LiquidityPosition) (row : LiquidityPosition)
    → has_position k (add_amount ps row) ≡ (has_position k ps || str_eq row.user_wallet k)
unfolding add_amount includes
has_position-add_amount k [] row = ground arith
has_position-add_amount k (p ∷ ps) row = elim (Bool-cases (str_eq p.user_wallet row.user_wallet)) [
  | inl same ↦
      let e : p.user_wallet ≡ row.user_wallet = (eq_iff p.user_wallet row.user_wallet).0 same in
      let t : str_eq p.user_wallet k ≡ str_eq row.user_wallet k = ap (λ w. str_eq w k) e in
      rw same (ground (arith, t))
  | inr other ↦ rw other (ground (arith, has_position-add_amount k ps row))
]

pub has_position-liquidity_by_wallet :
    (k : String) (totals rows : List LiquidityPosition)
    → has_position k (liquidity_by_wallet totals rows)
      ≡ (has_position k totals || has_position k rows)
unfolding liquidity_by_wallet includes
has_position-liquidity_by_wallet k totals [] = ground arith
has_position-liquidity_by_wallet k totals (row ∷ rows) = ground (
  arith,
  has_position-liquidity_by_wallet k (add_amount totals row) rows,
  has_position-add_amount k totals row,
)

amount_of-absent :
    (k : String) (ps : List LiquidityPosition)
    → All (λ p. k ≢ p.user_wallet) ps
    → amount_of k ps ≡ 0
amount_of-absent k [] h = refl
amount_of-absent k (p ∷ ps) (ne, h) =
    ground (arith, eq_iff p.user_wallet k, ne, amount_of-absent k ps h)

amount_of-cons :
    (p : LiquidityPosition) (whole rest : List LiquidityPosition)
    → All (λ q. p.user_wallet ≢ q.user_wallet) rest
    → All (λ q. q.amount ≡ amount_of q.user_wallet whole) rest
    → All (λ q. q.amount ≡ amount_of q.user_wallet (p ∷ whole)) rest
amount_of-cons p whole [] other h = tt
amount_of-cons p whole (q ∷ rest) (ne, other) (e, h) =
    (ground (arith, eq_iff p.user_wallet q.user_wallet), amount_of-cons p whole rest other h)

-- With one position for each wallet, its amount is the sum of the wallet's amounts.
pub amount_of-Distinct :
    (ps : List LiquidityPosition)
    → Distinct (λ p. p.user_wallet) ps
    → All (λ p. p.amount ≡ amount_of p.user_wallet ps) ps
amount_of-Distinct [] d = tt
amount_of-Distinct (p ∷ ps) (other, d) = (
  ground (arith, eq_iff p.user_wallet p.user_wallet, amount_of-absent p.user_wallet ps other),
  amount_of-cons p ps ps other (amount_of-Distinct ps d),
)

-- The first score of a wallet, in the list of the reader and in the history, the latest first.
abbrev pub indexed_score : String → List AuthoritativeReputation → Option ℕ
indexed_score k [] = none
indexed_score k (r ∷ rs) = if str_eq r.wallet k then some r.score else indexed_score k rs

abbrev pub latest_score : String → List ReputationHistoryRow → Option ℕ
latest_score k [] = none
latest_score k (r ∷ rs) = if str_eq r.user_wallet k then some r.new_score else latest_score k rs

abbrev or_else : Option ℕ → Option ℕ → Option ℕ
or_else none y = y
or_else (some x) y = some x

indexed_score-append :
    (k : String) (xs : List AuthoritativeReputation) (y : AuthoritativeReputation)
    → indexed_score k (xs ++ y ∷ []) ≡ or_else (indexed_score k xs) (indexed_score k (y ∷ []))
indexed_score-append k [] y = refl
indexed_score-append k (x ∷ xs) y = ground (arith, indexed_score-append k xs y)

indexed_score-includes :
    (k : String) (xs : List AuthoritativeReputation) (y : Option ℕ)
    → includes (map (λ r. r.wallet) xs) k ≡ true
    → or_else (indexed_score k xs) y ≡ indexed_score k xs
unfolding includes
indexed_score-includes k [] y h = cc
indexed_score-includes k (x ∷ xs) y h = ground (arith, indexed_score-includes k xs y)

or_else-none : (x : Option ℕ) → or_else x none ≡ x
or_else-none none = refl
or_else-none (some x) = refl

or_else_assoc : (x y z : Option ℕ) → or_else (or_else x y) z ≡ or_else x (or_else y z)
or_else_assoc none y z = refl
or_else_assoc (some x) y z = refl

indexed_score-add_latest :
    (k : String) (latest : List AuthoritativeReputation) (row : ReputationHistoryRow)
    → indexed_score k (add_latest latest row)
      ≡ or_else (indexed_score k latest) (latest_score k (row ∷ []))
unfolding add_latest
indexed_score-add_latest k latest row =
    elim (Bool-cases (includes (map (λ r. r.wallet) latest) row.user_wallet)) [
      | inr new ↦ rw new (indexed_score-append k latest _)
      | inl old ↦ elim (Bool-cases (str_eq row.user_wallet k)) [
        | inr other ↦ rw (old, other) (sym (or_else-none (indexed_score k latest)))
        | inl same ↦
            let e : row.user_wallet ≡ k = (eq_iff row.user_wallet k).0 same in
            rw (old, same)
              (sym (
                indexed_score-includes k latest (some row.new_score)
                  (sym (ap (includes (map (λ r. r.wallet) latest)) e) ∙ old)))
      ]
    ]

pub indexed_score-latest_reputation :
    (k : String) (latest : List AuthoritativeReputation) (rows : List ReputationHistoryRow)
    → indexed_score k (latest_reputation latest rows)
      ≡ or_else (indexed_score k latest) (latest_score k rows)
unfolding latest_reputation
indexed_score-latest_reputation k latest [] = sym (or_else-none (indexed_score k latest))
indexed_score-latest_reputation k latest (row ∷ rows) =
    indexed_score-latest_reputation k (add_latest latest row) rows
    ∙ ap (λ x. or_else x (latest_score k rows)) (indexed_score-add_latest k latest row)
    ∙ or_else_assoc (indexed_score k latest) (latest_score k (row ∷ [])) (latest_score k rows)
    ∙ ap (or_else (indexed_score k latest)) (go (str_eq row.user_wallet k))
  where
    go :
        (b : Bool)
        → or_else (if b then some row.new_score else none) (latest_score k rows)
          ≡ (if b then some row.new_score else latest_score k rows)
    go true = refl
    go false = refl
