-- ===== src/Reconciliation/Convergence.antt =====
-- That src/jobs/state-reconciliation/state-reconciliation.processor.ts brings the positions and the
-- scores to the chain's values, and then leaves them.
use step_fi_api.Common.{
  ℕ, ◌==◌, ◌≡◌, ◌≢◌, ◌⊎◌, inl, inr, refl, sym, ap, ◌∙◌, subst, String, true, false, List, [], ◌∷◌,
  Option, none, some, str_eq, arith, returns, All, Bool-cases, call-require,
}
use step_fi_api.Reconciliation.{
  LiquidityPosition, AuthoritativeReputation, LiquidityRow, ReputationRow, DriftItem,
  ReconciliationEnv, last_match,
}
use step_fi_api.Reconciliation.Wallets.{
  reconcile_found_score, reconcile_score, reconcile_reputation, reconcile_found_position,
  reconcile_position, reconcile_liquidity,
}
use step_fi_api.Reconciliation.Sync.{Distinct, All-pure, sync-Settled, sync-again}

abbrev pub score_in : List ReputationRow → String → Option ReputationRow
score_in rows wallet = last_match (λ row. str_eq row.wallet_address wallet) rows

abbrev pub position_in : List LiquidityRow → String → Option LiquidityRow
position_in rows wallet = last_match (λ row. str_eq row.provider_wallet wallet) rows

-- The tables can be read, and a write that succeeds changes the row of its wallet and no other.
pub record TableLaws {S : Type 0} (env : ReconciliationEnv S) : Type 0 where
  pub scores : S → List ReputationRow
  pub scores_read : (s : S) → env.reputation_cache s ≡ some (scores s)
  pub score_updated :
      (wallet : String) (score : ℕ) (s t : S) (row : ReputationRow)
      → score_in (scores s) wallet ≡ some row
      → env.update_score wallet score s ≡ (true, t)
      → ((row' : ReputationRow) × (score_in (scores t) wallet ≡ some row') × (row'.score ≡ score))
        × ((k : String) → wallet ≢ k → score_in (scores t) k ≡ score_in (scores s) k)
  pub positions : S → List LiquidityRow
  pub positions_read : (s : S) → env.positions s ≡ some (positions s)
  pub position_updated :
      (p : LiquidityPosition) (s t : S) (row : LiquidityRow)
      → position_in (positions s) p.user_wallet ≡ some row
      → env.update_position row.id p s ≡ (true, t)
      → ((row' : LiquidityRow) × (position_in (positions t) p.user_wallet ≡ some row')
          × (row'.deposited_amount ≡ p.amount))
        × ((k : String)
            → p.user_wallet ≢ k
            → position_in (positions t) k ≡ position_in (positions s) k)
  pub position_inserted :
      (p : LiquidityPosition) (s t : S)
      → position_in (positions s) p.user_wallet ≡ none
      → env.insert_position p s ≡ (true, t)
      → ((row' : LiquidityRow) × (position_in (positions t) p.user_wallet ≡ some row')
          × (row'.deposited_amount ≡ p.amount))
        × ((k : String)
            → p.user_wallet ≢ k
            → position_in (positions t) k ≡ position_in (positions s) k)

-- The row of a wallet, if there is one, has the chain's score.
abbrev pub ScoreSettled : AuthoritativeReputation → Option ReputationRow → Type 0
ScoreSettled x o = (o ≡ none) ⊎ ((row : ReputationRow) × (o ≡ some row) × (row.score ≡ x.score))

-- The wallet has a row with the chain's amount.
abbrev pub PositionSettled : LiquidityPosition → Option LiquidityRow → Type 0
PositionSettled p o = (row : LiquidityRow) × (o ≡ some row) × (row.deposited_amount ≡ p.amount)

module _ {S : Type 0} (env : ReconciliationEnv S) (laws : TableLaws env) where
  abbrev pub score_view : String → S → Option ReputationRow
  score_view k s = score_in (laws.scores s) k

  abbrev pub position_view : String → S → Option LiquidityRow
  position_view k s = position_in (laws.positions s) k

  -- What a step on a score has done: nothing, or a successful update of a row that was there.
  score_step :
      (x : AuthoritativeReputation) (o : Option ReputationRow) (s t : S) (items : List DriftItem)
      → reconcile_found_score env o x s ≡ returns items t
      → ((s ≡ t) × ScoreSettled x o)
        ⊎ ((row : ReputationRow) × (o ≡ some row)
            × (env.update_score x.wallet x.score s ≡ (true, t)))
  score_step x none s t items h = inl (ground arith, inl refl)
  score_step x (some row) s t items h = elim (Bool-cases (row.score == x.score)) [
    | inl same ↦ inl (ground arith, inr (row, refl, ground arith))
    | inr stale ↦
        let wrote = rw stale at h in
        inr (row, refl, (call-require (env.update_score x.wallet x.score) _ _ s wrote).0)
  ]

  score_settles :
      (x : AuthoritativeReputation) (s t : S) (items : List DriftItem)
      → reconcile_found_score env (score_view x.wallet s) x s ≡ returns items t
      → ScoreSettled x (score_view x.wallet t)
  score_settles x s t items h = elim (score_step x (score_view x.wallet s) s t items h) [
    | inl (same, settled) ↦ subst (λ u. ScoreSettled x (score_view x.wallet u)) same settled
    | inr (row, there, wrote) ↦ inr ((laws.score_updated x.wallet x.score s t row there wrote).0)
  ]

  score_keeps :
      (x : AuthoritativeReputation) (k : String) (s t : S) (items : List DriftItem)
      → x.wallet ≢ k
      → reconcile_found_score env (score_view x.wallet s) x s ≡ returns items t
      → score_view k t ≡ score_view k s
  score_keeps x k s t items ne h = elim (score_step x (score_view x.wallet s) s t items h) [
    | inl (same, _) ↦ ap (score_view k) (sym same)
    | inr (row, there, wrote) ↦ (laws.score_updated x.wallet x.score s t row there wrote).1 k ne
  ]

  score_again :
      (x : AuthoritativeReputation) (o : Option ReputationRow) (s : S)
      → ScoreSettled x o
      → (items : List DriftItem) × (reconcile_found_score env o x s ≡ returns items s)
        × All (λ item. item.repaired ≡ false) items
  score_again x none s settled = (_, refl, (refl, tt))
  score_again x (some row) s (inl e) = cc
  score_again x (some row) s (inr (row', same, right)) = ([], ground arith, tt)

  -- Take tables that can be read and whose successful writes change the row of their wallet only, and
  -- scores of the chain of distinct wallets. After a reconciliation of the scores that has answered,
  -- every row of one of these wallets has the chain's score, and another reconciliation writes
  -- nothing and reports no repair: it reports the wallets without a row, if anything.
  pub reconcile_reputation-again :
      (chain : List AuthoritativeReputation) (s t : S) (items : List DriftItem)
      → Distinct (λ x. x.wallet) chain
      → reconcile_reputation env chain s ≡ returns items t
      → All (λ x. ScoreSettled x (score_view x.wallet t)) chain
        × ((again : List DriftItem) × (reconcile_reputation env chain t ≡ returns again t)
            × All (λ item. item.repaired ≡ false) again)
  unfolding reconcile_reputation reconcile_score
  reconcile_reputation-again chain s t items distinct h =
      let settled =
        sync-Settled (λ x. x.wallet) score_view (reconcile_found_score env) ScoreSettled
          score_settles score_keeps (score_in (laws.scores s)) chain s t items distinct
          (All-pure _ (λ x. refl) chain) (rw (laws.scores_read s, reconcile_reputation) at h) in
      let (again, ran, fine) =
        sync-again (λ x. x.wallet) score_view (reconcile_found_score env) ScoreSettled score_settles
          score_keeps (λ item. item.repaired ≡ false) score_again (score_in (laws.scores t)) chain t
          settled in
      (settled, (again, rw (laws.scores_read t, reconcile_reputation) ran, fine))

  position_step :
      (p : LiquidityPosition) (o : Option LiquidityRow) (s t : S) (items : List DriftItem)
      → reconcile_found_position env o p s ≡ returns items t
      → ((s ≡ t) × PositionSettled p o)
        ⊎ (((o ≡ none) × (env.insert_position p s ≡ (true, t)))
            ⊎ ((row : LiquidityRow) × (o ≡ some row)
                × (env.update_position row.id p s ≡ (true, t))))
  position_step p none s t items h =
      inr (inl (refl, (call-require (env.insert_position p) _ _ s h).0))
  position_step p (some row) s t items h = elim (Bool-cases (row.deposited_amount == p.amount)) [
    | inl same ↦ inl (ground arith, (row, refl, ground arith))
    | inr stale ↦
        let wrote = rw stale at h in
        inr (inr (row, refl, (call-require (env.update_position row.id p) _ _ s wrote).0))
  ]

  position_settles :
      (p : LiquidityPosition) (s t : S) (items : List DriftItem)
      → reconcile_found_position env (position_view p.user_wallet s) p s ≡ returns items t
      → PositionSettled p (position_view p.user_wallet t)
  position_settles p s t items h =
      elim (position_step p (position_view p.user_wallet s) s t items h) [
        | inl (same, settled) ↦
            subst (λ u. PositionSettled p (position_view p.user_wallet u)) same settled
        | inr (inl (missing, wrote)) ↦ (laws.position_inserted p s t missing wrote).0
        | inr (inr (row, there, wrote)) ↦ (laws.position_updated p s t row there wrote).0
      ]

  position_keeps :
      (p : LiquidityPosition) (k : String) (s t : S) (items : List DriftItem)
      → p.user_wallet ≢ k
      → reconcile_found_position env (position_view p.user_wallet s) p s ≡ returns items t
      → position_view k t ≡ position_view k s
  position_keeps p k s t items ne h =
      elim (position_step p (position_view p.user_wallet s) s t items h) [
        | inl (same, _) ↦ ap (position_view k) (sym same)
        | inr (inl (missing, wrote)) ↦ (laws.position_inserted p s t missing wrote).1 k ne
        | inr (inr (row, there, wrote)) ↦ (laws.position_updated p s t row there wrote).1 k ne
      ]

  position_again :
      (p : LiquidityPosition) (o : Option LiquidityRow) (s : S)
      → PositionSettled p o
      → (items : List DriftItem) × (reconcile_found_position env o p s ≡ returns items s)
        × All (λ item. ⊥) items
  position_again p none s (row', same, right) = cc
  position_again p (some row) s (row', same, right) = ([], ground arith, tt)

  none_of : (items : List DriftItem) → All (λ item. ⊥) items → items ≡ []
  none_of [] all = refl
  none_of (x ∷ xs) all = absurd all.0

  -- Take tables that can be read and whose successful writes change the row of their wallet only, and
  -- positions of the chain of distinct wallets. After a reconciliation of the positions that has
  -- answered, each of these wallets has a row with the chain's amount, and another reconciliation
  -- writes nothing and reports nothing.
  pub reconcile_liquidity-again :
      (chain : List LiquidityPosition) (s t : S) (items : List DriftItem)
      → Distinct (λ p. p.user_wallet) chain
      → reconcile_liquidity env chain s ≡ returns items t
      → All (λ p. PositionSettled p (position_view p.user_wallet t)) chain
        × (reconcile_liquidity env chain t ≡ returns [] t)
  unfolding reconcile_liquidity reconcile_position
  reconcile_liquidity-again chain s t items distinct h =
      let settled =
        sync-Settled (λ p. p.user_wallet) position_view (reconcile_found_position env)
          PositionSettled position_settles position_keeps (position_in (laws.positions s)) chain s t
          items distinct (All-pure _ (λ p. refl) chain)
          (rw (laws.positions_read s, reconcile_liquidity) at h) in
      let (again, ran, empty) =
        sync-again (λ p. p.user_wallet) position_view (reconcile_found_position env) PositionSettled
          position_settles position_keeps (λ item. ⊥) position_again
          (position_in (laws.positions t)) chain t settled in
      let second : reconcile_liquidity env chain t ≡ returns again t =
        rw (laws.positions_read t, reconcile_liquidity) ran in
      (settled, second ∙ ap (λ l. returns l t) (none_of again empty))
