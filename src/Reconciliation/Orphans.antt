-- ===== src/Reconciliation/Orphans.antt =====
-- What src/jobs/state-reconciliation/state-reconciliation.processor.ts does to transactions and to
-- provisional loans.
use mathlib.Core.List.{Mem, mem-cons_self, mem-cons_of_mem}
use step_fi_api.Common.{
  ℕ, ◌+◌, ◌<◌, ◌≡◌, ◌≢◌, refl, sym, ap, ◌∙◌, inl, inr, String, Bool, true, false, List, [], ◌∷◌,
  ◌++◌, Option, none, some, str_eq, eq_iff, ne-str_eq, arith, All, Bool-cases, Run, Act, returns,
  Ends, Ends->>=, ◌>>=◌, ◌>>◌, done, read, call, require,
}
use step_fi_api.Access.Roles.{includes}
use step_fi_api.Reconciliation.{
  AuthoritativeLoan, ReconciliationLoanRow, ReconciliationTransaction, DriftItem,
  provisional_loan_id, chain_loan_id, ReconciliationError, ReconciliationEnv, succeeded, orphaned,
  each, last_match,
}
use step_fi_api.Reconciliation.Reader.{add_new}
use step_fi_api.Reconciliation.Service.{
  is_older, chain_hashes, is_orphan, mark_transaction, backfill, reconcile_hash, fail_orphan,
  reconcile_transactions, is_provisional, provisional_match, resolve_provisional_id, reconcile_loan,
  reconcile_loans,
}

includes-append :
    (xs : List String) (y x : String)
    → includes (xs ++ y ∷ []) x ≡ false
    → (includes xs x ≡ false) × (x ≢ y)
unfolding includes
includes-append [] y x h = (refl, λ e. ne-str_eq y x (ground arith) (sym e))
includes-append (z ∷ zs) y x h =
    let rest : includes (zs ++ y ∷ []) x ≡ false = ground arith in
    (ground (arith, (includes-append zs y x rest).0), (includes-append zs y x rest).1)

add_new-includes :
    (set : List String) (y x : String)
    → includes (add_new set y) x ≡ false
    → (includes set x ≡ false) × (x ≢ y)
add_new-includes set y x h = elim (Bool-cases (includes set y)) [
  | inl old ↦ let kept = rw old at h in (kept, λ e. cc (sym old ∙ ap (includes set) (sym e) ∙ kept))
  | inr new ↦ includes-append set y x (rw new at h)
]

module _ {S : Type 0} (env : ReconciliationEnv S) where
  -- A pending transaction whose hash is on no list of the chain, in whatever case of letters, and which
  -- was submitted more than half an hour before.
  pub record IsOrphan (hashes : List String) (now : ℕ) (row : ReconciliationTransaction)
      : Type 0 where
    pub pending : row.status ≡ "pending"
    pub absent : All (λ h. env.lower row.hash ≢ env.lower h) hashes
    pub old : (at : ℕ) × (env.parse_date row.submitted_at ≡ some at) × (at + 1_800_000 < now)

  chain_hashes-absent :
      (x : String) (set hashes : List String)
      → includes (chain_hashes env set hashes) x ≡ false
      → (includes set x ≡ false) × All (λ h. x ≢ env.lower h) hashes
  chain_hashes-absent x set [] h = (h, tt)
  chain_hashes-absent x set (y ∷ ys) h =
      let (before, later) = chain_hashes-absent x (add_new set (env.lower y)) ys h in
      let (kept, ne) = add_new-includes set (env.lower y) x before in (kept, (ne, later))

  is_older_lem :
      (o : Option ℕ) (now : ℕ)
      → is_older o now ≡ true
      → (at : ℕ) × (o ≡ some at) × (at + 1_800_000 < now)
  is_older_lem none now h = cc
  is_older_lem (some at) now h = (at, refl, ground arith)

  is_orphan-IsOrphan :
      (hashes : List String) (now : ℕ) (row : ReconciliationTransaction)
      → is_orphan env (chain_hashes env [] hashes) now row ≡ true
      → IsOrphan hashes now row
  is_orphan-IsOrphan hashes now row h =
      let set = chain_hashes env [] hashes in
      let away : includes set (env.lower row.hash) ≡ false = ground arith in
      record {
        pending = ground (arith, eq_iff row.status "pending");
        absent = (chain_hashes-absent (env.lower row.hash) [] hashes away).1;
        old = is_older_lem (env.parse_date row.submitted_at) now (ground arith);
      }

  module _ (P : S → Type 0) where
    abbrev Kept : {A : Type 0} → Run S ReconciliationError A → Type 0
    Kept r = Ends (λ _ t. P t) (λ _ t. P t) r

    each_frame :
        {A B : Type 0} (f : A → Act S ReconciliationError (List B))
        → (xs : List A) → ((x : A) (s : S) → Mem x xs → P s → Kept (f x s))
        → (s : S) → P s
        → Kept (each f xs s)
    each_frame f [] h s p = p
    each_frame {A} {B} f (x ∷ xs) h s p =
        Ends->>= (λ _ t. P t) (λ _ t. P t) (λ _ t. P t) (f x)
          (λ a. each f xs >>= (λ b. done (a ++ b))) s (h x s mem-cons_self p)
          (λ a t q.
            Ends->>= (λ _ t'. P t') (λ _ t'. P t') (λ _ t'. P t') (each f xs) (λ b. done (a ++ b)) t
              (each_frame f xs (λ y s' m. h y s' (mem-cons_of_mem x m)) t q) (λ b u r. r))

    write_frame :
        {A : Type 0} (m : S → Bool × S) (e : ReconciliationError) (answer : A) (s : S)
        → P (m s).1
        → Kept ((call m >>= (λ ok. require ok e >> done answer)) s)
    write_frame m e answer s p = elim (Bool-cases (m s).0) [ inl ok ↦ rw ok p | inr bad ↦ rw bad p ]

    module _ (hashes : List String) (rows : List ReconciliationTransaction)
        (keep_backfill : (hash : String) (s : S) → P s → P (env.backfill hash s).1)
        (keep_success : (id : String) (s : S) → P s → P (env.update_transaction id succeeded s).1)
        (keep_orphan : (row : ReconciliationTransaction) (u s : S)
          → Mem row rows
          → P u
          → IsOrphan hashes (env.now u) row
          → P s
          → P (env.update_transaction row.id orphaned s).1) where
      reconcile_hash_frame : (hash : String) (s : S) → P s → Kept (reconcile_hash env rows hash s)
      unfolding reconcile_hash mark_transaction backfill
      reconcile_hash_frame hash s p =
          go (last_match (λ row. str_eq (env.lower row.hash) hash) rows) refl
        where
          go :
              (o : Option ReconciliationTransaction)
              → last_match (λ row. str_eq (env.lower row.hash) hash) rows ≡ o
              → Kept (reconcile_hash env rows hash s)
          go none e =
              rw (e, reconcile_hash)
                (write_frame (env.backfill hash) _ _ s (keep_backfill hash s p))
          go (some row) e = elim (Bool-cases (str_eq row.status "pending")) [
            | inl pending ↦
                rw (e, reconcile_hash, pending)
                  (write_frame (env.update_transaction row.id succeeded) _ _ s
                    (keep_success row.id s p))
            | inr other ↦ rw (e, reconcile_hash, other) p
          ]

      fail_orphan_frame :
          (u : S)
          → P u
          → (row : ReconciliationTransaction) (s : S) → Mem row rows
          → P s
          → Kept (fail_orphan env (chain_hashes env [] hashes) (env.now u) row s)
      unfolding fail_orphan mark_transaction
      fail_orphan_frame u read_at row s m p =
          elim (Bool-cases (is_orphan env (chain_hashes env [] hashes) (env.now u) row)) [
            | inl orphan ↦ rw orphan (
                write_frame (env.update_transaction row.id orphaned) _ _ s (
                  keep_orphan row u s m read_at (is_orphan-IsOrphan hashes (env.now u) row orphan)
                    p))
            | inr other ↦ rw other p
          ]

      -- A reconciliation fails no transaction but an orphan. Let `P` be a property of the state that
      -- the backfills and the marking of a row as successful keep, and that is kept by the failing of
      -- a row that is pending, whose hash is in none of the chain's lists in any case of letters, and
      -- that was submitted more than half an hour before the reading of the clock in some state with
      -- `P`. Then `P` still holds at the end, also when a write fails.
      pub reconcile_transactions_frame :
          (s : S) → P s → Ends (λ _ t. P t) (λ _ t. P t) (reconcile_transactions env hashes rows s)
      unfolding reconcile_transactions
      reconcile_transactions_frame s p =
          let set = chain_hashes env [] hashes in
          Ends->>= (λ _ t. P t) (λ _ t. P t) (λ _ t. P t) (each (reconcile_hash env rows) set)
            (λ found. read env.now >>= (λ now.
              each (fail_orphan env set now) rows >>= (λ failed. done (found ++ failed))))
            s
            (each_frame (reconcile_hash env rows) set (λ hash u m. reconcile_hash_frame hash u) s p)
            (λ found t q.
              Ends->>= (λ _ u. P u) (λ _ u. P u) (λ _ u. P u)
                (each (fail_orphan env set (env.now t)) rows) (λ failed. done (found ++ failed)) t
                (each_frame (fail_orphan env set (env.now t)) rows (fail_orphan_frame t q) t q)
                (λ failed u r. r))

  -- What the resolution of the row to the loan is reported as.
  abbrev pub resolved_item : ReconciliationLoanRow → AuthoritativeLoan → DriftItem
  resolved_item row loan = record {
    drift_type = provisional_loan_id;
    key = row.loan_id;
    repaired = true;
    details = chain_loan_id loan.loan_id;
  }

  only_match :
      (row : ReconciliationLoanRow) (loan : AuthoritativeLoan)
      → row.user_wallet ≡ loan.user_wallet
      → provisional_match (row ∷ []) loan ≡ some row
  unfolding provisional_match
  only_match row loan w =
      let same = (eq_iff row.user_wallet loan.user_wallet).1 w in ground (arith, same)

  resolve_step :
      (row : ReconciliationLoanRow) (loan : AuthoritativeLoan) (s t : S)
      → is_provisional row ≡ true
      → row.user_wallet ≡ loan.user_wallet
      → row.loan_id ≢ loan.loan_id
      → env.resolve_id row.id loan.loan_id loan.status s ≡ (true, t)
      → reconcile_loan env (row ∷ []) loan s ≡ returns (resolved_item row loan ∷ []) t
  unfolding reconcile_loan resolve_provisional_id
  resolve_step row loan s t provisional w ne wrote =
      let different : str_eq row.loan_id loan.loan_id ≡ false =
        ground (arith, eq_iff row.loan_id loan.loan_id) in
      ground (arith, different, provisional, only_match row loan w, wrote)

  -- Take a table of loans with one row only, which is provisional, and a chain with two loans only,
  -- both of the row's wallet and neither under the row's id. If both writes of a loan's id and status
  -- to this row succeed, the reconciliation of the loans makes both: whatever the two amounts are, the
  -- second loan is written to the row to which the first has just been written, and the two drift
  -- items that it answers say that the row was resolved to each of them.
  pub reconcile_loans_clash :
      (row : ReconciliationLoanRow) (a b : AuthoritativeLoan) (s t u : S)
      → is_provisional row ≡ true
      → row.user_wallet ≡ a.user_wallet
      → row.user_wallet ≡ b.user_wallet
      → row.loan_id ≢ a.loan_id
      → row.loan_id ≢ b.loan_id
      → env.resolve_id row.id a.loan_id a.status s ≡ (true, t)
      → env.resolve_id row.id b.loan_id b.status t ≡ (true, u)
      → reconcile_loans env (a ∷ b ∷ []) (row ∷ []) s
        ≡ returns (resolved_item row a ∷ resolved_item row b ∷ []) u
  unfolding reconcile_loans
  reconcile_loans_clash row a b s t u provisional wa wb na nb first second =
      let one = resolve_step row a s t provisional wa na first in
      let two = resolve_step row b t u provisional wb nb second in ground (arith, one, two)
