-- ===== src/Transactions/Accepted.antt =====
-- What an accepted submission has passed, and what a second one of the same transaction gets.
use step_fi_api.Common.{
  ◌≡◌, ◌≢◌, refl, sym, ap, ◌∙◌, String, Bool, true, false, [], Option, none, some, All, arith, Run,
  returns, throws, done, Bool-cases, inl, inr, if◌then◌else◌, require, or_throw, ◌>>=◌, ◌>>◌,
  >>=-eq-returns, Ends-returns,
}
use step_fi_api.Checker.Types.{TransactionType}
use step_fi_api.Transactions.Types.{
  Envelope, LookupColumn, TransactionRecord, DbError, HorizonFailure, SubmitError,
  persistence_failed, invalid_xdr, source_mismatch, SubmitResponse, TransactionsEnv,
}
use step_fi_api.Transactions.Allowlist.{
  operation_allowlist_error, wallet_authorizes, hash_of, inner_transaction,
}
use step_fi_api.Transactions.Checks.{IsAllowed, operation_allowlist_error_iff}
use step_fi_api.Transactions.Failures.{is_unique_violation_error, handle_horizon_error}
use step_fi_api.Transactions.Records.{
  find_transaction_record, persist_transaction_record, mark_transaction_failed,
}
use step_fi_api.Transactions.RecordRules.{find_transaction_record_frame}
use step_fi_api.Transactions.Service.{
  new_transaction, duplicate_of, submitted, throw_if, send_to_horizon, after_unique_violation,
  record_and_send, submit_new, submit_transaction,
}

module _ {S : Type 0} (env : TransactionsEnv S) where
  require-returns :
      {E : Type 0} (b : Bool) (e : E) (s t : S) (x : Unit {0})
      → require b e s ≡ returns x t
      → (b ≡ true) × (t ≡ s)
  require-returns true e s t x h = (refl, cc)
  require-returns false e s t x h = cc

  throw_if-returns :
      (e : Option SubmitError) (s t : S) (x : Unit {0})
      → throw_if env e s ≡ returns x t
      → (e ≡ none) × (t ≡ s)
  throw_if-returns none s t x h = (refl, cc)
  throw_if-returns (some e) s t x h = cc

  or_throw-returns :
      {E A : Type 0} (o : Option A) (e : E) (s t : S) (a : A)
      → or_throw o e s ≡ returns a t
      → (o ≡ some a) × (t ≡ s)
  or_throw-returns none e s t a h = cc
  or_throw-returns (some b) e s t a h = (cc, cc)

  module _ (wallet : String) (kind : TransactionType) (xdr : String) where
    -- The checks that a submission which answers has passed.
    pub data Passed (s : S) (r : SubmitResponse) (u : S) : Type 0 where
      passed :
          (tx : Envelope) (existing : Option TransactionRecord)
          → env.from_xdr xdr ≡ some tx
          → operation_allowlist_error env tx kind ≡ none
          → wallet_authorizes tx wallet ≡ true
          → find_transaction_record env (hash_of tx) s ≡ returns existing s
          → submit_new env wallet kind xdr tx existing s ≡ returns r u
          → Passed s r u

    find_transaction_record-Passed :
        (tx : Envelope) (existing : Option TransactionRecord) (s t v u : S) (r : SubmitResponse)
        → env.from_xdr xdr ≡ some tx
        → operation_allowlist_error env tx kind ≡ none
        → wallet_authorizes tx wallet ≡ true
        → t ≡ s
        → find_transaction_record env (hash_of tx) t ≡ returns existing v
        → submit_new env wallet kind xdr tx existing v ≡ returns r u
        → Passed s r u
    find_transaction_record-Passed tx existing s t v u r decoded listed authorized at read sent =
        let same : v ≡ t =
          Ends-returns (λ _ x. x ≡ t) (λ _ x. x ≡ t) read
            (find_transaction_record_frame env (λ x. x ≡ t) (hash_of tx) t refl) in
        passed tx existing decoded listed authorized
          (ap (find_transaction_record env (hash_of tx)) (sym at)
            ∙ read
            ∙ ap (λ x. returns existing x) (same ∙ at))
          (ap (submit_new env wallet kind xdr tx existing) (sym (same ∙ at)) ∙ sent)

    submit_transaction-Passed :
        (s u : S) (r : SubmitResponse)
        → submit_transaction env wallet kind xdr s ≡ returns r u
        → Passed s r u
    unfolding submit_transaction
    submit_transaction-Passed s u r h =
        let (tx, s1, e1, h1) =
          >>=-eq-returns (or_throw (env.from_xdr xdr) invalid_xdr)
            (λ tx.
              throw_if env (operation_allowlist_error env tx kind)
              >> (require (wallet_authorizes tx wallet) source_mismatch
                  >> (find_transaction_record env (hash_of tx)
                      >>= submit_new env wallet kind xdr tx)))
            s h in
        let (decoded, same1) = or_throw-returns (env.from_xdr xdr) invalid_xdr s s1 tx e1 in
        let (x2, s2, e2, h2) =
          >>=-eq-returns (throw_if env (operation_allowlist_error env tx kind))
            (λ _.
              require (wallet_authorizes tx wallet) source_mismatch
              >> (find_transaction_record env (hash_of tx) >>= submit_new env wallet kind xdr tx))
            s1 h1 in
        let (listed, same2) =
          throw_if-returns (operation_allowlist_error env tx kind) s1 s2 x2 e2 in
        let (x3, s3, e3, h3) =
          >>=-eq-returns (require (wallet_authorizes tx wallet) source_mismatch)
            (λ _. find_transaction_record env (hash_of tx) >>= submit_new env wallet kind xdr tx) s2
            h2 in
        let (authorized, same3) =
          require-returns (wallet_authorizes tx wallet) source_mismatch s2 s3 x3 e3 in
        let (existing, s4, e4, h4) =
          >>=-eq-returns (find_transaction_record env (hash_of tx))
            (submit_new env wallet kind xdr tx) s3 h3 in
        let at : s3 ≡ s = same3 ∙ same2 ∙ same1 in
        find_transaction_record-Passed tx existing s s3 s4 u r decoded listed authorized at e4 h4

    -- The row was stored by an insert and the transaction then taken by Horizon.
    pub data Recorded (tx : Envelope) (s : S) (r : SubmitResponse) (u : S) : Type 0 where
      recorded :
          (column : LookupColumn) (t : S)
          → persist_transaction_record env (new_transaction wallet (hash_of tx) kind xdr) s
            ≡ returns column t
          → env.submit tx t ≡ (none, u)
          → r ≡ submitted (hash_of tx)
          → Recorded tx s r u

    after_unique_violation-duplicate :
        (hash : String) (s u : S) (r : SubmitResponse)
        → after_unique_violation env hash s ≡ returns r u
        → r.duplicate ≡ true
    unfolding after_unique_violation
    after_unique_violation-duplicate hash s u r h =
        let (existing, t, e, h') =
          >>=-eq-returns (find_transaction_record env hash)
            (λ o. or_throw o persistence_failed >>= λ x. done (duplicate_of hash x)) s h in
        go existing t h'
      where
        go :
            (o : Option TransactionRecord) (t : S)
            → (or_throw o persistence_failed >>= λ x. done (duplicate_of hash x)) t ≡ returns r u
            → r.duplicate ≡ true
        go none t h' = cc
        go (some x) t h' = ground arith

    send_to_horizon-returns :
        (tx : Envelope) (column : LookupColumn) (t u : S) (r : SubmitResponse)
        → send_to_horizon env tx column t ≡ returns r u
        → (env.submit tx t ≡ (none, u)) × (r ≡ submitted (hash_of tx))
    unfolding send_to_horizon
    send_to_horizon-returns tx column t u r h = go (env.submit tx t) refl h
      where
        go :
            (q : Option HorizonFailure × S)
            → env.submit tx t ≡ q
            → elim q.0 [
              | none ↦ returns (submitted (hash_of tx)) q.1
              | some e ↦
                  throws
                    (handle_horizon_error env e)
                    (mark_transaction_failed env (some column) (hash_of tx) e q.1)
            ]
              ≡ returns r u
            → (env.submit tx t ≡ (none, u)) × (r ≡ submitted (hash_of tx))
        go (none, v) e h' = (e ∙ cc, cc)
        go (some f, v) e h' = cc

    submit_new-Recorded :
        (tx : Envelope) (existing : Option TransactionRecord) (s u : S) (r : SubmitResponse)
        → submit_new env wallet kind xdr tx existing s ≡ returns r u
        → r.duplicate ≡ false
        → (existing ≡ none) × Recorded tx s r u
    unfolding submit_new record_and_send
    submit_new-Recorded tx (some x) s u r h d = ground arith
    submit_new-Recorded tx none s u r h d = (
      refl,
      go (persist_transaction_record env (new_transaction wallet (hash_of tx) kind xdr) s) refl h,
    )
      where
        go :
            (q : Run S DbError LookupColumn)
            → persist_transaction_record env (new_transaction wallet (hash_of tx) kind xdr) s ≡ q
            → elim q [
              | returns column t ↦ send_to_horizon env tx column t
              | throws e t ↦
                  if is_unique_violation_error env e
                  then after_unique_violation env (hash_of tx) t
                  else throws persistence_failed t
            ]
              ≡ returns r u
            → Recorded tx s r u
        go (returns column t) e h' =
            let (taken, answer) = send_to_horizon-returns tx column t u r h' in
            recorded column t e taken answer
        go (throws x t) e h' = elim (Bool-cases (is_unique_violation_error env x)) [
          | inl b ↦
              let dup = after_unique_violation-duplicate (hash_of tx) t u r (ground arith) in
              ground arith
          | inr b ↦ ground arith
        ]

    -- An accepted submission that is no duplicate decodes to a transaction whose operations are all
    -- allowed for the declared type, at least one of them, whose source is the wallet or which the
    -- wallet authorizes, and whose hash has no row; its row was then stored, and Horizon took the
    -- transaction.
    pub submit_transaction-accepted :
        (s u : S) (r : SubmitResponse)
        → submit_transaction env wallet kind xdr s ≡ returns r u
        → r.duplicate ≡ false
        → (tx : Envelope) × (env.from_xdr xdr ≡ some tx)
          × ((inner_transaction tx).operations ≢ [])
          × All (IsAllowed env kind) (inner_transaction tx).operations
          × (wallet_authorizes tx wallet ≡ true)
          × (find_transaction_record env (hash_of tx) s ≡ returns none s)
          × Recorded tx s r u
    submit_transaction-accepted s u r h d = go (submit_transaction-Passed s u r h)
      where
        go :
            Passed s r u
            → (tx : Envelope) × (env.from_xdr xdr ≡ some tx)
              × ((inner_transaction tx).operations ≢ [])
              × All (IsAllowed env kind) (inner_transaction tx).operations
              × (wallet_authorizes tx wallet ≡ true)
              × (find_transaction_record env (hash_of tx) s ≡ returns none s)
              × Recorded tx s r u
        go (passed tx existing decoded listed authorized looked_up sent) =
            let (filled, all) = (operation_allowlist_error_iff env tx kind).0 listed in
            let (fresh, stored) = submit_new-Recorded tx existing s u r sent d in
            (tx, decoded, filled, all, authorized, looked_up ∙ ap (λ o. returns o s) fresh, stored)
