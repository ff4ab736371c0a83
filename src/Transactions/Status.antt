-- ===== src/Transactions/Status.antt =====
-- What a status that is asked for again is answered with.
use step_fi_api.Common.{
  ◌≡◌, ◌≢◌, refl, sym, subst, ap, ◌∙◌, String, Bool, true, false, Option, none, some, arith,
  returns, throws, if◌then◌else◌, >>=-eq-returns,
}
use step_fi_api.Transactions.Types.{
  LookupColumn, TransactionRecord, TransactionsEnv, LookupReply, known, lookup_failure,
  StatusResponse,
}
use step_fi_api.Transactions.Failures.{is_horizon_not_found_error, handle_horizon_lookup_error}
use step_fi_api.Transactions.Records.{
  find_transaction_record, build_finalized_transaction_response, build_pending_transaction_response,
  persist_finalized_transaction,
}
use step_fi_api.Transactions.Service.{
  cache_key, after_lookup, get_transaction_status, pending_or_missing, cached_or, ask_horizon,
}

module _ {S : Type 0} (env : TransactionsEnv S) where
  pending_unconfirmed :
      (name : String) (x : TransactionRecord) (s t : S) (r : StatusResponse)
      → pending_or_missing env name (some x) s ≡ returns r t
      → r.confirmed_at ≡ none
  unfolding build_pending_transaction_response
  pending_unconfirmed name x s t r h = ground arith

  module _
      (cache_reads_back : (key : String) (r : StatusResponse) (s : S)
        → env.cache_get key (env.cache_set key r s) ≡ some r)
      (update_keeps : (column : LookupColumn) (hash key : String) (r : StatusResponse) (s : S)
        → env.cache_get key (env.update_finalized column hash r s) ≡ env.cache_get key s) where
    cached_again :
        (hash : String) (r : StatusResponse) (t : S)
        → env.cache_get (cache_key (env.lower hash)) t ≡ some r
        → get_transaction_status env hash t ≡ returns r t
    unfolding get_transaction_status
    cached_again hash r t e = rw (e, cached_or) refl

    persisted_cached :
        (key : String) (o : Option TransactionRecord) (r : StatusResponse) (s : S)
        → env.cache_get key (persist_finalized_transaction env o r (env.cache_set key r s)) ≡ some r
    unfolding persist_finalized_transaction
    persisted_cached key none r s = cache_reads_back key r s
    persisted_cached key (some x) r s =
        update_keeps x.lookup_column x.hash key r (env.cache_set key r s) ∙ cache_reads_back key r s

    after_lookup-cached :
        (name : String) (o : Option TransactionRecord) (reply : LookupReply) (s t : S)
        (r : StatusResponse)
        → after_lookup env name o reply s ≡ returns r t
        → r.confirmed_at ≢ none
        → env.cache_get (cache_key name) t ≡ some r
    unfolding after_lookup
    after_lookup-cached name o (known tx) s t r h final =
        let response = build_finalized_transaction_response env tx o in
        let same : response ≡ r = ground arith in
        let at : persist_finalized_transaction env o response
              (env.cache_set (cache_key name) response s)
            ≡ t =
          ground arith in
        ap (env.cache_get (cache_key name)) (sym at)
        ∙ persisted_cached (cache_key name) o response s
        ∙ ap some same
    after_lookup-cached name o (lookup_failure e) s t r h final =
        go o (is_horizon_not_found_error env e) h
      where
        go :
            (o : Option TransactionRecord) (b : Bool)
            → (if b
                then pending_or_missing env name o s
                else throws (handle_horizon_lookup_error env e) s)
              ≡ returns r t
            → env.cache_get (cache_key name) t ≡ some r
        go o false h' = cc
        go none true h' = cc
        go (some x) true h' =
            let waiting : r.confirmed_at ≡ none = pending_unconfirmed name x s t r h' in
            absurd (final waiting)

    -- Take a cache that reads back what it has stored under a key, and that an update of a row does
    -- not touch. An answer with a time of confirmation is final: the next request for the same hash
    -- gets the same answer and changes nothing.
    pub get_transaction_status-again :
        (hash : String) (s t : S) (r : StatusResponse)
        → get_transaction_status env hash s ≡ returns r t
        → r.confirmed_at ≢ none
        → get_transaction_status env hash t ≡ returns r t
    unfolding get_transaction_status
    get_transaction_status-again hash s t r h final =
        cached_again hash r t (go (env.cache_get (cache_key (env.lower hash)) s) refl h)
      where
        go :
            (c : Option StatusResponse)
            → env.cache_get (cache_key (env.lower hash)) s ≡ c
            → cached_or env c (env.lower hash) s ≡ returns r t
            → env.cache_get (cache_key (env.lower hash)) t ≡ some r
        go (some x) e h' =
            subst (λ v. env.cache_get (cache_key (env.lower hash)) v ≡ some r) (cc) (e ∙ cc)
        go none e h' =
            let (o, s1, e1, h1) =
              >>=-eq-returns (find_transaction_record env (env.lower hash))
                (ask_horizon env (env.lower hash)) s h' in
            let (reply, s2) = env.horizon_transaction (env.lower hash) s1 in
            after_lookup-cached (env.lower hash) o reply s2 t r h1 final
