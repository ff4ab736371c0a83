-- ===== src/Indexer/Cursor.antt =====
-- Where the cursor of src/indexer/indexer.service.ts stands after a cycle.
use step_fi_api.Common.{
  ℕ, ◌+◌, ◌-◌, ◌≤◌, ◌≡◌, ◌≢◌, refl, String, true, false, [], ◌∷◌, none, some, arith, returns,
  >>=-eq-returns, eq_iff, str_eq, Bool-cases, inl, inr, ltb,
}
use step_fi_api.Indexer.{
  IndexerEnv, EventsReply, events, range_error, failure, larger, process_events, update_cursor,
  heal_stale_cursor, fetch_events, finish_cycle, index_from, index_contract,
}

module _ {S Raw : Type 0} (env : IndexerEnv S Raw) (contract : String) where
  -- How a cycle moves the cursor: to the tip or past it, or to the ledger before the first one that
  -- the server names as valid.
  pub data Advanced (latest : ℕ) (t : S) : Type 0 where
    past_tip : latest ≤ env.get_cursor contract t → Advanced latest t
    corrected :
        (first start : ℕ) (v : S)
        → (env.get_events contract start v).0 ≡ range_error (some first)
        → env.get_cursor contract t ≡ first - 1
        → Advanced latest t

module _ {S Raw : Type 0} (env : IndexerEnv S Raw) (contract : String)
    (written : (ledger : ℕ) (s t : S)
      → env.upsert_cursor contract ledger s ≡ (true, t)
      → env.get_cursor contract t ≡ ledger) where
  update_cursor_lem :
      (ledger : ℕ) (s t : S)
      → update_cursor env contract ledger s ≡ returns tt t
      → env.get_cursor contract t ≡ ledger
  unfolding update_cursor
  update_cursor_lem ledger s t h = written ledger s t (ground arith)

  finish_cycle-Advanced :
      (start latest : ℕ) (reply : EventsReply Raw) (v s t : S)
      → (env.get_events contract start v).0 ≡ reply
      → finish_cycle env contract start latest reply s ≡ returns tt t
      → Advanced env contract latest t
  unfolding finish_cycle
  finish_cycle-Advanced start latest failure v s t e h = cc
  finish_cycle-Advanced start latest (range_error none) v s t e h = cc
  finish_cycle-Advanced start latest (range_error (some first)) v s t e h =
      corrected first start v e (update_cursor_lem (first - 1) s t h)
  finish_cycle-Advanced start latest (events []) v s t e h =
      past_tip (omega (arith, update_cursor_lem latest s t h))
  finish_cycle-Advanced start latest (events (raw ∷ rest)) v s t e h =
      let (highest, u) = process_events env (raw ∷ rest) start s in
      past_tip (ground (arith, update_cursor_lem (larger highest latest) u t h))

  fetched-Advanced :
      (start latest : ℕ) (s t : S)
      → (let (reply, u) = fetch_events env contract start latest s in
          finish_cycle env contract start latest reply u)
        ≡ returns tt t
      → Advanced env contract latest t
  unfolding finish_cycle
  fetched-Advanced start latest s t h = elim (Bool-cases (ltb latest start)) [
    | inl ahead ↦ past_tip (omega (arith, update_cursor_lem latest s t (ground (arith, ahead, h))))
    | inr behind ↦
        let (reply, v) = env.get_events contract start s in
        finish_cycle-Advanced start latest reply s v t refl (rw behind at h)
  ]

  body_of :
      (s u t : S) (latest : ℕ)
      → contract ≢ ""
      → env.latest_ledger s ≡ (some latest, u)
      → index_contract env contract s ≡ returns tt t
      → index_from env contract (env.get_cursor contract s + 1) (some latest) u ≡ returns tt t
  unfolding index_contract
  body_of s u t latest named tip h =
      let configured : str_eq contract "" ≡ false = ground (arith, eq_iff contract "", named) in
      rw (configured, tip) at h

  -- Take a table that reads back the cursor it has stored. A cycle for a configured contract that
  -- knows the tip of the network and ends without an error leaves the cursor at the tip or past it,
  -- whatever the fetched page held and however many of its events were stored; or the server
  -- refused the start, and the cursor is corrected to one before the first ledger that it named.
  pub index_contract-Advanced :
      (s u t : S) (latest : ℕ)
      → contract ≢ ""
      → env.latest_ledger s ≡ (some latest, u)
      → index_contract env contract s ≡ returns tt t
      → Advanced env contract latest t
  unfolding index_from
  index_contract-Advanced s u t latest named tip h =
      let start = env.get_cursor contract s + 1 in
      let body : index_from env contract start (some latest) u ≡ returns tt t =
        body_of s u t latest named tip h in
      let (healed, v, _, rest) =
        >>=-eq-returns (heal_stale_cursor env contract start latest) _ u body in
      fetched-Advanced healed latest v t rest
