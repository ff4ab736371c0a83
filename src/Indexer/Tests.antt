-- ===== src/Indexer/Tests.antt =====
-- The theorems on the indexer at concrete cycles.
use step_fi_api.Common.{ne-str_eq, ℕ, ◌≡◌, refl, true, [], ◌∷◌, none, some, arith}
use step_fi_api.Indexer.{
  ParsedEvent, loan_created, loan_repaid, score_changed, stored, duplicate, events, IndexerEnv,
  index_contract, process_events, persist_payload,
}
use step_fi_api.Indexer.Cursor.{Advanced, index_contract-Advanced}
use step_fi_api.Indexer.Persist.{largest_ledger, process_events-replay}

abbrev repaid : ParsedEvent
repaid = record {
  event_id = "e1";
  tx_hash = "h1";
  ledger_sequence = 20;
  payload = loan_repaid "l1" "h1" 5 "now";
}

abbrev changed : ParsedEvent
changed = record {
  event_id = "e2";
  tx_hash = "h2";
  ledger_sequence = 30;
  payload = score_changed "GA" 70 80 "paid";
}

-- A state is the cursor; every event is in the tables already.
abbrev indexer : IndexerEnv ℕ ParsedEvent
indexer = record {
  get_cursor = λ contract s. s;
  latest_ledger = λ s. (some 50, s);
  get_events = λ contract start s. (events (repaid ∷ changed ∷ []), s);
  parse_event = λ event. some event;
  upsert_loan = λ event s. (stored, s);
  insert_payment = λ id tx_hash amount s. (duplicate, s);
  payments_of = λ id s. some [];
  amounts_of = λ id s. none;
  set_status = λ id status s. (true, s);
  insert_history = λ event s. (duplicate, s);
  set_score = λ wallet score s. (true, s);
  upsert_cursor = λ contract ledger s. (true, ledger);
}

stored_cursor : (ledger s t : ℕ) → indexer.upsert_cursor "C1" ledger s ≡ (true, t) → t ≡ ledger
stored_cursor ledger s t e = ground (arith, e)

index_contract-Advanced_example : Advanced indexer "C1" 50 50
unfolding index_contract process_events persist_payload
index_contract-Advanced_example =
    index_contract-Advanced indexer "C1" stored_cursor 10 10 50 50 (ne-str_eq "C1" "" refl) refl
      refl

abbrev created : ParsedEvent
created = record {
  event_id = "e3";
  tx_hash = "h3";
  ledger_sequence = 12;
  payload = loan_created "l1" "GA" 100 5 "later";
}

process_events-replay_example :
    (process_events indexer (created ∷ repaid ∷ changed ∷ repaid ∷ []) 11 10)
    ≡ (largest_ledger indexer (created ∷ repaid ∷ changed ∷ repaid ∷ []) 11, 10)
process_events-replay_example =
    process_events-replay indexer (created ∷ repaid ∷ changed ∷ repaid ∷ []) 11 10
      (refl, (refl, (refl, (refl, tt))))
