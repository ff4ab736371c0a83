-- ===== src/Indexer/Persist.antt =====
-- Replaying events that src/indexer/indexer.service.ts has stored before.
use step_fi_api.Common.{ℕ, ◌≡◌, refl, ap, List, [], ◌∷◌, Option, none, some, All, arith, returns}
use step_fi_api.Indexer.{
  Payload, loan_created, loan_repaid, loan_defaulted, score_changed, ParsedEvent, stored, duplicate,
  IndexerEnv, persist_payload, persist_loan_repaid, process_event, process_events, after_persist,
  larger,
}

module _ {S Raw : Type 0} (env : IndexerEnv S Raw) where
  -- The state `s` has the event: the insert of a repayment or of a score is a duplicate that changes
  -- nothing, and the upsert of a loan, which ignores duplicates, reports no error and changes
  -- nothing. A default is an update and has no duplicate: it is never had.
  abbrev pub Has : S → ParsedEvent → Payload → Type 0
  Has s event (loan_created id wallet principal interest due) =
      env.upsert_loan event s ≡ (stored, s)
  Has s event (loan_repaid id tx_hash amount at) =
      env.insert_payment id tx_hash amount s ≡ (duplicate, s)
  Has s event (loan_defaulted id) = ⊥
  Has s event (score_changed wallet old_score new_score reason) =
      env.insert_history event s ≡ (duplicate, s)

  abbrev pub HasParsed : S → Option ParsedEvent → Type 0
  HasParsed s none = Unit
  HasParsed s (some event) = Has s event event.payload

  -- The largest ledger of the events of a page, and of what was seen before.
  abbrev pub largest_ledger : List Raw → ℕ → ℕ
  largest_ledger [] seen = seen
  largest_ledger (raw ∷ rest) seen =
      largest_ledger rest (elim (env.parse_event raw) [
        | none ↦ seen
        | some event ↦ larger seen event.ledger_sequence
      ])

  persist_payload-Has :
      (event : ParsedEvent) (payload : Payload) (s : S)
      → Has s event payload
      → persist_payload env event payload s ≡ returns tt s
  unfolding persist_payload persist_loan_repaid
  persist_payload-Has event (loan_created id wallet principal interest due) s h = ground (arith, h)
  persist_payload-Has event (loan_repaid id tx_hash amount at) s h = ground (arith, h)
  persist_payload-Has event (loan_defaulted id) s h = absurd h
  persist_payload-Has event (score_changed wallet old_score new_score reason) s h =
      ground (arith, h)

  process_event-Has :
      (event : ParsedEvent) (highest : ℕ) (s : S)
      → Has s event event.payload
      → process_event env (some event) highest s ≡ (larger highest event.ledger_sequence, s)
  process_event-Has event highest s h =
      ap (after_persist env highest event) (persist_payload-Has event event.payload s h)

  -- Take a page of created loans, repayments and changes of scores that have all been stored before,
  -- without a default: the inserts of its repayments and scores are duplicates that change nothing,
  -- and the upserts of its loans report no error and change nothing. Then the whole page, in
  -- whichever order its events are, leaves the
  -- tables as they are, and the highest ledger still moves to the largest of the page.
  pub process_events-replay :
      (raws : List Raw) (highest : ℕ) (s : S)
      → All (λ raw. HasParsed s (env.parse_event raw)) raws
      → process_events env raws highest s ≡ (largest_ledger raws highest, s)
  unfolding process_events
  process_events-replay [] highest s h = refl
  process_events-replay (raw ∷ rest) highest s (h, hs) =
      go (env.parse_event raw) refl h (λ next. process_events-replay rest next s hs)
    where
      go :
          (o : Option ParsedEvent)
          → env.parse_event raw ≡ o
          → HasParsed s o
          → ((next : ℕ) → process_events env rest next s ≡ (largest_ledger rest next, s))
          → process_events env (raw ∷ rest) highest s ≡ (largest_ledger (raw ∷ rest) highest, s)
      go none e had later = rw e (later highest)
      go (some event) e had later =
          let next = larger highest event.ledger_sequence in
          rw e (rw (process_event-Has event highest s had) (later next))
