-- ===== src/Indexer.antt =====
-- src/indexer/indexer.service.ts: the cycle that copies contract events into the index tables.
-- The Soroban server, the event parser and the tables are the fields of `IndexerEnv`, over an
-- abstract state; a ledger is a number. A subtraction of ledgers stops at 0: where the source's
-- would be negative, `healStaleCursor` takes the same branch.
pub mod Cursor
pub mod Persist
mod Tests
use step_fi_api.Common.{
  ℕ, ◌+◌, ◌-◌, String, Bool, true, false, List, [], ◌∷◌, Option, none, some, ltb, leb, str_eq,
  if◌then◌else◌, sum_of, Act, Run, returns, throws, ◌>>=◌, ◌>>◌, done, require, read, call, final,
}

pub data Payload : Type 0 where
  loan_created : (loan_id user_wallet : String) (principal interest : ℕ) (due : String) → Payload
  loan_repaid : (loan_id tx_hash : String) (amount : ℕ) (paid_at : String) → Payload
  loan_defaulted : (loan_id : String) → Payload
  score_changed : (wallet : String) (old_score new_score : ℕ) (reason : String) → Payload

pub record ParsedEvent : Type 0 where
  pub event_id : String
  pub tx_hash : String
  pub ledger_sequence : ℕ
  pub payload : Payload

-- The answer to an insert: the code 23505 is `duplicate`.
pub data WriteReply : Type 0 where
  stored duplicate failed : WriteReply

-- The answer of `getEvents`: a page of events; the error that names a valid range, with its first
-- ledger if the text has one; another error.
pub data EventsReply (Raw : Type 0) : Type 0 where
  events : List Raw → EventsReply Raw
  range_error : Option ℕ → EventsReply Raw
  failure : EventsReply Raw

pub data IndexedStatus : Type 0 where
  active paid defaulted : IndexedStatus

pub data IndexerError : Type 0 where
  persist_failed cursor_failed fetch_failed : IndexerError

pub record IndexerEnv (S Raw : Type 0) : Type 0 where
  -- `getCursor`: 0 for no row and for an error
  pub get_cursor : String → S → ℕ
  pub latest_ledger : S → Option ℕ × S
  -- the events from a ledger on, the first hundred
  pub get_events : String → ℕ → S → EventsReply Raw × S
  -- `parseEvent`: `none` where it gives nothing or throws
  pub parse_event : Raw → Option ParsedEvent
  pub upsert_loan : ParsedEvent → S → WriteReply × S
  pub insert_payment : String → String → ℕ → S → WriteReply × S
  -- the amounts of the loan's payments; `none` when the query fails
  pub payments_of : String → S → Option (List ℕ)
  -- the principal and the interest of a loan
  pub amounts_of : String → S → Option (ℕ × ℕ)
  -- `true` when the update reports no error
  pub set_status : String → IndexedStatus → S → Bool × S
  pub insert_history : ParsedEvent → S → WriteReply × S
  pub set_score : String → ℕ → S → Bool × S
  pub upsert_cursor : String → ℕ → S → Bool × S

-- LEDGER_RETENTION_BUFFER and CATCH_UP_BUFFER
abbrev pub ledger_retention_buffer : ℕ
ledger_retention_buffer = 100_000

abbrev pub catch_up_buffer : ℕ
catch_up_buffer = 1_000

-- `Math.max`
abbrev pub larger : ℕ → ℕ → ℕ
larger a b = if ltb a b then b else a

-- The error of an insert: a duplicate is skipped.
abbrev pub unless_duplicate :
    {S : Type 0} → WriteReply → Act S IndexerError (Unit {0}) → Act S IndexerError (Unit {0})
unless_duplicate stored next s = next s
unless_duplicate duplicate next s = returns tt s
unless_duplicate failed next s = throws persist_failed s

abbrev pub paid_status : ℕ → ℕ × ℕ → IndexedStatus
paid_status total (principal, interest) = if leb (principal + interest) total then paid else active

module _ {S Raw : Type 0} (env : IndexerEnv S Raw) where
  -- The end of `persistLoanRepaid`: the status from the sum of the payments.
  unfoldable pub update_repaid : String → Option (List ℕ) → Option (ℕ × ℕ) → S → S
  update_repaid loan_id none amounts s = s
  update_repaid loan_id (some payments) none s = s
  update_repaid loan_id (some payments) (some amounts) s =
      (env.set_status loan_id (paid_status (sum_of (λ p. p) payments) amounts) s).1

  unfoldable pub persist_loan_repaid : String → String → ℕ → Act S IndexerError (Unit {0})
  unfolding update_repaid
  persist_loan_repaid loan_id tx_hash amount = do
    reply ← call (env.insert_payment loan_id tx_hash amount)
    unless_duplicate reply (λ s.
        returns tt (update_repaid loan_id (env.payments_of loan_id s) (env.amounts_of loan_id s) s))

  -- `persistEvent`, with the four handlers.
  unfoldable pub persist_payload : ParsedEvent → Payload → Act S IndexerError (Unit {0})
  unfolding persist_loan_repaid
  persist_payload event (loan_created loan_id wallet principal interest due) = do
    reply ← call (env.upsert_loan event)
    unless_duplicate reply (done tt)
  persist_payload event (loan_repaid loan_id tx_hash amount paid_at) =
      persist_loan_repaid loan_id tx_hash amount
  persist_payload event (loan_defaulted loan_id) = do
    ok ← call (env.set_status loan_id defaulted)
    require ok persist_failed
  persist_payload event (score_changed wallet old_score new_score reason) = do
    reply ← call (env.insert_history event)
    unless_duplicate reply (λ s. returns tt (env.set_score wallet new_score s).1)

  abbrev pub persist_event : ParsedEvent → Act S IndexerError (Unit {0})
  persist_event event = persist_payload event event.payload

  -- One round of the loop: the highest ledger stored so far, after an attempt to store an event.
  abbrev pub after_persist : ℕ → ParsedEvent → Run S IndexerError (Unit {0}) → ℕ × S
  after_persist highest event (returns _ s) = (larger highest event.ledger_sequence, s)
  after_persist highest event (throws _ s) = (highest, s)

  abbrev pub process_event : Option ParsedEvent → ℕ → S → ℕ × S
  process_event none highest s = (highest, s)
  process_event (some event) highest s = after_persist highest event (persist_event event s)

  -- The loop over the raw events: an error is logged, and the next event follows.
  unfoldable pub process_events : List Raw → ℕ → S → ℕ × S
  process_events [] highest s = (highest, s)
  process_events (raw ∷ rest) highest s =
      let (next, t) = process_event (env.parse_event raw) highest s in process_events rest next t

  unfoldable pub update_cursor : String → ℕ → Act S IndexerError (Unit {0})
  update_cursor contract ledger = do
    ok ← call (env.upsert_cursor contract ledger)
    require ok cursor_failed

  unfoldable pub heal_stale_cursor : String → ℕ → ℕ → Act S IndexerError ℕ
  heal_stale_cursor contract start latest s =
      if leb (latest - ledger_retention_buffer) start
      then returns start s
      else (update_cursor contract (latest - catch_up_buffer - 1)
            >> done (latest - catch_up_buffer))
          s

  -- `fetchEvents`
  abbrev pub fetch_events : String → ℕ → ℕ → S → EventsReply Raw × S
  fetch_events contract start latest s =
      if ltb latest start then (events [], s) else env.get_events contract start s

  -- What follows the fetch.
  unfoldable pub finish_cycle : String → ℕ → ℕ → EventsReply Raw → Act S IndexerError (Unit {0})
  unfolding update_cursor
  finish_cycle contract start latest failure s = throws fetch_failed s
  finish_cycle contract start latest (range_error none) s = throws fetch_failed s
  finish_cycle contract start latest (range_error (some first)) s =
      update_cursor contract (first - 1) s
  finish_cycle contract start latest (events []) s = update_cursor contract latest s
  finish_cycle contract start latest (events (raw ∷ rest)) s =
      let (highest, t) = process_events (raw ∷ rest) start s in
      update_cursor contract (larger highest latest) t

  unfoldable pub index_from : String → ℕ → Option ℕ → Act S IndexerError (Unit {0})
  unfolding finish_cycle heal_stale_cursor
  index_from contract start none = done tt
  index_from contract start (some latest) = do
    healed ← heal_stale_cursor contract start latest
    reply ← call (fetch_events contract healed latest)
    finish_cycle contract healed latest reply

  unfoldable pub index_contract : String → Act S IndexerError (Unit {0})
  unfolding index_from
  index_contract contract s =
      if str_eq contract ""
      then returns tt s
      else (call env.latest_ledger >>= index_from contract (env.get_cursor contract s + 1)) s

  -- `runIndexer`, with the flag before and after: the errors of both contracts are logged.
  unfoldable pub run_indexer : String → String → Bool → S → Bool × S
  run_indexer loans reputation true s = (true, s)
  run_indexer loans reputation false s =
      (false, final (index_contract reputation (final (index_contract loans s))))
