-- ===== src/Reminders/Accounts.antt =====
-- What the summary of src/jobs/loan-payment-reminder/loan-payment-reminder.service.ts adds up to, and
-- which loans are its candidates.
use step_fi_api.Common.{
  ℕ, ◌+◌, ◌<◌, ◌≡◌, inl, inr, List, [], ◌∷◌, Option, none, some, length, Bool-cases, arith,
}
use step_fi_api.Reminders.{
  ReminderType, payment_reminder_3d, payment_reminder_1d, payment_overdue, ActiveLoan,
  ReminderCandidate, ReminderSummary, RemindersEnv, Progress, count_created, days_between,
  reminder_type_of,
}
use step_fi_api.Reminders.Service.{
  is_duplicate_reminder, get_vendor, reminder_of, identify_candidates, process_candidate,
  process_candidates, remind,
}

abbrev pub handled : ReminderSummary → ℕ
handled s = s.created + s.skipped + s.failed

abbrev pub by_type : ReminderSummary → ℕ
by_type s =
    s.breakdown payment_reminder_3d + s.breakdown payment_reminder_1d + s.breakdown payment_overdue

count_created-by_type :
    (t : ReminderType) (s : ReminderSummary) → by_type (count_created t s) ≡ by_type s + 1
count_created-by_type payment_reminder_3d s = omega arith
count_created-by_type payment_reminder_1d s = omega arith
count_created-by_type payment_overdue s = omega arith

-- A reminder is due three days before the due date, one day before it, and on every day after it; on
-- the due date itself, two days before it and more than three days before it there is none.
pub reminder_type_of_lem :
    (due today : ℕ)
    → let t = reminder_type_of (days_between due today) in
      ((due ≡ today + 3) → t ≡ some payment_reminder_3d)
      × ((due ≡ today + 1) → t ≡ some payment_reminder_1d)
      × ((due < today) → t ≡ some payment_overdue)
      × ((due ≡ today) → t ≡ none)
      × ((due ≡ today + 2) → t ≡ none)
      × ((today + 3 < due) → t ≡ none)
unfolding reminder_type_of days_between
reminder_type_of_lem due today = (
  λ e. ground arith,
  λ e. ground arith,
  λ e. ground arith,
  λ e. ground arith,
  λ e. ground arith,
  λ e. ground arith,
)

module _ {S : Type 0} (env : RemindersEnv S) where
  process_candidate_accounts :
      (c : ReminderCandidate) (p : Progress S)
      → let q = process_candidate env c p in
        (handled q.summary ≡ handled p.summary + 1)
        × (q.summary.total ≡ p.summary.total)
        × (by_type q.summary + p.summary.created ≡ by_type p.summary + q.summary.created)
  unfolding process_candidate
  process_candidate_accounts c p =
      let r = reminder_of env c (get_vendor env c.loan.vendor_id p.vendors p.outside).0 in
      elim (Bool-cases (is_duplicate_reminder env c.loan.id c.reminder_type p.outside)) [
        | inl again ↦ rw again (omega arith)
        | inr new ↦ rw new (elim (Bool-cases (env.insert_reminder r p.outside).0) [
          | inl ok ↦ rw ok (omega (arith, count_created-by_type c.reminder_type p.summary))
          | inr bad ↦ rw bad (omega arith)
        ])
      ]

  process_candidates_accounts :
      (cs : List ReminderCandidate) (p : Progress S)
      → let q = process_candidates env cs p in
        (handled q.summary ≡ handled p.summary + length cs)
        × (q.summary.total ≡ p.summary.total)
        × (by_type q.summary + p.summary.created ≡ by_type p.summary + q.summary.created)
  unfolding process_candidates
  process_candidates_accounts [] p = omega arith
  process_candidates_accounts (c ∷ cs) p = omega (
    arith,
    process_candidate_accounts c p,
    process_candidates_accounts cs (process_candidate env c p),
  )

  -- Every candidate of a run is counted once: the created, the skipped and the failed reminders add up
  -- to the total, and the created reminders of the three types to the created ones. This holds
  -- whatever the database does.
  pub remind_accounts :
      (reply : Option (List ActiveLoan)) (s : S)
      → let r = (remind env reply s).0 in (handled r ≡ r.total) × (by_type r ≡ r.created)
  unfolding remind
  remind_accounts none s = omega arith
  remind_accounts (some []) s = omega arith
  remind_accounts (some (loan ∷ loans)) s =
      omega (
        arith,
        process_candidates_accounts (identify_candidates env (env.today s) (loan ∷ loans)) _,
      )
