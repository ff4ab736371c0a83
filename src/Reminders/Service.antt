-- ===== src/Reminders/Service.antt =====
-- The job of src/jobs/loan-payment-reminder/loan-payment-reminder.service.ts.
use Prim.Native.String.{◌++◌}
use step_fi_api.Common.{
  ℕ, ◌+◌, length, ltb, String, Bool, true, false, List, [], ◌∷◌, Option, none, some, if◌then◌else◌,
}
use step_fi_api.Common.Int.{ℤ}
use step_fi_api.Checker.Types.{truthy}
use step_fi_api.Reminders.{
  ReminderType, ActiveLoan, VendorInfo, ReminderCandidate, ReminderSummary, Reminder, RemindersEnv,
  title_of, empty_summary, days_between, reminder_type_of, count_created, Progress, cached_vendor,
  payment_reminder_3d, payment_reminder_1d, payment_overdue,
}

module _ {S : Type 0} (env : RemindersEnv S) where
  unfoldable pub build_message : ReminderType → String → String → String
  build_message payment_reminder_3d amount due =
      "Your loan payment of "
      ++ amount
      ++ " XLM is due on "
      ++ env.format_date due
      ++ " (in 3 days). Please ensure your wallet has sufficient funds."
  build_message payment_reminder_1d amount due =
      "Your loan payment of "
      ++ amount
      ++ " XLM is due tomorrow, "
      ++ env.format_date due
      ++ ". Please ensure your wallet has sufficient funds."
  build_message payment_overdue amount due =
      "Your loan payment of "
      ++ amount
      ++ " XLM was due on "
      ++ env.format_date due
      ++ " and is now overdue. Please make your payment as soon as possible to avoid penalties."

  abbrev pub candidate_for :
      ActiveLoan → String → ℤ → Option ReminderType → Option ReminderCandidate
  candidate_for loan due days none = none
  candidate_for loan due days (some t) =
      some (record { loan = loan; due_date = due; reminder_type = t; days_until_due = days })

  -- A date that is none makes every comparison false.
  abbrev pub candidate_on : ℕ → ActiveLoan → String → Option ℕ → Option ReminderCandidate
  candidate_on today loan due none = none
  candidate_on today loan due (some day) =
      let days = days_between day today in candidate_for loan due days (reminder_type_of days)

  abbrev pub candidate_of : ℕ → ActiveLoan → Option ReminderCandidate
  candidate_of today loan = elim (truthy loan.next_payment_due) [
    | none ↦ none
    | some due ↦ candidate_on today loan due (env.day_of due)
  ]

  abbrev pub add_candidate :
      Option ReminderCandidate → List ReminderCandidate → List ReminderCandidate
  add_candidate none candidates = candidates
  add_candidate (some c) candidates = c ∷ candidates

  unfoldable pub identify_candidates : ℕ → List ActiveLoan → List ReminderCandidate
  identify_candidates today [] = []
  identify_candidates today (loan ∷ loans) =
      add_candidate (candidate_of today loan) (identify_candidates today loans)

  abbrev pub remember :
      String
      → Option VendorInfo
      → List (String × VendorInfo)
      → Option VendorInfo × List (String × VendorInfo)
  remember id none vendors = (none, vendors)
  remember id (some v) vendors = (some v, (id, v) ∷ vendors)

  unfoldable pub get_vendor :
      Option String
      → List (String × VendorInfo)
      → S
      → Option VendorInfo × List (String × VendorInfo)
  get_vendor vendor_id vendors s = elim (truthy vendor_id) [
    | none ↦ (none, vendors)
    | some id ↦ elim (cached_vendor id vendors) [
      | some v ↦ (some v, vendors)
      | none ↦ remember id (env.find_vendor id s) vendors
    ]
  ]

  -- An error of the query counts as no reminder.
  abbrev pub is_some_reminder : Option ℕ → Bool
  is_some_reminder none = false
  is_some_reminder (some n) = ltb 0 n

  unfoldable pub is_duplicate_reminder : String → ReminderType → S → Bool
  is_duplicate_reminder id t s = is_some_reminder (env.count_today t id s)

  unfoldable pub reminder_of : ReminderCandidate → Option VendorInfo → Reminder
  unfolding build_message
  reminder_of c vendor = record {
    user_wallet = c.loan.user_wallet;
    reminder_type = c.reminder_type;
    title = title_of c.reminder_type;
    message = build_message c.reminder_type c.loan.loan_amount c.due_date;
    loan_db_id = c.loan.id;
    loan_id = c.loan.loan_id;
    loan_amount = c.loan.loan_amount;
    remaining_balance = c.loan.remaining_balance;
    due_date = c.due_date;
    vendor = vendor;
  }

  -- The insertion: `createNotification` throws when it fails.
  abbrev pub create_reminder : ReminderCandidate → Option VendorInfo → Progress S → Progress S
  create_reminder c vendor p =
      let (stored, s) = env.insert_reminder (reminder_of c vendor) p.outside in
      record p {
        summary =
            if stored
            then count_created c.reminder_type p.summary
            else record p.summary { failed = p.summary.failed + 1 };
        outside = s;
      }

  unfoldable pub process_candidate : ReminderCandidate → Progress S → Progress S
  unfolding get_vendor is_duplicate_reminder reminder_of
  process_candidate c p =
      let (vendor, vendors) = get_vendor c.loan.vendor_id p.vendors p.outside in
      let q = record p { vendors = vendors } in
      if is_duplicate_reminder c.loan.id c.reminder_type q.outside
      then record q { summary = record q.summary { skipped = q.summary.skipped + 1 } }
      else create_reminder c vendor q

  unfoldable pub process_candidates : List ReminderCandidate → Progress S → Progress S
  process_candidates [] p = p
  process_candidates (c ∷ cs) p = process_candidates cs (process_candidate c p)

  unfoldable pub remind : Option (List ActiveLoan) → S → ReminderSummary × S
  remind none s = (empty_summary, s)
  remind (some []) s = (empty_summary, s)
  remind (some (loan ∷ loans)) s =
      let candidates = identify_candidates (env.today s) (loan ∷ loans) in
      let total = process_candidates candidates (record {
        vendors = [];
        summary = record empty_summary { total = length candidates };
        outside = s;
      }) in
      (total.summary, total.outside)

  -- `isRunning` and the world outside; the summary is only logged.
  unfoldable pub send_payment_reminders : Bool × S → Bool × S
  send_payment_reminders (true, s) = (true, s)
  send_payment_reminders (false, s) = (false, (remind (env.active_loans s) s).1)
