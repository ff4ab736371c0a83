-- ===== src/Reminders.antt =====
-- src/jobs/loan-payment-reminder/loan-payment-reminder.service.ts. Days are numbered from 1970-01-01 in
-- UTC. The logs are left out.
pub mod Accounts
pub mod Daily
pub mod Service
mod Tests
use Prim.Native.String.{◌++◌}
use step_fi_api.Common.{
  ℕ, ◌+◌, ◌-◌, ◌==◌, length, leb, ltb, String, Bool, true, false, List, [], ◌∷◌, Option, none, some,
  str_eq, if◌then◌else◌,
}
use step_fi_api.Common.Int.{ℤ, pos, negsuc}
use step_fi_api.Checker.Types.{truthy}

pub data ReminderType : Type 0 where
  payment_reminder_3d payment_reminder_1d payment_overdue : ReminderType

-- The columns that the service uses.
pub record ActiveLoan : Type 0 where
  pub id : String
  pub loan_id : String
  pub user_wallet : String
  pub vendor_id : Option String
  pub loan_amount : String
  pub next_payment_due : Option String
  pub remaining_balance : String

pub record VendorInfo : Type 0 where
  pub id : String
  pub name : String

-- `next_payment_due` is the due date that the loan has been checked to have.
pub record ReminderCandidate : Type 0 where
  pub loan : ActiveLoan
  pub due_date : String
  pub reminder_type : ReminderType
  pub days_until_due : ℤ

pub record ReminderSummary : Type 0 where
  pub total : ℕ
  pub created : ℕ
  pub skipped : ℕ
  pub failed : ℕ
  pub breakdown : ReminderType → ℕ

pub record Reminder : Type 0 where
  pub user_wallet : String
  pub reminder_type : ReminderType
  pub title : String
  pub message : String
  pub loan_db_id : String
  pub loan_id : String
  pub loan_amount : String
  pub remaining_balance : String
  pub due_date : String
  pub vendor : Option VendorInfo

pub record RemindersEnv (S : Type 0) : Type 0 where
  pub today : S → ℕ
  -- the day of a date; `none` for a text that is no date
  pub day_of : String → Option ℕ
  -- `toLocaleDateString`
  pub format_date : String → String
  -- the active loans with a due date; `none` for an error
  pub active_loans : S → Option (List ActiveLoan)
  -- `none` for an error and for no row
  pub find_vendor : String → S → Option VendorInfo
  -- the reminders of a type for a loan since the start of the day; `none` for an error
  pub count_today : ReminderType → String → S → Option ℕ
  pub insert_reminder : Reminder → S → Bool × S

abbrev pub title_of : ReminderType → String
title_of payment_reminder_3d = "Payment Due in 3 Days"
title_of payment_reminder_1d = "Payment Due Tomorrow"
title_of payment_overdue = "Loan Payment Overdue"

abbrev pub type_index : ReminderType → ℕ
type_index payment_reminder_3d = 0
type_index payment_reminder_1d = 1
type_index payment_overdue = 2

abbrev pub same_type : ReminderType → ReminderType → Bool
same_type a b = type_index a == type_index b

abbrev pub empty_summary : ReminderSummary
empty_summary = record { total = 0; created = 0; skipped = 0; failed = 0; breakdown = λ t. 0 }

-- The difference of two days is a whole number of days, which `Math.round` leaves.
unfoldable pub days_between : ℕ → ℕ → ℤ
days_between due today = if leb today due then pos (due - today) else negsuc (today - due - 1)

unfoldable pub reminder_type_of : ℤ → Option ReminderType
reminder_type_of (pos n) =
    if n == 3 then some payment_reminder_3d else if n == 1 then some payment_reminder_1d else none
reminder_type_of (negsuc n) = some payment_overdue

abbrev pub count_created : ReminderType → ReminderSummary → ReminderSummary
count_created t summary = record summary {
  created = summary.created + 1;
  breakdown = λ u. if same_type u t then summary.breakdown u + 1 else summary.breakdown u;
}

-- The loop's local state: the vendors that were found, the summary, and the world.
pub record Progress (S : Type 0) : Type 0 where
  pub vendors : List (String × VendorInfo)
  pub summary : ReminderSummary
  pub outside : S

abbrev pub cached_vendor : String → List (String × VendorInfo) → Option VendorInfo
cached_vendor key [] = none
cached_vendor key ((k, v) ∷ rest) =
    let later = cached_vendor key rest in if str_eq k key then some v else later
