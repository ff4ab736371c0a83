-- ===== src/Reminders/Tests.antt =====
-- Runs of the reminder job on a day with one loan that is overdue.
use step_fi_api.Common.{◌≡◌, refl, String, true, List, [], ◌∷◌, none, some, All, arith}
use step_fi_api.Reminders.{
  ReminderType, payment_overdue, ActiveLoan, Reminder, RemindersEnv, days_between, reminder_type_of,
}
use step_fi_api.Reminders.Service.{
  identify_candidates, get_vendor, is_duplicate_reminder, reminder_of, build_message,
  process_candidate, process_candidates, remind,
}
use step_fi_api.Reminders.Daily.{
  count_sent, SentLaws, AtMostOnce, Reminded, remind_once, remind_again,
}

abbrev Sent : Type 0
Sent = List (ReminderType × String)

abbrev env : RemindersEnv Sent
env = record {
  today = λ s. 20_000;
  day_of = λ date. some 19_990;
  format_date = λ date. date;
  active_loans = λ s. some [];
  find_vendor = λ id s. none;
  count_today = λ t id s. some (count_sent t id s);
  insert_reminder = λ r s. (true, (r.reminder_type, r.loan_db_id) ∷ s);
}

laws : SentLaws env
laws = record {
  sent = λ s. s;
  counted = λ t id s. refl;
  stored = λ r s ok. refl;
  lost = λ r s bad. cc;
}

abbrev loans : List ActiveLoan
loans =
    record {
      id = "1";
      loan_id = "L1";
      user_wallet = "GA";
      vendor_id = none;
      loan_amount = "10";
      next_payment_due = some "2024-09-24";
      remaining_balance = "10";
    }
    ∷ []

first_run : (remind env (some loans) []).1 ≡ (payment_overdue, "1") ∷ []
unfolding remind process_candidates process_candidate get_vendor is_duplicate_reminder reminder_of
    build_message identify_candidates days_between reminder_type_of
first_run = refl

remind_once_example :
    AtMostOnce env laws (remind env (some loans) []).1
    × (((r : Reminder) (u : Sent) → (env.insert_reminder r u).0 ≡ true)
        → All
            (Reminded env laws (remind env (some loans) []).1)
            (identify_candidates env (env.today []) loans))
unfolding laws
remind_once_example = remind_once env laws loans [] (λ t id. omega arith)

remind_again_example :
    let t = (remind env (some loans) []).1 in
    ((remind env (some loans) t).0.created ≡ 0) × ((remind env (some loans) t).1 ≡ t)
remind_again_example = remind_again env laws loans [] (λ r u. refl) refl
