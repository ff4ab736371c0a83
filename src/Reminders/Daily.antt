-- ===== src/Reminders/Daily.antt =====
-- How often src/jobs/loan-payment-reminder/loan-payment-reminder.service.ts reminds of a loan.
use step_fi_api.Common.{
  ℕ, ◌+◌, ◌≤◌, ◌≡◌, refl, sym, ap, ◌∙◌, subst, inl, inr, String, true, false, List, [], ◌∷◌, some,
  str_eq, eq_iff, ◌&&◌, if◌then◌else◌, count_of, All, Bool-cases, arith, ltb,
}
use step_fi_api.Reminders.{
  ReminderType, payment_reminder_3d, payment_reminder_1d, payment_overdue, ActiveLoan,
  ReminderCandidate, Reminder, RemindersEnv, Progress, same_type,
}
use step_fi_api.Reminders.Service.{
  identify_candidates, get_vendor, is_duplicate_reminder, reminder_of, process_candidate,
  process_candidates, remind,
}

-- The rows of a list for one type and one loan.
abbrev pub count_sent : ReminderType → String → List (ReminderType × String) → ℕ
count_sent t id rows = count_of (λ row. same_type row.0 t && str_eq row.1 id) rows

-- The table has a list of today's reminders, which the query counts and never fails to, and which an
-- insertion extends when it reports no error, and keeps when it reports one. The job takes a query
-- that fails for no reminder, and inserts: the laws leave this case out.
pub record SentLaws {S : Type 0} (env : RemindersEnv S) : Type 0 where
  pub sent : S → List (ReminderType × String)
  pub counted :
      (t : ReminderType) (id : String) (s : S)
      → env.count_today t id s ≡ some (count_sent t id (sent s))
  pub stored :
      (r : Reminder) (s : S)
      → (env.insert_reminder r s).0 ≡ true
      → sent (env.insert_reminder r s).1 ≡ (r.reminder_type, r.loan_db_id) ∷ sent s
  pub lost :
      (r : Reminder) (s : S)
      → (env.insert_reminder r s).0 ≡ false
      → sent (env.insert_reminder r s).1 ≡ sent s

same_type-eq : (a b : ReminderType) → same_type a b ≡ true → a ≡ b
same_type-eq payment_reminder_3d payment_reminder_3d h = refl
same_type-eq payment_reminder_3d payment_reminder_1d h = cc
same_type-eq payment_reminder_3d payment_overdue h = cc
same_type-eq payment_reminder_1d payment_reminder_3d h = cc
same_type-eq payment_reminder_1d payment_reminder_1d h = refl
same_type-eq payment_reminder_1d payment_overdue h = cc
same_type-eq payment_overdue payment_reminder_3d h = cc
same_type-eq payment_overdue payment_reminder_1d h = cc
same_type-eq payment_overdue payment_overdue h = refl

same_type_self : (a : ReminderType) → same_type a a ≡ true
same_type_self payment_reminder_3d = refl
same_type_self payment_reminder_1d = refl
same_type_self payment_overdue = refl

module _ {S : Type 0} (env : RemindersEnv S) (laws : SentLaws env) where
  abbrev pub sent_count : ReminderType → String → S → ℕ
  sent_count t id s = count_sent t id (laws.sent s)

  -- No loan has been reminded of twice today by one type of reminder.
  abbrev pub AtMostOnce : S → Type 0
  AtMostOnce s = (t : ReminderType) (id : String) → sent_count t id s ≤ 1

  -- What one candidate does to the table.
  data Step (c : ReminderCandidate) (s : S) : S → Type 0 where
    skips : (1 ≤ sent_count c.reminder_type c.loan.id s) → Step c s s
    fails :
        (r : Reminder) → (env.insert_reminder r s).0 ≡ false → Step c s (env.insert_reminder r s).1
    sends :
        (r : Reminder)
        → r.reminder_type ≡ c.reminder_type
        → r.loan_db_id ≡ c.loan.id
        → sent_count c.reminder_type c.loan.id s ≡ 0
        → (env.insert_reminder r s).0 ≡ true
        → Step c s (env.insert_reminder r s).1

  process_candidate-Step :
      (c : ReminderCandidate) (p : Progress S)
      → Step c p.outside (process_candidate env c p).outside
  unfolding process_candidate is_duplicate_reminder reminder_of
  process_candidate-Step c p =
      let n = sent_count c.reminder_type c.loan.id p.outside in
      let r = reminder_of env c (get_vendor env c.loan.vendor_id p.vendors p.outside).0 in
      let counted = laws.counted c.reminder_type c.loan.id p.outside in
      elim (Bool-cases (ltb 0 n)) [
        | inl some_sent ↦ rw (counted, some_sent) (skips (ground arith))
        | inr none_sent ↦
            rw (counted, none_sent)
              (elim (Bool-cases (env.insert_reminder r p.outside).0) [
                | inl ok ↦ sends r refl refl (ground arith) ok
                | inr bad ↦ fails r bad
              ])
      ]

  count_after_send :
      (r : Reminder) (s : S) (t : ReminderType) (id : String)
      → (env.insert_reminder r s).0 ≡ true
      → sent_count t id (env.insert_reminder r s).1
        ≡ (if same_type r.reminder_type t && str_eq r.loan_db_id id then 1 else 0)
          + sent_count t id s
  count_after_send r s t id ok = ap (count_sent t id) (laws.stored r s ok)

  Step-mono :
      (c : ReminderCandidate) (s s' : S) (t : ReminderType) (id : String)
      → Step c s s'
      → sent_count t id s ≤ sent_count t id s'
  Step-mono c s s' t id (skips there) = omega arith
  Step-mono c s s' t id (fails r bad) = omega (arith, ap (count_sent t id) (laws.lost r s bad))
  Step-mono c s s' t id (sends r same_t same_id none_sent ok) =
      omega (arith, count_after_send r s t id ok)

  Step-AtMostOnce : (c : ReminderCandidate) (s s' : S) → Step c s s' → AtMostOnce s → AtMostOnce s'
  Step-AtMostOnce c s s' (skips there) once t id = once t id
  Step-AtMostOnce c s s' (fails r bad) once t id =
      omega (arith, once t id, ap (count_sent t id) (laws.lost r s bad))
  Step-AtMostOnce c s s' (sends r same_t same_id none_sent ok) once t id =
      elim (Bool-cases (same_type r.reminder_type t && str_eq r.loan_db_id id)) [
        | inl hit ↦
            let at : t ≡ c.reminder_type =
              sym (same_type-eq r.reminder_type t (ground arith)) ∙ same_t in
            let of : id ≡ c.loan.id = ground (arith, eq_iff r.loan_db_id id) in
            let zero_sent : sent_count t id s ≡ 0 = rw (at, of) none_sent in
            let after = count_after_send r s t id ok in ground (arith, hit, zero_sent, after)
        | inr miss ↦
            let after = count_after_send r s t id ok in
            let before = once t id in ground (arith, miss, before, after)
      ]

  -- Where insertions succeed, the candidate has a reminder afterwards.
  Step-sent :
      (c : ReminderCandidate) (s s' : S)
      → ((r : Reminder) (u : S) → (env.insert_reminder r u).0 ≡ true)
      → Step c s s'
      → 1 ≤ sent_count c.reminder_type c.loan.id s'
  Step-sent c s s' works (skips there) = there
  Step-sent c s s' works (fails r bad) = cc (works r s)
  Step-sent c s s' works (sends r same_t same_id none_sent ok) =
      let after = count_after_send r s c.reminder_type c.loan.id ok in
      let hit : same_type r.reminder_type c.reminder_type ≡ true =
        rw same_t (same_type_self c.reminder_type) in
      let id = (eq_iff r.loan_db_id c.loan.id).1 same_id in ground (arith, hit, id, after)

  process_candidates_mono :
      (cs : List ReminderCandidate) (p : Progress S) (t : ReminderType) (id : String)
      → sent_count t id p.outside ≤ sent_count t id (process_candidates env cs p).outside
  unfolding process_candidates
  process_candidates_mono [] p t id = omega arith
  process_candidates_mono (c ∷ cs) p t id = omega (
    arith,
    Step-mono c _ _ t id (process_candidate-Step c p),
    process_candidates_mono cs (process_candidate env c p) t id,
  )

  process_candidates-AtMostOnce :
      (cs : List ReminderCandidate) (p : Progress S)
      → AtMostOnce p.outside
      → AtMostOnce (process_candidates env cs p).outside
  unfolding process_candidates
  process_candidates-AtMostOnce [] p once = once
  process_candidates-AtMostOnce (c ∷ cs) p once =
      process_candidates-AtMostOnce cs (process_candidate env c p)
        (Step-AtMostOnce c _ _ (process_candidate-Step c p) once)

  abbrev pub Reminded : S → ReminderCandidate → Type 0
  Reminded s c = 1 ≤ sent_count c.reminder_type c.loan.id s

  process_candidates-Reminded :
      (cs : List ReminderCandidate) (p : Progress S)
      → ((r : Reminder) (u : S) → (env.insert_reminder r u).0 ≡ true)
      → All (Reminded (process_candidates env cs p).outside) cs
  unfolding process_candidates
  process_candidates-Reminded [] p works = tt
  process_candidates-Reminded (c ∷ cs) p works =
      let q = process_candidate env c p in
      let now = Step-sent c _ _ works (process_candidate-Step c p) in
      let later = process_candidates_mono cs q c.reminder_type c.loan.id in
      (omega (arith, now, later), process_candidates-Reminded cs q works)

  -- Take a table whose duplicate query never fails and counts the rows of today, a day that does not
  -- end during the job, and insertions
  -- that add their row just when they report no error. If no loan has been reminded of twice today
  -- by one type, this still holds after a job that has fetched its loans, and where all insertions succeed, every candidate has then been reminded of.
  pub remind_once :
      (loans : List ActiveLoan) (s : S)
      → AtMostOnce s
      → AtMostOnce (remind env (some loans) s).1
        × (((r : Reminder) (u : S) → (env.insert_reminder r u).0 ≡ true)
            → All
                (Reminded (remind env (some loans) s).1)
                (identify_candidates env (env.today s) loans))
  unfolding remind identify_candidates
  remind_once [] s once = (once, λ works. tt)
  remind_once (loan ∷ loans) s once =
      (process_candidates-AtMostOnce _ _ once, process_candidates-Reminded _ _)

  process_candidate_skip :
      (c : ReminderCandidate) (p : Progress S)
      → Reminded p.outside c
      → ((process_candidate env c p).outside ≡ p.outside)
        × ((process_candidate env c p).summary.created ≡ p.summary.created)
  unfolding process_candidate is_duplicate_reminder
  process_candidate_skip c p there =
      let counted = laws.counted c.reminder_type c.loan.id p.outside in
      let found : ltb 0 (sent_count c.reminder_type c.loan.id p.outside) ≡ true = ground arith in
      (rw (counted, found) refl, rw (counted, found) refl)

  -- A loop over candidates that have been reminded of.
  process_candidates_skip :
      (cs : List ReminderCandidate) (p : Progress S)
      → All (Reminded p.outside) cs
      → ((process_candidates env cs p).outside ≡ p.outside)
        × ((process_candidates env cs p).summary.created ≡ p.summary.created)
  unfolding process_candidates
  process_candidates_skip [] p all = (refl, refl)
  process_candidates_skip (c ∷ cs) p all =
      let (same, created) = process_candidate_skip c p all.0 in
      let (same', created') =
        process_candidates_skip cs (process_candidate env c p)
          (subst (λ u. All (Reminded u) cs) (sym same) all.1) in
      (same' ∙ same, created' ∙ created)

  -- Take a table whose duplicate query never fails and counts the rows of today, and insertions that
  -- always succeed and add their row. A second run over the same loans and with the same `today` as the first reminds
  -- nobody: it creates nothing and leaves the world as it is.
  pub remind_again :
      (loans : List ActiveLoan) (s : S)
      → ((r : Reminder) (u : S) → (env.insert_reminder r u).0 ≡ true)
      → env.today (remind env (some loans) s).1 ≡ env.today s
      → let t = (remind env (some loans) s).1 in
        ((remind env (some loans) t).0.created ≡ 0) × ((remind env (some loans) t).1 ≡ t)
  unfolding remind
  remind_again [] s works same = (refl, refl)
  remind_again (loan ∷ loans) s works same =
      let t = (remind env (some (loan ∷ loans)) s).1 in
      let all =
        subst (λ day. All (Reminded t) (identify_candidates env day (loan ∷ loans))) (sym same)
          (process_candidates-Reminded (identify_candidates env (env.today s) (loan ∷ loans)) _
            works) in
      let (world, created) =
        process_candidates_skip (identify_candidates env (env.today t) (loan ∷ loans)) _ all in
      (created, world)
