-- ===== src/Checker/Tests.antt =====
-- The theorems on the transaction status checker at concrete transactions.
use Prim.Native.String.{◌++◌}
use step_fi_api.Common.{
  ne-str_eq, ℕ, ◌+◌, ◌*◌, ◌≡◌, ◌≢◌, refl, String, Bool, true, false, [], ◌∷◌, none, some, arith,
  returns, final, if◌then◌else◌, str_eq, eq_iff, All, subst,
}
use mathlib.Core.Option.{some-injective}
use step_fi_api.Loans.Types.{LoanStatus, pending, active, CreateLoanParams}
use step_fi_api.Loans.Terms.{cent}
use step_fi_api.Checker.Types.{
  TransactionType, loan_create, PendingTransaction, success, failed, DecodedXdr, invocation, bigint,
  TransactionMetadata, Notification, Claim, claimed, no_row, CheckerEnv, response, text, number,
}
use step_fi_api.Checker.Horizon.{last, max_attempts, check_transaction_status}
use step_fi_api.Checker.Metadata.{create_loan_call, parse_transaction_metadata}
use step_fi_api.Checker.FollowUp.{apply_follow_up_actions}
use step_fi_api.Checker.Notice.{notification_of}
use step_fi_api.Checker.Cycle.{
  process_transaction, create_notification, finalize_transaction, check_transactions,
}
use step_fi_api.Checker.Retries.{Asked, check_transaction_status-Asked}
use step_fi_api.Checker.LoanWrites.{LoanWrite, apply_follow_up_actions-LoanWrite}
use step_fi_api.Checker.Settlement.{activation_failure_hidden}
use step_fi_api.Checker.Once.{finalize_transaction-twice}
use step_fi_api.Checker.Progress.{activation, process_transaction-activates}
use step_fi_api.Checker.Isolation.{check_transactions_frame}

-- One transaction and one loan of the wallet "GA", and the number of notifications.
record World : Type 0 where
  settled : Bool
  loan : LoanStatus
  notices : ℕ

abbrev claimed_now : World → Claim × World
claimed_now s =
    if s.settled
    then (no_row, s)
    else (claimed, record { settled = true; loan = s.loan; notices = s.notices })

abbrev with_loan : String → LoanStatus → World → World
with_loan wallet status s =
    if str_eq wallet "GA"
    then record { settled = s.settled; loan = status; notices = s.notices }
    else s

abbrev sent : String → TransactionType → PendingTransaction
sent wallet kind = record {
  user_wallet = wallet;
  transaction_hash = "h1";
  kind = kind;
  xdr = some "AAAA";
}

-- `stores` says whether the write that activates a loan succeeds.
abbrev world : Bool → String → DecodedXdr → CheckerEnv World
world stores wallet decoded = record {
  fetch_pending = λ s. some (sent wallet loan_create ∷ []);
  horizon = λ hash s. (response (some true) none, s);
  claim_transaction = λ hash status error s. claimed_now s;
  find_loan = λ id w s. some (record { status = s.loan; remaining_balance = some (90 * cent) });
  activate_loan = λ id w s. (stores, if stores then with_loan w active s else s);
  write_balance = λ id w balance status s. (true, s);
  insert_notification =
      λ n s. (true, record { settled = s.settled; loan = s.loan; notices = s.notices + 1 });
  delete_old = λ s. (true, s);
  spell = λ arg. none;
  decode = λ x. decoded;
  to_fixed_2 = λ n. "0.00";
}

abbrev params : CreateLoanParams
params = record {
  loan_id = "loan_1";
  vendor_id = "v1";
  amount = 100 * cent;
  loan_amount = 80 * cent;
  guarantee = 20 * cent;
  interest_rate = 6;
  term = 3;
}

abbrev creation : DecodedXdr
creation = invocation "create_loan" (
    text "loan_1"
    ∷ text "v1"
    ∷ bigint (100 * cent)
    ∷ bigint (80 * cent)
    ∷ bigint (20 * cent)
    ∷ number 6
    ∷ number 3
    ∷ [])

abbrev open_world : World
open_world = record { settled = false; loan = pending; notices = 0 }

abbrev settled_world : World
settled_world = record { settled = true; loan = pending; notices = 0 }

abbrev create_tx : PendingTransaction
create_tx = sent "GA" loan_create

apply_follow_up_actions-LoanWrite_example :
    LoanWrite
      (world true "GA" creation)
      create_tx
      open_world
      (apply_follow_up_actions (world true "GA" creation) create_tx success open_world).1
apply_follow_up_actions-LoanWrite_example =
    apply_follow_up_actions-LoanWrite (world true "GA" creation) create_tx success open_world

abbrev repayment : DecodedXdr
repayment = invocation "repay_installment" (text "GA" ∷ text "loan_1" ∷ bigint (30 * cent) ∷ [])

check_transaction_status-Asked_example :
    Asked
      (world true "GA" creation)
      "h1"
      max_attempts
      open_world
      (check_transaction_status (world true "GA" creation) "h1" open_world)
check_transaction_status-Asked_example =
    check_transaction_status-Asked (world true "GA" creation) "h1" open_world

abbrev metadata : TransactionMetadata
metadata = record { loan_id = some "loan_1"; amount = none }

activation_failure_hidden_example :
    (n : Notification) × (create_notification
        (world false "GA" creation)
        create_tx
        success
        none
        open_world
      ≡ ((world false "GA" creation).insert_notification n open_world).1)
    × (n.message ≡ "Your loan " ++ "loan_1" ++ " is now active after Stellar confirmation.")
unfolding parse_transaction_metadata
activation_failure_hidden_example =
    activation_failure_hidden (world false "GA" creation) create_tx metadata "loan_1"
      (record { status = pending; remaining_balance = some (90 * cent) }) open_world open_world refl
      refl refl refl refl refl none

check_transactions_frame_example :
    (check_transactions (world true "GB" creation) false open_world).1.loan ≡ pending
check_transactions_frame_example =
    check_transactions_frame (world true "GB" creation) "GA" (λ u. u.loan ≡ pending) (λ hash u p. p)
      (λ hash status error u p. ground (arith, p)) (λ n u p. p) (λ u p. p)
      (λ id other u ne p. ground (arith, ne, p, eq_iff other "GA"))
      (λ id other balance status u ne p. p) false open_world
      (λ txs e.
        subst (All (λ (tx : PendingTransaction). tx.user_wallet ≢ "GA")) (some-injective _ _ e)
          (ne-str_eq "GB" "GA" refl, tt))
      refl

abbrev Locked : World → Type 0
Locked s = s.settled ≡ true

claim-Locked : (s t : World) → claimed_now s ≡ (claimed, t) → Locked t
claim-Locked s t e = ground (arith, e)

Locked-claim : (s : World) → Locked s → (claimed_now s).0 ≢ claimed
Locked-claim s p = ground (arith, p)

with_loan-Locked : (wallet : String) (s : World) → Locked s → Locked (with_loan wallet active s)
with_loan-Locked wallet s p = ground (arith, p)

finalize_transaction-twice_example :
    let env = world true "GA" creation in
    let u = final (finalize_transaction env create_tx success none open_world) in
    final (finalize_transaction env create_tx failed (some "late") u)
    ≡ (env.claim_transaction "h1" failed (some "late") u).1
finalize_transaction-twice_example =
    finalize_transaction-twice (world true "GA" creation) create_tx Locked
      (λ status error s t e. claim-Locked s t e) (λ status error s p. Locked-claim s p) (λ n s p. p)
      (λ id wallet s p. with_loan-Locked wallet s p) (λ id wallet balance status s p. p) success
      failed none (some "late") open_world settled_world refl

abbrev active_world : World
active_world = record { settled = true; loan = active; notices = 0 }

process_transaction-activates_example :
    process_transaction (world true "GA" creation) create_tx open_world
    ≡ returns tt
        ((world true "GA" creation).insert_notification
          (notification_of
            (world true "GA" creation).to_fixed_2
            create_tx
            success
            none
            (activation "loan_1"))
          active_world).1
unfolding create_loan_call
process_transaction-activates_example =
    process_transaction-activates (world true "GA" creation) create_tx "AAAA" params 1 open_world
      open_world settled_world active_world none
      (record { status = pending; remaining_balance = some (90 * cent) }) refl refl
      (ne-str_eq "AAAA" "" refl) refl (ne-str_eq "loan_1" "" refl) (last refl) (ground arith) refl
      refl refl refl
