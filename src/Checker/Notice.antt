-- ===== src/Checker/Notice.antt =====
-- `buildNotificationPayload` and the row that `createNotification` inserts, in the
-- transaction status checker.
use Prim.Native.String.{◌++◌}
use step_fi_api.Common.{ℕ, String, Option, none, some}
use step_fi_api.Checker.Types.{
  TransactionType, loan_create, loan_repay, deposit, withdraw, vendor_approve, vendor_suspend,
  PendingTransaction, FinalStatus, success, failed, FollowUpResult, Notification, truthy,
}

-- `type.replace('_', ' ')`
abbrev pub type_words : TransactionType → String
type_words loan_create = "loan create"
type_words loan_repay = "loan repay"
type_words deposit = "deposit"
type_words withdraw = "withdraw"
type_words vendor_approve = "vendor approve"
type_words vendor_suspend = "vendor suspend"

-- ` ${errorMessage}` if there is one
abbrev pub error_suffix : Option String → String
error_suffix none = ""
error_suffix (some e) = " " ++ e

abbrev pub loan_active_message : Option String → String
loan_active_message none =
    "Your loan creation transaction was confirmed on Stellar and your loan is now active."
loan_active_message (some id) = "Your loan " ++ id ++ " is now active after Stellar confirmation."

abbrev pub balance_suffix : (ℕ → String) → Option ℕ → String
balance_suffix to_fixed none = ""
balance_suffix to_fixed (some b) = " Remaining balance is $" ++ to_fixed b ++ "."

-- The type, the title and the message.
unfoldable pub success_payload :
    (ℕ → String) → TransactionType → FollowUpResult → String × String × String
success_payload to_fixed loan_create f =
    ("loan_create_success", "Loan Activated", loan_active_message (truthy f.loan_id))
success_payload to_fixed loan_repay f = (
  "loan_repay_success",
  "Loan Payment Confirmed",
  "Your loan repayment transaction was confirmed on Stellar."
      ++ balance_suffix to_fixed f.remaining_balance,
)
success_payload to_fixed kind f = (
  "transaction_success",
  "Transaction Confirmed",
  "Your " ++ type_words kind ++ " transaction was confirmed on Stellar.",
)

unfoldable pub build_notification_payload :
    (ℕ → String)
    → PendingTransaction
    → FinalStatus
    → Option String
    → FollowUpResult
    → String × String × String
unfolding success_payload
build_notification_payload to_fixed tx failed error f = (
  "transaction_failed",
  "Transaction Failed",
  "Your " ++ type_words tx.kind ++ " transaction failed on Stellar." ++ error_suffix (truthy error),
)
build_notification_payload to_fixed tx success error f = success_payload to_fixed tx.kind f

unfoldable pub notification_of :
    (ℕ → String) → PendingTransaction → FinalStatus → Option String → FollowUpResult → Notification
notification_of to_fixed tx status error f =
    let (kind, title, message) = build_notification_payload to_fixed tx status error f in
    record {
      user_wallet = tx.user_wallet;
      kind = kind;
      title = title;
      message = message;
      transaction_hash = tx.transaction_hash;
      transaction_type = tx.kind;
      loan_id = f.loan_id;
    }
