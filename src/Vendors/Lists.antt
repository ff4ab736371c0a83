-- ===== src/Vendors/Lists.antt =====
-- The lists of src/modules/vendors/vendors.service.ts: vendors, loans, payments and API keys.
-- A page and a limit are natural numbers; an amount that is no finite number is `none`.
use step_fi_api.Common.{
  ℕ, String, Bool, false, List, [], ◌∷◌, map, Option, none, some, str_eq, if◌then◌else◌, Act, ◌>>=◌,
  done, read, or_throw,
}
use step_fi_api.Common.Int.{ℤ, add_ℕ, pred_ℤ}
use step_fi_api.Common.Pages.{offset_of, total_pages_of}
use step_fi_api.Checker.Types.{truthy}
use step_fi_api.Vendors.{
  VendorStatus, VendorError, vendor_not_found, query_error, list_failed, VendorsEnv,
}
use step_fi_api.Vendors.Service.{require_vendor}

pub record VendorProfile : Type 0 where
  pub id : String
  pub wallet_address : Option String
  pub name : String
  pub vendor_type : String
  pub status : VendorStatus
  pub verified : Bool
  pub website : Option String
  pub country : Option String
  pub city : Option String
  pub description : Option String
  pub created_at : String

pub record VendorLoanRow : Type 0 where
  pub id : String
  pub loan_id : String
  pub user_wallet : String
  pub amount : Option ℕ
  pub loan_amount : Option ℕ
  pub remaining_balance : Option ℕ
  pub status : String
  pub next_payment_due : Option String
  pub created_at : String

pub record VendorLoanDto : Type 0 where
  pub id : String
  pub loan_id : String
  pub borrower_wallet : String
  pub amount : ℕ
  pub loan_amount : ℕ
  pub remaining_balance : ℕ
  pub status : String
  pub next_payment_due : Option String
  pub created_at : String

pub record PaymentRow : Type 0 where
  pub id : String
  pub loan_id : String
  pub amount : Option ℕ
  pub tx_hash : String
  pub paid_at : String

pub record VendorPaymentDto : Type 0 where
  pub id : String
  pub loan_id : String
  pub amount : ℕ
  pub tx_hash : String
  pub paid_at : String

-- The times of creation and update are left out.
pub record ApiKeyView : Type 0 where
  pub id : String
  pub vendor_id : String
  pub name : String
  pub key_prefix : String
  pub permissions : List String
  pub is_active : Bool
  pub last_used_at : Option String
  pub expires_at : Option String

pub record Page (A : Type 0) : Type 0 where
  pub items : List A
  pub total : ℕ
  pub page : ℕ
  pub limit : ℕ
  pub total_pages : ℕ

-- The queries; `none` for an error. The ranges are from and to an offset, both included; the second
-- part of a reply is its count.
pub record ListsEnv (S : Type 0) : Type 0 where
  pub all_vendors : Option String → S → Option (List VendorProfile)
  pub vendor_by_id : String → S → Option VendorProfile
  pub loans_range : String → String → Bool → ℤ × ℤ → S → Option (List VendorLoanRow × Option ℕ)
  pub loan_ids : String → S → Option (List String)
  pub payments_range : List String → ℤ × ℤ → S → Option (List PaymentRow × Option ℕ)
  pub api_keys : String → S → Option (List ApiKeyView)

-- `toNumber`
abbrev pub to_number : Option ℕ → ℕ
to_number none = 0
to_number (some n) = n

abbrev pub map_loan_to_dto : VendorLoanRow → VendorLoanDto
map_loan_to_dto row = record {
  id = row.id;
  loan_id = row.loan_id;
  borrower_wallet = row.user_wallet;
  amount = to_number row.amount;
  loan_amount = to_number row.loan_amount;
  remaining_balance = to_number row.remaining_balance;
  status = row.status;
  next_payment_due = row.next_payment_due;
  created_at = row.created_at;
}

abbrev pub map_payment_to_dto : PaymentRow → VendorPaymentDto
map_payment_to_dto row = record {
  id = row.id;
  loan_id = row.loan_id;
  amount = to_number row.amount;
  tx_hash = row.tx_hash;
  paid_at = row.paid_at;
}

-- `sort && LOAN_SORT_COLUMNS.has(sort) ? sort : 'created_at'`
unfoldable pub sort_column : Option String → String
sort_column none = "created_at"
sort_column (some sort) =
    if str_eq sort "created_at"
    then sort
    else if str_eq sort "amount"
    then sort
    else if str_eq sort "status"
    then sort
    else "created_at"

abbrev pub is_asc : Option String → Bool
is_asc none = false
is_asc (some order) = str_eq order "asc"

-- `offset` and `offset + limit - 1`
abbrev pub range_of : ℕ → ℕ → ℤ × ℤ
range_of page limit = (offset_of page limit, pred_ℤ (add_ℕ (offset_of page limit) limit))

abbrev pub page_of : {A : Type 0} → List A → Option ℕ → ℕ → ℕ → Page A
page_of items count page limit = record {
  items = items;
  total = to_number count;
  page = page;
  limit = limit;
  total_pages = total_pages_of (to_number count) limit;
}

module _ {S : Type 0} (env : VendorsEnv S) (lists : ListsEnv S) where
  -- An empty type is no filter.
  unfoldable pub get_all : Option String → Act S VendorError (List VendorProfile)
  get_all vendor_type = do
    reply ← read (lists.all_vendors (truthy vendor_type))
    or_throw reply list_failed

  unfoldable pub get_by_id : String → Act S VendorError VendorProfile
  get_by_id id = do reply ← read (lists.vendor_by_id id); or_throw reply vendor_not_found

  unfoldable pub get_loans :
      String → ℕ → ℕ → Option String → Option String → Act S VendorError (Page VendorLoanDto)
  get_loans wallet page limit sort order = do
    vendor ← require_vendor env wallet
    reply ←
        read (lists.loans_range vendor.id (sort_column sort) (is_asc order) (range_of page limit))
    (rows, count) ← or_throw reply query_error
    done (page_of (map map_loan_to_dto rows) count page limit)

  abbrev pub payments_page : List String → ℕ → ℕ → Act S VendorError (Page VendorPaymentDto)
  payments_page [] page limit =
      done (record { items = []; total = 0; page = page; limit = limit; total_pages = 0 })
  payments_page (id ∷ ids) page limit = do
    reply ← read (lists.payments_range (id ∷ ids) (range_of page limit))
    (rows, count) ← or_throw reply query_error
    done (page_of (map map_payment_to_dto rows) count page limit)

  unfoldable pub get_payments : String → ℕ → ℕ → Act S VendorError (Page VendorPaymentDto)
  get_payments wallet page limit = do
    vendor ← require_vendor env wallet
    reply ← read (lists.loan_ids vendor.id)
    ids ← or_throw reply query_error
    payments_page ids page limit

  unfoldable pub list_api_keys : String → Act S VendorError (List ApiKeyView)
  list_api_keys wallet = do
    vendor ← require_vendor env wallet
    reply ← read (lists.api_keys vendor.id)
    or_throw reply query_error
