-- ===== src/Vendors.antt =====
-- src/modules/vendors/vendors.service.ts: the data of the status actions on vendors, of their
-- products, their dashboard and their API keys.
pub mod Keys
pub mod Products
pub mod Lists
pub mod Accounts
pub mod Pages
pub mod Service
mod Tests
use step_fi_api.Common.{
  ℕ, ◌+◌, ◌*◌, ◌/◌, ◌==◌, String, Bool, true, false, not, List, [], ◌∷◌, ◌++◌, Option, none, some,
  str_eq, if◌then◌else◌, length, sum_of, count_of, map, Run, Act, returns, throws, ◌>>=◌, ◌>>◌,
  done, require, read, or_throw, call,
}

-- The column is never null.
pub data VendorStatus : Type 0 where
  pending approved suspended rejected : VendorStatus

pub record VendorRow : Type 0 where
  pub id : String
  pub name : String
  pub status : VendorStatus

-- The name stands for the description, a fixed sentence that quotes it.
pub record VendorAction : Type 0 where
  pub unsigned_xdr : String
  pub vendor_id : String
  pub vendor_name : String
  pub status : VendorStatus

pub record NewProduct : Type 0 where
  pub name : String
  pub price : ℕ
  pub category : Option String
  pub description : Option String

-- The fields that an update sets; `none` where the request leaves them out.
pub record ProductChange : Type 0 where
  pub name : Option String
  pub price : Option ℕ
  pub category : Option String
  pub description : Option String

pub data OwnerReply : Type 0 where
  owner_error : OwnerReply
  no_product : OwnerReply
  owned_by : (vendor_id : String) → OwnerReply

pub data LoanState : Type 0 where
  active defaulted other : LoanState

pub record VendorLoan : Type 0 where
  pub loan_id : String
  pub user_wallet : String
  pub status : LoanState

-- The rate in hundredths of a percent.
pub record Dashboard : Type 0 where
  pub total_loans_funded : ℕ
  pub total_received : ℕ
  pub active_borrowers : ℕ
  pub default_rate : ℕ

pub data VendorError : Type 0 where
  vendor_not_found not_pending not_approved client_failed : VendorError
  query_error product_not_found product_forbidden : VendorError
  product_create_failed product_update_failed product_delete_failed : VendorError
  api_key_not_found api_key_revoke_failed api_key_create_failed : VendorError
  list_failed already_registered vendor_create_failed : VendorError

-- A read of the repository: what it finds, or that it throws.
pub data FindReply : Type 0 where
  found : VendorRow → FindReply
  not_there : FindReply
  find_error : FindReply

pub record VendorsEnv (S : Type 0) : Type 0 where
  -- `findByWallet` of the repository
  pub find_by_wallet : String → S → FindReply
  -- `vendors` by id: `none` for an error and for no row
  pub find_by_id : String → S → Option VendorRow
  -- the contract client: `none` when it throws
  pub build_approve_xdr : String → String → S → Option String × S
  pub build_suspend_xdr : String → String → S → Option String × S
  pub product_owner : String → S → OwnerReply
  -- the id of the stored product; `none` for an error and for no row
  pub insert_product : String → NewProduct → S → Option String × S
  -- the update, with the time it sets, and the deletion of a product by its id and its vendor
  pub update_product_row : String → String → ProductChange → S → Option String × S
  pub delete_product_row : String → String → S → Bool × S
  -- `none` for an error
  pub vendor_loans : String → S → Option (List VendorLoan)
  pub payments_of : List String → S → Option (List ℕ)
  -- the hash of a key of a vendor; `none` for an error and for no row
  pub own_key : String → String → S → Option String
  pub deactivate_key : String → S → Bool × S
  -- the deletions from the cache; `false` when one throws
  pub forget_record : String → S → Bool × S
  pub forget_rate : String → S → Bool × S
  pub forget_last_used : String → S → Bool × S

abbrev pub is_pending : VendorStatus → Bool
is_pending pending = true
is_pending _ = false

abbrev pub is_approved : VendorStatus → Bool
is_approved approved = true
is_approved _ = false

abbrev pub is_active_loan : VendorLoan → Bool
is_active_loan l = elim l.status [ active ↦ true | defaulted ↦ false | other ↦ false ]

abbrev pub is_defaulted_loan : VendorLoan → Bool
is_defaulted_loan l = elim l.status [ active ↦ false | defaulted ↦ true | other ↦ false ]

abbrev pub is_listed : String → List String → Bool
is_listed x [] = false
is_listed x (y ∷ ys) = let rest = is_listed x ys in if str_eq x y then true else rest

-- `new Set(...).size` of the wallets of the active loans.
abbrev pub active_wallets : List VendorLoan → List String
active_wallets [] = []
active_wallets (l ∷ ls) =
    let rest = active_wallets ls in
    if is_active_loan l
    then (if is_listed l.user_wallet rest then rest else l.user_wallet ∷ rest)
    else rest

-- `Math.round((defaulted / total) * 10000)`, and 0 for no loans
abbrev pub rate_of : ℕ → ℕ → ℕ
rate_of count total = if total == 0 then 0 else (2 * (count * 10_000) + total) / (2 * total)

abbrev pub sum_received : List ℕ → ℕ
sum_received payments = sum_of (λ n. n) payments

unfoldable pub dashboard_of : List VendorLoan → ℕ → Dashboard
dashboard_of loans received = record {
  total_loans_funded = length loans;
  total_received = received;
  active_borrowers = length (active_wallets loans);
  default_rate = rate_of (count_of is_defaulted_loan loans) (length loans);
}
