-- ===== src/Vendors/Service.antt =====
-- The handlers of src/modules/vendors/vendors.service.ts.
use step_fi_api.Common.{
  ℕ, String, List, [], ◌∷◌, Option, none, some, str_eq, if◌then◌else◌, map, Act, returns, throws,
  ◌>>=◌, ◌>>◌, done, require, read, or_throw, call,
}
use step_fi_api.Vendors.{
  VendorRow, VendorAction, NewProduct, ProductChange, OwnerReply, Dashboard, VendorError, FindReply,
  VendorsEnv, is_pending, is_approved, sum_received, dashboard_of, owner_error, no_product,
  owned_by, found, not_there, find_error, vendor_not_found, not_pending, not_approved,
  client_failed, query_error, product_not_found, product_forbidden, product_create_failed,
  product_update_failed, product_delete_failed, api_key_not_found, api_key_revoke_failed,
}

module _ {S : Type 0} (env : VendorsEnv S) where
  unfoldable pub approve_vendor : String → String → Act S VendorError VendorAction
  approve_vendor admin id = do
    row ← read (env.find_by_id id)
    vendor ← or_throw row vendor_not_found
    require (is_pending vendor.status) not_pending
    built ← call (env.build_approve_xdr admin vendor.id)
    xdr ← or_throw built client_failed
    done (record {
      unsigned_xdr = xdr;
      vendor_id = vendor.id;
      vendor_name = vendor.name;
      status = vendor.status;
    })

  unfoldable pub suspend_vendor : String → String → Act S VendorError VendorAction
  suspend_vendor admin id = do
    row ← read (env.find_by_id id)
    vendor ← or_throw row vendor_not_found
    require (is_approved vendor.status) not_approved
    built ← call (env.build_suspend_xdr admin vendor.id)
    xdr ← or_throw built client_failed
    done (record {
      unsigned_xdr = xdr;
      vendor_id = vendor.id;
      vendor_name = vendor.name;
      status = vendor.status;
    })

  abbrev pub found_or_throw : FindReply → Act S VendorError VendorRow
  found_or_throw (found v) s = returns v s
  found_or_throw not_there s = throws vendor_not_found s
  found_or_throw find_error s = throws query_error s

  unfoldable pub require_vendor : String → Act S VendorError VendorRow
  require_vendor wallet s = found_or_throw (env.find_by_wallet wallet s) s

  abbrev pub check_owner : String → OwnerReply → Act S VendorError (Unit {0})
  check_owner vendor_id owner_error s = throws query_error s
  check_owner vendor_id no_product s = throws product_not_found s
  check_owner vendor_id (owned_by owner) s =
      if str_eq owner vendor_id then returns tt s else throws product_forbidden s

  unfoldable pub require_owned_product : String → String → Act S VendorError (Unit {0})
  require_owned_product vendor_id product_id s =
      check_owner vendor_id (env.product_owner product_id s) s

  unfoldable pub create_product : String → NewProduct → Act S VendorError String
  create_product wallet dto = do
    vendor ← require_vendor wallet
    stored ← call (env.insert_product vendor.id dto)
    or_throw stored product_create_failed

  unfoldable pub update_product : String → String → ProductChange → Act S VendorError String
  update_product wallet product_id change = do
    vendor ← require_vendor wallet
    require_owned_product vendor.id product_id
    stored ← call (env.update_product_row product_id vendor.id change)
    or_throw stored product_update_failed

  unfoldable pub delete_product : String → String → Act S VendorError (Unit {0})
  delete_product wallet product_id = do
    vendor ← require_vendor wallet
    require_owned_product vendor.id product_id
    deleted ← call (env.delete_product_row product_id vendor.id)
    require deleted product_delete_failed

  -- No query for a vendor without loans.
  abbrev pub sum_payments_for_loans : List String → S → Option ℕ
  sum_payments_for_loans [] s = some 0
  sum_payments_for_loans (id ∷ ids) s = elim (env.payments_of (id ∷ ids) s) [
    | none ↦ none
    | some payments ↦ some (sum_received payments)
  ]

  unfoldable pub get_dashboard : String → Act S VendorError Dashboard
  get_dashboard wallet = do
    vendor ← require_vendor wallet
    reply ← read (env.vendor_loans vendor.id)
    loans ← or_throw reply query_error
    sum ← read (sum_payments_for_loans (map (λ l. l.loan_id) loans))
    received ← or_throw sum query_error
    done (dashboard_of loans received)

  -- The `try` block: a deletion that throws skips the rest, and is only logged.
  abbrev pub forget_counters : String → S → S
  forget_counters key_id s =
      let (deleted, t) = env.forget_rate key_id s in
      if deleted then (env.forget_last_used key_id t).1 else t

  unfoldable pub forget_key : String → String → S → S
  forget_key key_id hash s =
      if str_eq hash ""
      then forget_counters key_id s
      else let (deleted, t) = env.forget_record hash s in
        if deleted then forget_counters key_id t else t

  unfoldable pub revoke_api_key : String → String → Act S VendorError (Unit {0})
  revoke_api_key wallet key_id = do
    vendor ← require_vendor wallet
    row ← read (env.own_key key_id vendor.id)
    hash ← or_throw row api_key_not_found
    updated ← call (env.deactivate_key key_id)
    require updated api_key_revoke_failed
    call (λ s. (tt, forget_key key_id hash s))
