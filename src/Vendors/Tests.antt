-- ===== src/Vendors/Tests.antt =====
-- Runs of the vendors' operations on small data.
use step_fi_api.Common.{
  Option, ℕ, ltb, ◌<◌, ◌≡◌, ◌≢◌, refl, String, map, length, arith, Bool, true, false, List, [], ◌∷◌,
  none, some, if◌then◌else◌, returns,
}
use step_fi_api.Access.ApiKey.{ApiKeyRecord, KeyEnv, KeyRequest, hit, miss, can_activate}
use step_fi_api.Vendors.{
  VendorRow, VendorsEnv, ProductChange, VendorLoan, active, defaulted, approved, owned_by, found,
}
use step_fi_api.Vendors.Service.{
  update_product, require_vendor, require_owned_product, forget_key, revoke_api_key,
}
use step_fi_api.Common.Int.{ℤ, pos, negsuc}
use step_fi_api.Common.Pages.{take, drop, all_pages, total_pages_of}
use step_fi_api.Vendors.Lists.{VendorLoanRow, ListsEnv, map_loan_to_dto}
use step_fi_api.Vendors.Pages.{page_items, get_loans-all_pages}
use step_fi_api.Vendors.Keys.{KeyLaws, revoke_api_key-can_activate}
use step_fi_api.Vendors.Products.{update_product-owned}

abbrev shop : VendorRow
shop = record { id = "v1"; name = "Shop"; status = approved }

-- A state says whether the row of the one key is active, and whether the cache has its record.
abbrev Store : Type 0
Store = Bool × Bool

abbrev vendors : VendorsEnv Store
vendors = record {
  find_by_wallet = λ wallet s. found shop;
  find_by_id = λ id s. some shop;
  build_approve_xdr = λ admin id s. (none, s);
  build_suspend_xdr = λ admin id s. (none, s);
  product_owner = λ id s. owned_by "v1";
  insert_product = λ id p s. (none, s);
  update_product_row = λ id owner change s. (some id, s);
  delete_product_row = λ id owner s. (true, s);
  vendor_loans = λ id s. some [];
  payments_of = λ ids s. some [];
  own_key = λ id owner s. some "secret";
  deactivate_key = λ id s. (true, (false, s.1));
  forget_record = λ hash s. (true, (s.0, false));
  forget_rate = λ id s. (true, s);
  forget_last_used = λ id s. (true, s);
}

abbrev key_row : Bool → ApiKeyRecord
key_row is_on = record { id = "k1"; permissions = []; is_active = is_on; expires_at = none }

abbrev keys : KeyEnv Store
keys = record {
  sha256 = λ key. key;
  now = λ s. 0;
  cached_record = λ hash s. if s.1 then hit (key_row true) else miss;
  store_record = λ hash r ttl s. (s.0, true);
  negative = λ hash s. miss;
  store_negative = λ hash ttl s. s;
  rate = λ id s. miss;
  store_rate = λ id n ttl s. s;
  ip_rate = λ ip s. miss;
  store_ip_rate = λ ip n ttl s. s;
  last_used = λ id s. hit true;
  store_last_used = λ id ttl s. s;
  find_key = λ hash s. some (key_row s.0);
  touch_key = λ id s. (true, s);
}

laws : KeyLaws keys vendors
laws = record {
  counter_keeps = λ hash ip n window s. refl;
  deactivated = λ id owner hash s r own done e. cc;
  record_deleted = λ hash s. refl;
  record_gone = λ hash s. refl;
  record_keeps = λ hash s. refl;
  rate_keeps = λ hash id s. (refl, refl);
  last_used_keeps = λ hash id s. (refl, refl);
}

abbrev request : KeyRequest
request = record { api_key = some "secret"; client_ip = "10.0.0.1"; required_permissions = [] }

-- Before the revocation the key is let through.
admitted_before : can_activate keys request (true, true) ≡ returns (key_row true) (true, true)
unfolding can_activate
admitted_before = refl

revoke_api_key-can_activate_example :
    can_activate keys request (false, false) ≢ returns (key_row true) (false, true)
unfolding revoke_api_key require_vendor forget_key
revoke_api_key-can_activate_example =
    revoke_api_key-can_activate keys vendors laws "GV" "k1" "secret" shop (true, true)
      (false, false) refl refl (λ e. cc) refl request (key_row true) (false, true) refl

abbrev change : ProductChange
change = record { name = some "Book"; price = none; category = none; description = none }

update_product-owned_example :
    (vendor : VendorRow) × (vendors.find_by_wallet "GV" (true, true) ≡ found vendor)
    × (vendors.product_owner "p1" (true, true) ≡ owned_by vendor.id)
    × (vendors.update_product_row "p1" vendor.id change (true, true) ≡ (some "p1", (true, true)))
unfolding update_product require_vendor require_owned_product
update_product-owned_example =
    update_product-owned vendors "GV" "p1" change (true, true) (true, true) "p1" refl

abbrev loans : List VendorLoan
loans =
    record { loan_id = "1"; user_wallet = "GA"; status = active }
    ∷ record { loan_id = "2"; user_wallet = "GA"; status = active }
    ∷ record { loan_id = "3"; user_wallet = "GB"; status = defaulted }
    ∷ []

abbrev loan_row : String → VendorLoanRow
loan_row id = record {
  id = id;
  loan_id = id;
  user_wallet = "GA";
  amount = some 5;
  loan_amount = some 4;
  remaining_balance = none;
  status = "active";
  next_payment_due = none;
  created_at = "2026-01-01";
}

abbrev loan_rows : List VendorLoanRow
loan_rows = loan_row "1" ∷ loan_row "2" ∷ []

-- A range that starts past the last row is not answered.
abbrev rows_from : ℤ → Option (List VendorLoanRow × Option ℕ)
rows_from (pos offset) =
    if ltb offset 2 then some (take 1 (drop offset loan_rows), some 2) else none
rows_from (negsuc n) = none

rows_from_lem :
    (offset : ℕ)
    → offset < 2
    → rows_from (pos offset) ≡ some (take 1 (drop offset loan_rows), some 2)
rows_from_lem offset h = let below : ltb offset 2 ≡ true = ground arith in rw below refl

abbrev lists : ListsEnv Store
lists = record {
  all_vendors = λ vendor_type s. none;
  vendor_by_id = λ id s. none;
  loans_range = λ vendor_id column asc range s. rows_from range.0;
  loan_ids = λ vendor_id s. none;
  payments_range = λ ids range s. none;
  api_keys = λ vendor_id s. none;
}

get_loans-all_pages_example :
    all_pages
      (page_items vendors lists "GV" (true, true) none none loan_rows shop 1)
      (total_pages_of (length loan_rows) 1)
    ≡ map map_loan_to_dto loan_rows
get_loans-all_pages_example =
    (get_loans-all_pages vendors lists "GV" (true, true) none none loan_rows shop 1 (omega arith)
      refl rows_from_lem).1
