-- ===== src/Vendors/Products.antt =====
-- Who may change a product, and what the dashboard's numbers promise.
use native.Mathlib.Nat.{div-lt_iff_lt-mul}
use step_fi_api.Common.{
  ℕ, zero, suc, ◌+◌, ◌*◌, ◌≤◌, ◌≡◌, ◌≢◌, refl, ap, ◌∙◌, inl, inr, Bool-cases, call, or_throw, ◌>>=◌,
  ◌>>◌, String, false, List, [], ◌∷◌, Option, none, some, str_eq, eq_iff, length, count_of,
  count_of-le-length, arith, returns, throws,
}
use step_fi_api.Vendors.{
  VendorRow, ProductChange, VendorLoan, LoanState, active, defaulted, other, OwnerReply, owned_by,
  owner_error, no_product, FindReply, found, not_there, find_error, product_forbidden,
  product_update_failed, VendorsEnv, is_defaulted_loan, active_wallets, rate_of, dashboard_of,
}
use step_fi_api.Vendors.Service.{
  found_or_throw, require_vendor, require_owned_product, update_product, delete_product,
}

call-or_throw :
    {S E A : Type 0} (m : S → Option A × S) (error : E) (s : S) {answer : A} {t : S}
    → (call m >>= (λ reply. or_throw reply error)) s ≡ returns answer t
    → m s ≡ (some answer, t)
call-or_throw {S = S} {A = A} m error s {answer} {t} h = go (m s) refl h
  where
    go :
        (r : Option A × S)
        → m s ≡ r
        → or_throw r.0 error r.1 ≡ returns answer t
        → m s ≡ (some answer, t)
    go (none, u) e h' = cc
    go (some x, u) e h' = cc

module _ {S : Type 0} (env : VendorsEnv S) (wallet product_id : String) where
  -- A product is changed only by the vendor that owns it: an update that answers has found the
  -- caller's vendor, that the product is this vendor's, and its write was for this product and this
  -- vendor and gave the answer.
  pub update_product-owned :
      (change : ProductChange) (s t : S) (answer : String)
      → update_product env wallet product_id change s ≡ returns answer t
      → (vendor : VendorRow) × (env.find_by_wallet wallet s ≡ found vendor)
        × (env.product_owner product_id s ≡ owned_by vendor.id)
        × (env.update_product_row product_id vendor.id change s ≡ (some answer, t))
  unfolding update_product require_vendor require_owned_product
  update_product-owned change s t answer h =
      go (env.find_by_wallet wallet s) refl (env.product_owner product_id s) refl h
    where
      go :
          (reply : FindReply)
          → env.find_by_wallet wallet s ≡ reply
          → (owner : OwnerReply) → env.product_owner product_id s ≡ owner
          → (found_or_throw env reply >>= (λ vendor.
                require_owned_product env vendor.id product_id >> (do
                  stored ← call (env.update_product_row product_id vendor.id change)
                  or_throw stored product_update_failed)))
              s
            ≡ returns answer t
          → (vendor : VendorRow) × (env.find_by_wallet wallet s ≡ found vendor)
            × (env.product_owner product_id s ≡ owned_by vendor.id)
            × (env.update_product_row product_id vendor.id change s ≡ (some answer, t))
      go not_there e owner o h' = cc
      go find_error e owner o h' = cc
      go (found v) e owner_error o h' = ground arith
      go (found v) e no_product o h' = ground arith
      go (found v) e (owned_by id) o h' = elim (Bool-cases (str_eq id v.id)) [
        | inl own ↦
            let stored =
              call-or_throw (env.update_product_row product_id v.id change) product_update_failed s
                (ground (arith, own, o, h')) in
            (v, e, o ∙ ap owned_by ((eq_iff id v.id).0 own), stored)
        | inr foreign ↦ ground arith
      ]

  -- The product of another vendor can be neither changed nor deleted: both requests are refused with
  -- the same error, and nothing is written.
  pub foreign_product_kept :
      (change : ProductChange) (s : S) (vendor : VendorRow) (owner : String)
      → env.find_by_wallet wallet s ≡ found vendor
      → env.product_owner product_id s ≡ owned_by owner
      → owner ≢ vendor.id
      → (update_product env wallet product_id change s ≡ throws product_forbidden s)
        × (delete_product env wallet product_id s ≡ throws product_forbidden s)
  unfolding update_product delete_product require_vendor require_owned_product
  foreign_product_kept change s vendor owner v o ne =
      let foreign : str_eq owner vendor.id ≡ false = ground (arith, eq_iff owner vendor.id) in
      (ground arith, ground arith)

borrowers_bound :
    (loans : List VendorLoan)
    → length (active_wallets loans) + count_of is_defaulted_loan loans ≤ length loans
borrowers_bound [] = omega arith
borrowers_bound (l ∷ ls) = go l.status refl (borrowers_bound ls)
  where
    go :
        (state : LoanState)
        → l.status ≡ state
        → length (active_wallets ls) + count_of is_defaulted_loan ls ≤ length ls
        → length (active_wallets (l ∷ ls)) + count_of is_defaulted_loan (l ∷ ls) ≤ suc (length ls)
    go active e h = ground arith
    go defaulted e h = ground arith
    go other e h = ground arith

rate_bound : (count total : ℕ) → count ≤ total → rate_of count total ≤ 10_000
rate_bound count zero h = omega arith
rate_bound count (suc n) h =
    let below =
      (div-lt_iff_lt-mul {k = 2 * suc n} {x = 2 * (count * 10_000) + suc n} {y = 10_001}
          (omega arith)).1
        (omega (arith, h)) in
    grind (arith, below)

-- The dashboard of any loans: the borrowers with a running loan and the defaulted loans are together
-- at most the loans, and the default rate is at most 100%.
pub dashboard_of_bounds :
    (loans : List VendorLoan) (received : ℕ)
    → let d = dashboard_of loans received in
      (d.active_borrowers + count_of is_defaulted_loan loans ≤ d.total_loans_funded)
      × (d.default_rate ≤ 10_000)
unfolding dashboard_of
dashboard_of_bounds loans received = (
  borrowers_bound loans,
  rate_bound (count_of is_defaulted_loan loans) (length loans)
      (count_of-le-length is_defaulted_loan loans),
)
