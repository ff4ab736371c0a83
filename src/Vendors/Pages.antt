-- ===== src/Vendors/Pages.antt =====
-- That the pages of src/modules/vendors/vendors.service.ts make up the whole list.
use mathlib.Core.List.{map-append}
use step_fi_api.Common.{
  ℕ, zero, suc, ◌+◌, ◌-◌, ◌*◌, ◌<◌, ◌≡◌, refl, sym, ap, ◌∙◌, String, List, ◌++◌, map, Option, some,
  length, arith, returns,
}
use step_fi_api.Common.Int.{pos}
use step_fi_api.Common.Pages.{
  offset_of, total_pages_of, take, drop, all_pages, all_pages_lem, page_inside,
}
use step_fi_api.Vendors.{VendorRow, VendorsEnv, found}
use step_fi_api.Vendors.Service.{require_vendor}
use step_fi_api.Vendors.Lists.{
  VendorLoanRow, VendorLoanDto, ListsEnv, map_loan_to_dto, sort_column, is_asc, range_of, get_loans,
}

range_of-suc :
    (before limit : ℕ)
    → 0 < limit
    → range_of (suc before) limit ≡ (pos (before * limit), pos (before * limit + limit - 1))
unfolding offset_of
range_of-suc before limit h = ap (λ to. (pos (before * limit), to)) (ground arith)

map-all_pages :
    {A B : Type 0} (f : A → B) (page : ℕ → List A) (n : ℕ)
    → all_pages (λ p. map f (page p)) n ≡ map f (all_pages page n)
map-all_pages f page zero = refl
map-all_pages f page (suc n) =
    ap (λ l. l ++ map f (page n)) (map-all_pages f page n)
    ∙ sym (map-append f (all_pages page n) (page n))

module _ {S : Type 0} (env : VendorsEnv S) (lists : ListsEnv S) (wallet : String) (s : S)
    (sort order : Option String) (rows : List VendorLoanRow) (vendor : VendorRow) (limit : ℕ) where
  -- The items of the page after `before` others.
  abbrev pub page_items : ℕ → List VendorLoanDto
  page_items before = map map_loan_to_dto (take limit (drop (before * limit) rows))

  -- Let the loans of the caller's vendor be `rows` in the order that is asked for, and the query answer
  -- a range of offsets that starts inside the list with the rows in it and with the number of all of
  -- them; nothing is said of ranges past the end. For a limit that is not 0, each page from 1 up to
  -- the number of pages is answered, with its items and the same total and number of pages, and the
  -- items of these pages, one after the other, are the loans.
  pub get_loans-all_pages :
      0 < limit
      → env.find_by_wallet wallet s ≡ found vendor
      → ((offset : ℕ)
          → offset < length rows
          → lists.loans_range vendor.id
              (sort_column sort)
              (is_asc order)
              (pos offset, pos (offset + limit - 1))
              s
            ≡ some (take limit (drop offset rows), some (length rows)))
      → ((before : ℕ)
          → before < total_pages_of (length rows) limit
          → get_loans env lists wallet (suc before) limit sort order s
            ≡ returns
                (record {
                  items = page_items before;
                  total = length rows;
                  page = suc before;
                  limit = limit;
                  total_pages = total_pages_of (length rows) limit;
                })
                s)
        × (all_pages page_items (total_pages_of (length rows) limit) ≡ map map_loan_to_dto rows)
  unfolding get_loans require_vendor
  get_loans-all_pages some_limit found_vendor query = (
    λ before below.
        let ranged =
          ap (λ r. lists.loans_range vendor.id (sort_column sort) (is_asc order) r s)
            (range_of-suc before limit some_limit)
          ∙ query (before * limit) (page_inside before (length rows) limit some_limit below) in
        ground (arith, found_vendor, ranged),
    map-all_pages map_loan_to_dto (λ p. take limit (drop (p * limit) rows))
          (total_pages_of (length rows) limit)
        ∙ ap (map map_loan_to_dto) (all_pages_lem limit rows some_limit),
  )
