-- ===== src/Common/Pages.antt =====
-- Pages of a list: the rows from an offset on, and how the pages make up the list.
use native.Mathlib.Nat.{lt-div-mul-add, div-mul-le_self, mul-le-mul_right, zero-mul, suc-mul}
use Prim.Native.Nat.{ℕ, zero, suc, ◌+◌, ◌-◌, ◌*◌, ◌/◌, ◌≤◌, ◌<◌}
use mathlib.Core.Path.{◌≡◌, refl, sym, ap, ◌∙◌, subst}
use mathlib.Core.Bool.{false}
use mathlib.Core.List.{List, [], ◌∷◌, ◌++◌}
use native.Mathlib.Omega.{arith}
use step_fi_api.Common.Lists.{length}
use step_fi_api.Common.Int.{ℤ, pos, negsuc}
use step_fi_api.Common.Tests.{◌==◌, if◌then◌else◌}

-- `offset` and `offset + limit - 1` for a page that is a natural number.
unfoldable pub offset_of : ℕ → ℕ → ℤ
offset_of zero limit = if limit == 0 then pos 0 else negsuc (limit - 1)
offset_of (suc before) limit = pos (before * limit)

-- `limit > 0 ? Math.ceil(total / limit) : 0`
unfoldable pub total_pages_of : ℕ → ℕ → ℕ
total_pages_of total limit = if limit == 0 then 0 else (total + limit - 1) / limit

module _ {ℓ} {A : Type ℓ} where
  abbrev pub take : ℕ → List A → List A
  take zero xs = []
  take (suc n) [] = []
  take (suc n) (x ∷ xs) = x ∷ take n xs

  abbrev pub drop : ℕ → List A → List A
  drop zero xs = xs
  drop (suc n) [] = []
  drop (suc n) (x ∷ xs) = drop n xs

  -- The rows of the pages below `n`, one after the other.
  abbrev pub all_pages : (ℕ → List A) → ℕ → List A
  all_pages page zero = []
  all_pages page (suc n) = all_pages page n ++ page n

  take-add : (a b c : ℕ) (xs : List A) → c ≡ a + b → take a xs ++ take b (drop a xs) ≡ take c xs
  take-add zero b c xs e = ap (λ n. take n xs) (omega arith)
  take-add (suc a) b zero xs e = absurd (omega arith)
  take-add (suc a) zero (suc c) [] e = refl
  take-add (suc a) (suc b) (suc c) [] e = refl
  take-add (suc a) b (suc c) (x ∷ xs) e = ap (λ l. x ∷ l) (take-add a b c xs (omega arith))

  take_all : (n : ℕ) (xs : List A) → length xs ≤ n → take n xs ≡ xs
  take_all zero [] h = refl
  take_all zero (x ∷ xs) h = absurd (omega arith)
  take_all (suc n) [] h = refl
  take_all (suc n) (x ∷ xs) h = ap (λ l. x ∷ l) (take_all n xs (omega arith))

  all_pages-take :
      (limit n : ℕ) (xs : List A)
      → all_pages (λ p. take limit (drop (p * limit) xs)) n ≡ take (n * limit) xs
  all_pages-take limit zero xs = ap (λ m. take m xs) (sym (zero-mul limit))
  all_pages-take limit (suc n) xs =
      ap (λ l. l ++ take limit (drop (n * limit) xs)) (all_pages-take limit n xs)
      ∙ take-add (n * limit) limit (suc n * limit) xs (suc-mul n limit)

  -- The pages of a list make up the list.
  pub all_pages_lem :
      (limit : ℕ) (xs : List A)
      → 0 < limit
      → all_pages (λ p. take limit (drop (p * limit) xs)) (total_pages_of (length xs) limit) ≡ xs
  unfolding total_pages_of
  all_pages_lem limit xs h =
      let some_limit : (limit == 0) ≡ false = ground arith in
      let n = (length xs + limit - 1) / limit in
      let below : length xs + limit - 1 < n * limit + limit =
        lt-div-mul-add {a = length xs + limit - 1} {b = limit} h in
      rw some_limit (all_pages-take limit n xs ∙ take_all (n * limit) xs (omega (arith, h, below)))

-- A page below the number of pages starts inside the list.
pub page_inside :
    (before total limit : ℕ)
    → 0 < limit
    → before < total_pages_of total limit
    → before * limit < total
unfolding total_pages_of
page_inside before total limit h below =
    let some_limit : (limit == 0) ≡ false = ground arith in
    let n = (total + limit - 1) / limit in
    let few : suc before ≤ n = subst (λ b. before < (if b then 0 else n)) some_limit below in
    let full : n * limit ≤ total + limit - 1 = div-mul-le_self (total + limit - 1) limit in
    let next = mul-le-mul_right limit few in
    let one_more = suc-mul before limit in omega (arith, full, next, one_more, h)
