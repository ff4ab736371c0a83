-- ===== src/Reconciliation/Sync.antt =====
-- A loop that brings one entry of a table after the other to its wanted value: what it leaves behind.
use step_fi_api.Common.{
  ◌≡◌, ◌≢◌, refl, sym, ◌∙◌, subst, String, List, [], ◌∷◌, ◌++◌, arith, Act, returns, ◌>>=◌, done,
  All, >>=-eq-returns,
}
use step_fi_api.Reconciliation.{DriftItem, each}

-- The keys of the list differ.
abbrev pub Distinct : {T : Type 0} → (T → String) → List T → Type 0
Distinct key [] = Unit
Distinct key (x ∷ xs) = All (λ y. key x ≢ key y) xs × Distinct key xs

pub All-append :
    {A : Type 0} (P : A → Type 0) (xs ys : List A) → All P xs → All P ys → All P (xs ++ ys)
All-append P [] ys p q = q
All-append P (x ∷ xs) ys p q = (p.0, All-append P xs ys p.1 q)

pub All-pure : {A : Type 0} (P : A → Type 0) → ((x : A) → P x) → (xs : List A) → All P xs
All-pure P f [] = tt
All-pure P f (x ∷ xs) = (f x, All-pure P f xs)

-- `view k s` is what the table has under the key `k`; `step view` works on a snapshot of the table.
module _ {S E T V : Type 0} (key : T → String) (view : String → S → V)
    (step : V → T → Act S E (List DriftItem)) (Settled : T → V → Type 0)
    (settles : (x : T) (s t : S) (items : List DriftItem)
      → step (view (key x) s) x s ≡ returns items t
      → Settled x (view (key x) t))
    (keeps : (x : T) (k : String) (s t : S) (items : List DriftItem)
      → key x ≢ k
      → step (view (key x) s) x s ≡ returns items t
      → view k t ≡ view k s) where
  -- The loop over a snapshot.
  abbrev pub sync : (String → V) → List T → Act S E (List DriftItem)
  sync snapshot xs = each (λ x. step (snapshot (key x)) x) xs

  each_cons :
      (f : T → Act S E (List DriftItem)) (x : T) (xs : List T) (s t : S) (items : List DriftItem)
      → each f (x ∷ xs) s ≡ returns items t
      → (first : List DriftItem) × (rest : List DriftItem) × (u : S) × (f x s ≡ returns first u)
        × (each f xs u ≡ returns rest t)
        × (items ≡ first ++ rest)
  each_cons f x xs s t items h =
      let (first, u, one, more) =
        >>=-eq-returns (f x) (λ a. each f xs >>= (λ b. done (a ++ b))) s h in
      let (rest, v, two, end) = >>=-eq-returns (each f xs) (λ b. done (first ++ b)) u more in
      (first, rest, u, one, cc, cc)

  each_returns :
      (f : T → Act S E (List DriftItem)) (x : T) (xs : List T) (s : S) (a b : List DriftItem)
      → f x s ≡ returns a s
      → each f xs s ≡ returns b s
      → each f (x ∷ xs) s ≡ returns (a ++ b) s
  each_returns f x xs s a b one two = ground arith

  abbrev Agrees : (String → V) → S → T → Type 0
  Agrees snapshot s x = snapshot (key x) ≡ view (key x) s

  -- The snapshot still holds for the other keys after a step.
  Agrees-later :
      (snapshot : String → V) (x : T) (xs : List T) (s t : S) (items : List DriftItem)
      → step (view (key x) s) x s ≡ returns items t
      → All (λ y. key x ≢ key y) xs
      → All (Agrees snapshot s) xs
      → All (Agrees snapshot t) xs
  Agrees-later snapshot x [] s t items h other all = tt
  Agrees-later snapshot x (y ∷ ys) s t items h other all = (
    all.0 ∙ sym (keeps x (key y) s t items other.0 h),
    Agrees-later snapshot x ys s t items h other.1 all.1,
  )

  sync_keeps :
      (snapshot : String → V) (xs : List T) (k : String) (s t : S) (items : List DriftItem)
      → Distinct key xs
      → All (Agrees snapshot s) xs
      → All (λ x. k ≢ key x) xs
      → sync snapshot xs s ≡ returns items t
      → view k t ≡ view k s
  sync_keeps snapshot [] k s t items d same other h = cc
  sync_keeps snapshot (x ∷ xs) k s t items d same other h =
      let (first, rest, u, one, more, _) =
        each_cons (λ y. step (snapshot (key y)) y) x xs s t items h in
      let now = subst (λ v. step v x s ≡ returns first u) same.0 one in
      sync_keeps snapshot xs k u t rest d.1 (Agrees-later snapshot x xs s u first now d.0 same.1)
        other.1 more
      ∙ keeps x k s u first (λ e. other.0 (sym e)) now

  -- After a loop over distinct keys every entry is settled.
  pub sync-Settled :
      (snapshot : String → V) (xs : List T) (s t : S) (items : List DriftItem)
      → Distinct key xs
      → All (Agrees snapshot s) xs
      → sync snapshot xs s ≡ returns items t
      → All (λ x. Settled x (view (key x) t)) xs
  sync-Settled snapshot [] s t items d same h = tt
  sync-Settled snapshot (x ∷ xs) s t items d same h =
      let (first, rest, u, one, more, _) =
        each_cons (λ y. step (snapshot (key y)) y) x xs s t items h in
      let now = subst (λ v. step v x s ≡ returns first u) same.0 one in
      let later = Agrees-later snapshot x xs s u first now d.0 same.1 in
      (
        subst (Settled x) (sym (sync_keeps snapshot xs (key x) u t rest d.1 later d.0 more))
            (settles x s u first now),
        sync-Settled snapshot xs u t rest d.1 later more,
      )

  module _ (Q : DriftItem → Type 0)
      (unrepaired : (x : T) (v : V) (s : S)
        → Settled x v
        → (items : List DriftItem) × (step v x s ≡ returns items s) × All Q items) where
    -- A loop over settled entries writes nothing, and its items are as the steps' items.
    pub sync-again :
        (snapshot : String → V) (xs : List T) (s : S)
        → All (λ x. Settled x (snapshot (key x))) xs
        → (items : List DriftItem) × (sync snapshot xs s ≡ returns items s) × All Q items
    sync-again snapshot [] s all = ([], refl, tt)
    sync-again snapshot (x ∷ xs) s all =
        let (first, one, fine) = unrepaired x (snapshot (key x)) s all.0 in
        let (rest, two, fine') = sync-again snapshot xs s all.1 in
        (
          first ++ rest,
          each_returns (λ y. step (snapshot (key y)) y) x xs s first rest one two,
          All-append Q first rest fine fine',
        )
