-- ===== src/Common/Actions.antt =====
-- Handlers as explicit state passing: a handler takes the state of the outside world and ends by
-- returning or by throwing. What it wrote before it threw stays written.
use mathlib.Core.Path.{◌≡◌, refl, subst}
use mathlib.Core.Bool.{Bool, true, false}
use mathlib.Core.Option.{Option, none, some}

pub data Run (S E A : Type 0) : Type 0 where
  returns : A → S → Run S E A
  throws : E → S → Run S E A

abbrev pub Act : Type 0 → Type 0 → Type 0 → Type 0
Act S E A = S → Run S E A

infixl 5 ◌>>=◌ ◌>>◌
abbrev pub ◌>>=◌ : {S E A B : Type 0} → Act S E A → (A → Act S E B) → Act S E B
◌>>=◌ m f s = elim (m s) [ returns a t ↦ f a t | throws e t ↦ throws e t ]

abbrev pub ◌>>◌ : {S E B : Type 0} → Act S E (Unit {0}) → Act S E B → Act S E B
m >> k = m >>= λ _. k

abbrev pub done : {S E A : Type 0} → A → Act S E A
done a s = returns a s

abbrev pub throw : {S E A : Type 0} → E → Act S E A
throw e s = throws e s

-- `if (!ok) throw e`
abbrev pub require : {S E : Type 0} → Bool → E → Act S E (Unit {0})
require true e s = returns tt s
require false e s = throws e s

-- A read of the world that changes nothing.
abbrev pub read : {S E A : Type 0} → (S → A) → Act S E A
read f s = returns (f s) s

-- `if (!value) throw e`
abbrev pub or_throw : {S E A : Type 0} → Option A → E → Act S E A
or_throw none e s = throws e s
or_throw (some a) e s = returns a s

abbrev pub final : {S E A : Type 0} → Run S E A → S
final (returns a s) = s
final (throws e s) = s

-- A successful run in two parts.
pub >>=-eq-returns :
    {S E A B : Type 0} (m : Act S E A) (f : A → Act S E B) (s : S) {b : B} {u : S}
    → (m >>= f) s ≡ returns b u
    → (a : A) × (t : S) × (m s ≡ returns a t) × (f a t ≡ returns b u)
>>=-eq-returns {S} {E} {A} {B} m f s {b} {u} h = go (m s) refl h
  where
    go :
        (r : Run S E A)
        → m s ≡ r
        → elim r [ returns a t ↦ f a t | throws e t ↦ throws e t ] ≡ returns b u
        → (a : A) × (t : S) × (m s ≡ returns a t) × (f a t ≡ returns b u)
    go (returns a t) e h' = (a, t, e, h')
    go (throws x t) e h' = cc

-- A call that changes the world and gives an answer, as an action that does not throw.
abbrev pub call : {S E A : Type 0} → (S → A × S) → Act S E A
call f s = let (a, t) = f s in returns a t

-- What holds at the end of a run: `P` of the answer and the state, or `Q` of the error and the state.
abbrev pub Ends : {S E A : Type 0} → (A → S → Type 0) → (E → S → Type 0) → Run S E A → Type 0
Ends P Q (returns a s) = P a s
Ends P Q (throws e s) = Q e s

pub Ends-throws :
    {S E A : Type 0} (P : A → S → Type 0) (Q : E → S → Type 0) {r : Run S E A} {e : E} {t : S}
    → r ≡ throws e t
    → Ends P Q r
    → Q e t
Ends-throws P Q h x = subst (Ends P Q) h x

pub Ends-returns :
    {S E A : Type 0} (P : A → S → Type 0) (Q : E → S → Type 0) {r : Run S E A} {a : A} {t : S}
    → r ≡ returns a t
    → Ends P Q r
    → P a t
Ends-returns P Q h x = subst (Ends P Q) h x

-- The rule for a bind: what the first part ends with starts the second.
pub Ends->>= :
    {S E A B : Type 0} (P : A → S → Type 0) (R : B → S → Type 0) (Q : E → S → Type 0)
    (m : Act S E A) (f : A → Act S E B) (s : S)
    → Ends P Q (m s)
    → ((a : A) (t : S) → P a t → Ends R Q (f a t))
    → Ends R Q ((m >>= f) s)
Ends->>= {S} {E} {A} {B} P R Q m f s first later = go (m s) first
  where
    go :
        (r : Run S E A)
        → Ends P Q r
        → Ends R Q (elim r [ returns a t ↦ f a t | throws e t ↦ throws e t ])
    go (returns a t) h = later a t h
    go (throws e t) h = h

-- What holds of a run in two parts: `Q` of the later run from each way the first part returns, and
-- of each way it throws.
pub >>=-cases :
    {S E A B : Type 0} (Q : Run S E B → Type 0) (m : Act S E A) (f : A → Act S E B) (s : S)
    → ((a : A) (t : S) → m s ≡ returns a t → Q (f a t))
    → ((e : E) (t : S) → m s ≡ throws e t → Q (throws e t))
    → Q ((m >>= f) s)
>>=-cases {S} {E} {A} {B} Q m f s later fails = go (m s) refl
  where
    go : (r : Run S E A) → m s ≡ r → Q (elim r [ returns a t ↦ f a t | throws e t ↦ throws e t ])
    go (returns a t) h = later a t h
    go (throws e t) h = fails e t h

-- A write that has to succeed before its answer is given.
pub call-require :
    {S E A : Type 0} (m : S → Bool × S) (e : E) (answer : A) (s : S) {a : A} {t : S}
    → (call m >>= (λ ok. require ok e >> done answer)) s ≡ returns a t
    → (m s ≡ (true, t)) × (a ≡ answer)
call-require {S} {E} {A} m e answer s {a} {t} h = go (m s) refl h
  where
    go :
        (r : Bool × S)
        → m s ≡ r
        → (require r.0 e >> done answer) r.1 ≡ returns a t
        → (m s ≡ (true, t)) × (a ≡ answer)
    go (true, u) q h' = (cc, cc)
    go (false, u) q h' = cc
