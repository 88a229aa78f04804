-- ===== src/Base/Results.antt =====
-- Go's `(T, error)` pair, of which one half is ever set, with its chain of early returns.
use Prim.Native.String.{String}
use native.Mathlib.Omega.{arith}
use text.Mathlib.Text.{◌==◌}
use text.Mathlib.TextEquality.{eq_iff}
use mathlib.Core.Bool.{Bool, not, true, false}
use mathlib.Core.Path.{◌≡◌, refl}
use mathlib.Core.Logic.{◌≢◌, ◌↔◌, ◌⊎◌, inl, inr}

pub data Result {ℓ κ} (E : Type ℓ) (A : Type κ) : Type (ℓ ⊔ κ) where
  ok : A → Result E A
  err : E → Result E A

infixl 5 ◌>>=◌ ◌>>◌
abbrev pub ◌>>=◌ {ℓ κ μ} :
    {E : Type ℓ} {A : Type κ} {B : Type μ} → Result E A → (A → Result E B) → Result E B
ok a >>= f = f a
err e >>= f = err e

abbrev pub ◌>>◌ {ℓ κ} : {E : Type ℓ} {B : Type κ} → Result E (Unit {0}) → Result E B → Result E B
m >> k = m >>= λ _. k

-- `if err != nil { return wrap(err) }`.
abbrev pub wrap_err {ℓ κ μ} :
    {E : Type ℓ} {F : Type κ} {A : Type μ} → (E → F) → Result E A → Result F A
wrap_err f (ok a) = ok a
wrap_err f (err e) = err (f e)

pub Result-cases {ℓ κ} :
    {E : Type ℓ} {A : Type κ} (r : Result E A) → ((a : A) × (r ≡ ok a)) ⊎ ((e : E) × (r ≡ err e))
Result-cases (ok a) = inl (a, refl)
Result-cases (err e) = inr (e, refl)

-- A check in front of the rest, and the checks that two equivalences describe.
pub then_iff {ℓ κ μ} :
    {E : Type ℓ} {P : Type κ} {Q : Type μ} (m k : Result E (Unit {0}))
    → (m ≡ ok tt) ↔ P
    → (k ≡ ok tt) ↔ Q
    → ((m >> k) ≡ ok tt) ↔ (P × Q)
then_iff (ok tt) k (f, g) (h, j) = ((λ e. (f refl, h e)), λ pq. j pq.1)
then_iff (err e) k (f, g) (h, j) = ((λ e. cc), λ pq. cc (g pq.0))

-- A chain that succeeds.
pub bind_ok {ℓ κ μ} :
    {E : Type ℓ} {A : Type κ} {B : Type μ} (m : Result E A) (k : A → Result E B) (b : B)
    → (m >>= k) ≡ ok b
    → (a : A) × ((m ≡ ok a) × (k a ≡ ok b))
bind_ok (ok a) k b h = (a, (refl, h))
bind_ok (err e) k b h = cc

-- A guard: the error where the test fails.
abbrev pub require {ℓ} : {E : Type ℓ} → Bool → E → Result E (Unit {0})
require true e = ok tt
require false e = err e

pub require_iff {ℓ} : {E : Type ℓ} (b : Bool) (e : E) → (require b e ≡ ok tt) ↔ (b ≡ true)
require_iff true e = ((λ _. refl), λ _. refl)
require_iff false e = ((λ h. cc), λ h. cc)

pub not_empty_iff {ℓ} :
    {E : Type ℓ} (s : String) (e : E) → (require (not (s == "")) e ≡ ok tt) ↔ (s ≢ "")
not_empty_iff s e =
    let (to, from) = require_iff (not (s == "")) e in
    ((λ h p. ground (arith, eq_iff s "", to)), λ h. from (ground (arith, eq_iff s "")))

pub ok_inj {ℓ κ} : {E : Type ℓ} {A : Type κ} {a b : A} → ◌≡◌ {A = Result E A} (ok a) (ok b) → a ≡ b
ok_inj h = ground arith
