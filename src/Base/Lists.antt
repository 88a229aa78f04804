-- ===== src/Base/Lists.antt =====
-- Lists measured and indexed by native numbers, and predicates on all items.
use Prim.Native.Nat.{ℕ, zero, suc, ◌+◌, ◌<◌}
use Prim.Native.String.{String}
use mathlib.Core.Path.{◌≡◌, refl, sym, ap, subst, ◌∙◌}
use mathlib.Core.Logic.{◌≢◌, ◌⊎◌, inl, inr}
use mathlib.Core.Bool.{Bool, true, false, ◌&&◌, ◌||◌}
use mathlib.Core.List.{List, [], ◌∷◌, ◌++◌}
use mathlib.Core.Option.{Option, none, some}
use native.Mathlib.Omega.{arith}
use text.Mathlib.Text.{◌==◌}

pub option_inj {ℓ} : {A : Type ℓ} {a b : A} → some a ≡ some b → a ≡ b
option_inj e = cc

module _ {ℓ} {A : Type ℓ} where
  abbrev pub length : List A → ℕ
  length [] = 0
  length (x ∷ xs) = suc (length xs)

  abbrev pub get_elem? : List A → ℕ → Option A
  get_elem? [] i = none
  get_elem? (x ∷ xs) zero = some x
  get_elem? (x ∷ xs) (suc i) = get_elem? xs i

  -- A write out of bounds changes nothing.
  abbrev pub set : List A → ℕ → A → List A
  set [] i v = []
  set (x ∷ xs) zero v = v ∷ xs
  set (x ∷ xs) (suc i) v = x ∷ set xs i v

  abbrev pub all : (A → Bool) → List A → Bool
  all p [] = true
  all p (x ∷ xs) = p x && all p xs

  -- Each item counted by f.
  abbrev pub total : (A → ℕ) → List A → ℕ
  total f [] = 0
  total f (x ∷ xs) = f x + total f xs

  pub total-set :
      (f : A → ℕ) (xs : List A) (i : ℕ) (v w : A)
      → get_elem? xs i ≡ some v
      → total f (set xs i w) + f v ≡ total f xs + f w
  total-set f [] i v w e = cc
  total-set f (x ∷ xs) zero v w e = omega (arith, ap f (option_inj e))
  total-set f (x ∷ xs) (suc i) v w e = omega (arith, total-set f xs i v w e)

  pub get_elem?-set_cases :
      (xs : List A) (i j : ℕ) (v w : A)
      → get_elem? (set xs j v) i ≡ some w
      → ((i ≡ j) × (v ≡ w)) ⊎ ((i ≢ j) × (get_elem? xs i ≡ some w))
  get_elem?-set_cases [] i j v w h = cc
  get_elem?-set_cases (x ∷ xs) zero zero v w h = inl (refl, option_inj h)
  get_elem?-set_cases (x ∷ xs) zero (suc j) v w h = inr ((λ e. omega arith), h)
  get_elem?-set_cases (x ∷ xs) (suc i) zero v w h = inr ((λ e. omega arith), h)
  get_elem?-set_cases (x ∷ xs) (suc i) (suc j) v w h = elim (get_elem?-set_cases xs i j v w h) [
    | inl (e, p) ↦ inl (ap suc e, p)
    | inr (e, p) ↦ inr ((λ q. e (omega arith)), p)
  ]

  pub length-append : (xs ys : List A) → length (xs ++ ys) ≡ length xs + length ys
  length-append [] ys = omega arith
  length-append (x ∷ xs) ys = omega (arith, length-append xs ys)

  pub get_elem?-set_self :
      (xs : List A) (i : ℕ) (v w : A) → get_elem? xs i ≡ some w → get_elem? (set xs i v) i ≡ some v
  get_elem?-set_self [] i v w h = cc
  get_elem?-set_self (x ∷ xs) zero v w h = refl
  get_elem?-set_self (x ∷ xs) (suc i) v w h = get_elem?-set_self xs i v w h

  pub get_elem?-set_ne :
      (xs : List A) (i j : ℕ) (v : A) → i ≢ j → get_elem? (set xs i v) j ≡ get_elem? xs j
  get_elem?-set_ne [] i j v h = refl
  get_elem?-set_ne (x ∷ xs) zero zero v h = absurd (h refl)
  get_elem?-set_ne (x ∷ xs) zero (suc j) v h = refl
  get_elem?-set_ne (x ∷ xs) (suc i) zero v h = refl
  get_elem?-set_ne (x ∷ xs) (suc i) (suc j) v h = get_elem?-set_ne xs i j v (λ e. h (ap suc e))

  pub get_elem?-some : (xs : List A) (i : ℕ) → i < length xs → (v : A) × (get_elem? xs i ≡ some v)
  get_elem?-some [] i h = absurd (omega arith)
  get_elem?-some (x ∷ xs) zero h = (x, refl)
  get_elem?-some (x ∷ xs) (suc i) h = get_elem?-some xs i (omega arith)

  pub length-set : (xs : List A) (i : ℕ) (v : A) → length (set xs i v) ≡ length xs
  length-set [] i v = refl
  length-set (x ∷ xs) zero v = refl
  length-set (x ∷ xs) (suc i) v = ap suc (length-set xs i v)

  -- The item that an append puts behind a list, and those before it.
  pub get_elem?-append_last : (xs : List A) (v : A) → get_elem? (xs ++ v ∷ []) (length xs) ≡ some v
  get_elem?-append_last [] v = refl
  get_elem?-append_last (x ∷ xs) v = get_elem?-append_last xs v

  pub get_elem?-append_left :
      (xs ys : List A) (i : ℕ) (w : A) → get_elem? xs i ≡ some w → get_elem? (xs ++ ys) i ≡ some w
  get_elem?-append_left [] ys i w h = cc
  get_elem?-append_left (x ∷ xs) ys zero w h = h
  get_elem?-append_left (x ∷ xs) ys (suc i) w h = get_elem?-append_left xs ys i w h

  pub get_elem?-lt : (xs : List A) (i : ℕ) (w : A) → get_elem? xs i ≡ some w → i < length xs
  get_elem?-lt [] i w h = cc
  get_elem?-lt (x ∷ xs) zero w h = omega arith
  get_elem?-lt (x ∷ xs) (suc i) w h = omega (arith, get_elem?-lt xs i w h)

module _ {ℓ κ} {A : Type ℓ} (P : A → Type κ) where
  abbrev pub All : List A → Type κ
  All [] = Unit
  All (x ∷ xs) = P x × All xs

  pub All-append : (xs ys : List A) → All xs → All ys → All (xs ++ ys)
  All-append [] ys h k = k
  All-append (x ∷ xs) ys h k = (h.0, All-append xs ys h.1 k)

  pub All-set : (xs : List A) (i : ℕ) (v : A) → All xs → P v → All (set xs i v)
  All-set [] i v h p = tt
  All-set (x ∷ xs) zero v h p = (p, h.1)
  All-set (x ∷ xs) (suc i) v h p = (h.0, All-set xs i v h.1 p)

  pub All-get_elem? : (xs : List A) (i : ℕ) (v : A) → All xs → get_elem? xs i ≡ some v → P v
  All-get_elem? [] i v h e = cc
  All-get_elem? (x ∷ xs) zero v h e = subst P (option_inj e) h.0
  All-get_elem? (x ∷ xs) (suc i) v h e = All-get_elem? xs i v h.1 e

  pub All-pointwise : (xs : List A) → ((i : ℕ) (v : A) → get_elem? xs i ≡ some v → P v) → All xs
  All-pointwise [] h = tt
  All-pointwise (x ∷ xs) h = (h 0 x refl, All-pointwise xs (λ i. h (suc i)))

  -- A write at one place keeps what holds at another, and at its own where the new item has it.
  pub get_elem?-set_keeps :
      (xs : List A) (i j : ℕ) (v w y : A)
      → get_elem? xs i ≡ some v
      → get_elem? xs j ≡ some w
      → P w
      → (P v → P y)
      → (z : A) × ((get_elem? (set xs i y) j ≡ some z) × P z)
  get_elem?-set_keeps [] i j v w y h k p f = cc
  get_elem?-set_keeps (x ∷ xs) zero zero v w y h k p f =
      (y, (refl, f (subst P (option_inj (sym k ∙ h)) p)))
  get_elem?-set_keeps (x ∷ xs) zero (suc j) v w y h k p f = (w, (k, p))
  get_elem?-set_keeps (x ∷ xs) (suc i) zero v w y h k p f = (w, (k, p))
  get_elem?-set_keeps (x ∷ xs) (suc i) (suc j) v w y h k p f =
      get_elem?-set_keeps xs i j v w y h k p f

module _ {ℓ κ μ} {A : Type ℓ} {P : A → Type κ} {Q : A → Type μ} where
  pub All-map : (xs : List A) → ((x : A) → P x → Q x) → All P xs → All Q xs
  All-map [] f h = tt
  All-map (x ∷ xs) f h = (f x h.0, All-map xs f h.1)

-- No item twice.
abbrev pub Distinct {ℓ} : {A : Type ℓ} → List A → Type ℓ
Distinct [] = Unit
Distinct (x ∷ xs) = All (λ y. x ≢ y) xs × Distinct xs

-- A set of texts as the list of its members.
abbrev pub contains : String → List String → Bool
contains s [] = false
contains s (t ∷ ts) = t == s || contains s ts
