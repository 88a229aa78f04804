-- ===== src/Bridge/RequestId/Digits.antt =====
-- Texts of digits, read back: %d and hexadecimal are injective, and neither is taken for the other.
use Prim.Native.Char.{Char, code}
use Prim.Native.Nat.{◌/◌, ◌-◌}
use Prim.Native.String.append
use native.Mathlib.Nat.{pow-suc}
use criteria_go_adapter_sdk.Base.{
  ℕ, zero, suc, ◌+◌, ◌*◌, ◌%◌, ◌^◌, ◌<◌, String, ◌<>◌, ◌≡◌, ◌≢◌, refl, sym, ap, subst, ◌∙◌, [], ◌∷◌,
  All, if◌then◌else◌, num_eq, true, false, ltb, Bool, not, ◌&&◌, inl, inr, arith, Bool-cases,
}
use criteria_go_adapter_sdk.Wire.{Bytes}
use criteria_go_adapter_sdk.Bridge.RequestId.{digit, encode_to_string, emit_digits, format_uint}

-- The value of a digit.
abbrev pub value : Char → ℕ
value c = if ltb (code c) b'a' then code c - b'0' else code c - b'a' + 10

num_eq-≡ : (m n : ℕ) → num_eq m n ≡ true → m ≡ n
num_eq-≡ m n h = ground arith

not-true : (b : Bool) → not b ≡ true → b ≡ false
not-true b h = ground arith

true-ne-false : true ≢ false
true-ne-false e = ground arith

and-left : (a b : Bool) → (a && b) ≡ true → a ≡ true
and-left a b h = ground arith

and-right : (a b : Bool) → (a && b) ≡ true → b ≡ true
and-right a b h = ground arith

abbrev all_below : ℕ → (ℕ → Bool) → Bool
all_below zero p = true
all_below (suc k) p = p k && all_below k p

all_below-lt : (k n : ℕ) (p : ℕ → Bool) → all_below k p ≡ true → n < k → p n ≡ true
all_below-lt zero n p h l = absurd (omega arith)
all_below-lt (suc k) n p h l = elim (Bool-cases (num_eq n k)) [
  | inl e ↦ subst (λ m. p m ≡ true) (sym (num_eq-≡ n k e)) (and-left (p k) (all_below k p) h)
  | inr e ↦ all_below-lt k n p (and-right (p k) (all_below k p) h) (ground arith)
]

value-digit : (n : ℕ) → n < 16 → value (digit n) ≡ n
value-digit n h = num_eq-≡ _ n (all_below-lt 16 n (λ m. num_eq (value (digit m)) m) refl h)

-- The l of fallback is not a digit.
digit-ne-l : (n : ℕ) → n < 16 → num_eq (code (digit n)) b'l' ≡ false
digit-ne-l n h = not-true _ (all_below-lt 16 n (λ m. not (num_eq (code (digit m)) b'l')) refl h)

-- Text by its digits, read back.
abbrev read : String → ℕ → ℕ
read String.[] n = n
read (String.◌∷◌ c s) n = read s (n * 10 + value c)

tenth-lt : (k n : ℕ) → n < 10 ^ suc k → n / 10 < 10 ^ k
tenth-lt k n h = let b = subst (λ p. n < p) (pow-suc 10 k) h in omega (arith, b)

read-emit_digits : (k n : ℕ) (out : String) → n < 10 ^ k → read (emit_digits k n out) 0 ≡ read out n
unfolding emit_digits
read-emit_digits zero n out h = ap (read out) (omega (arith, h))
read-emit_digits (suc k) n out h =
    let rest = emit_digits k (n / 10) (String.◌∷◌ (digit (n % 10)) out) in
    elim (Bool-cases (num_eq n 0)) [
      | inl e ↦ ap (λ b. read (if b then out else rest) 0) e ∙ ap (read out) (sym (num_eq-≡ n 0 e))
      | inr e ↦
          ap (λ b. read (if b then out else rest) 0) e
          ∙ (read-emit_digits k (n / 10) (String.◌∷◌ (digit (n % 10)) out) (tenth-lt k n h)
              ∙ ap (read out) (omega (arith, value-digit (n % 10) (omega arith))))
    ]

read-format_uint : (n : ℕ) → n < 2 ^ 64 → read (format_uint n) 0 ≡ n
unfolding format_uint
read-format_uint n h = elim (Bool-cases (num_eq n 0)) [
  | inl e ↦ ap (λ b. read (if b then "0" else emit_digits 20 n "") 0) e ∙ sym (num_eq-≡ n 0 e)
  | inr e ↦
      ap (λ b. read (if b then "0" else emit_digits 20 n "") 0) e
      ∙ read-emit_digits 20 n "" (omega (arith, h))
]

pub format_uint_injective :
    (m n : ℕ) → m < 2 ^ 64 → n < 2 ^ 64 → format_uint m ≡ format_uint n → m ≡ n
format_uint_injective m n h k e =
    sym (read-format_uint m h) ∙ (ap (λ s. read s 0) e ∙ read-format_uint n k)

cons-inj : (c d : Char) (s t : String) → String.◌∷◌ c s ≡ String.◌∷◌ d t → (c ≡ d) × (s ≡ t)
cons-inj c d s t e = (cc, cc)

abbrev pub IsByte : ℕ → Type 0
IsByte b = b < 256

digit_injective : (m n : ℕ) → m < 16 → n < 16 → digit m ≡ digit n → m ≡ n
digit_injective m n h k e = sym (value-digit m h) ∙ (ap value e ∙ value-digit n k)

byte_injective :
    (a b : ℕ)
    → IsByte a
    → IsByte b
    → digit (a / 16) ≡ digit (b / 16)
    → digit (a % 16) ≡ digit (b % 16)
    → a ≡ b
byte_injective a b h k e f =
    let high = digit_injective (a / 16) (b / 16) (omega arith) (omega arith) e in
    let low = digit_injective (a % 16) (b % 16) (omega arith) (omega arith) f in
    omega (arith, high, low)

pub encode_injective :
    (xs ys : Bytes)
    → All IsByte xs
    → All IsByte ys
    → encode_to_string xs ≡ encode_to_string ys
    → xs ≡ ys
encode_injective [] [] h k e = refl
encode_injective [] (y ∷ ys) h k e = cc
encode_injective (x ∷ xs) [] h k e = cc
encode_injective (x ∷ xs) (y ∷ ys) h k e =
    let (c, p) = cons-inj _ _ _ _ e in
    let (d, q) = cons-inj _ _ _ _ p in
    let same = byte_injective x y h.0 k.0 c d in
    let rest = encode_injective xs ys h.1 k.1 q in ap (λ z. z ∷ xs) same ∙ ap (λ zs. y ∷ zs) rest

-- "fallback-" by its first letters.
fallback-letters :
    (t : String)
    → ("fallback-" <> t) ≡ String.◌∷◌ "f" (String.◌∷◌ "a" (String.◌∷◌ "l" ("lback-" <> t)))
fallback-letters t =
    append.cons "f" "allback-" t
    ∙ (ap (λ s. String.◌∷◌ "f" s) (append.cons "a" "llback-" t)
        ∙ ap (λ s. String.◌∷◌ "f" (String.◌∷◌ "a" s)) (append.cons "l" "lback-" t))

pub encode-ne-fallback :
    (xs : Bytes) (t : String) → All IsByte xs → encode_to_string xs ≢ ("fallback-" <> t)
encode-ne-fallback xs t h e = letters xs h (e ∙ fallback-letters t)
  where
    letters :
        (xs : Bytes)
        → All IsByte xs
        → encode_to_string xs ≢ String.◌∷◌ "f" (String.◌∷◌ "a" (String.◌∷◌ "l" ("lback-" <> t)))
    letters [] h e = cc
    letters (x ∷ []) h e = let (_, p) = cons-inj _ _ _ _ e in let (_, q) = cons-inj _ _ _ _ p in cc
    letters (x ∷ y ∷ ys) h e =
        let (_, p) = cons-inj _ _ _ _ e in
        let (_, q) = cons-inj _ _ _ _ p in
        let (l, _) = cons-inj _ _ _ _ q in
        true-ne-false
          (ap (λ c. num_eq (code c) b'l') (sym l) ∙ digit-ne-l (y / 16) (omega (arith, h)))
