-- ===== src/Base/Sort.antt =====
-- Go's sort.Strings: texts by their bytes, which for UTF-8 is the order of their code points.
use Prim.Native.Nat.{ℕ}
use Prim.Native.Char.{code}
use Prim.Native.String.{String}
use mathlib.Core.Path.{◌≡◌, refl}
use mathlib.Core.Logic.{inl, inr}
use mathlib.Core.Bool.{Bool, true, false, ◌||◌}
use mathlib.Core.List.{List, [], ◌∷◌}
use native.Mathlib.Omega.{arith}
use text.Mathlib.Text.{◌==◌}
use criteria_go_adapter_sdk.Base.Tests.{if◌then◌else◌, ltb, num_eq, Bool-cases}
use criteria_go_adapter_sdk.Base.Lists.{contains}

abbrev pub codes : String → List ℕ
codes String.[] = []
codes (String.◌∷◌ c s) = code c ∷ codes s

abbrev pub codes_le : List ℕ → List ℕ → Bool
codes_le [] ys = true
codes_le (x ∷ xs) [] = false
codes_le (x ∷ xs) (y ∷ ys) =
    let rest = codes_le xs ys in if ltb x y then true else if num_eq x y then rest else false

abbrev pub text_le : String → String → Bool
text_le a b = codes_le (codes a) (codes b)

abbrev pub insert_sorted : String → List String → List String
insert_sorted s [] = s ∷ []
insert_sorted s (t ∷ ts) = if text_le s t then s ∷ t ∷ ts else t ∷ insert_sorted s ts

abbrev pub sort_strings : List String → List String
sort_strings [] = []
sort_strings (s ∷ ss) = insert_sorted s (sort_strings ss)

-- Each is at most its neighbour.
abbrev pub Ascending : List String → Type 0
Ascending [] = Unit
Ascending (s ∷ []) = Unit
Ascending (s ∷ t ∷ ts) = (text_le s t ≡ true) × Ascending (t ∷ ts)

codes_total : (xs ys : List ℕ) → codes_le xs ys ≡ false → codes_le ys xs ≡ true
codes_total [] ys h = ground arith
codes_total (x ∷ xs) [] h = refl
codes_total (x ∷ xs) (y ∷ ys) h = ground (arith, codes_total xs ys)

insert_above :
    (s t : String) (ts : List String)
    → text_le t s ≡ true
    → Ascending (t ∷ ts)
    → Ascending (t ∷ insert_sorted s ts)
insert_above s t [] h a = (h, tt)
insert_above s t (u ∷ us) h a = elim (Bool-cases (text_le s u)) [
  | inl e ↦ rw e (h, (e, a.1))
  | inr e ↦ rw e (a.0, insert_above s u us (codes_total (codes s) (codes u) e) a.1)
]

insert_sorted-Ascending :
    (s : String) (ts : List String) → Ascending ts → Ascending (insert_sorted s ts)
insert_sorted-Ascending s [] h = tt
insert_sorted-Ascending s (t ∷ ts) h = elim (Bool-cases (text_le s t)) [
  | inl e ↦ rw e (e, h)
  | inr e ↦ rw e (insert_above s t ts (codes_total (codes s) (codes t) e) h)
]

pub sort_strings-Ascending : (ss : List String) → Ascending (sort_strings ss)
sort_strings-Ascending [] = tt
sort_strings-Ascending (s ∷ ss) =
    insert_sorted-Ascending s (sort_strings ss) (sort_strings-Ascending ss)

contains-insert_sorted :
    (n s : String) (ts : List String) → contains n (insert_sorted s ts) ≡ (s == n || contains n ts)
contains-insert_sorted n s [] = refl
contains-insert_sorted n s (t ∷ ts) = ground (arith, contains-insert_sorted n s ts)

pub contains-sort_strings :
    (n : String) (ss : List String) → contains n (sort_strings ss) ≡ contains n ss
contains-sort_strings n [] = refl
contains-sort_strings n (s ∷ ss) =
    ground (arith, contains-insert_sorted n s (sort_strings ss), contains-sort_strings n ss)
