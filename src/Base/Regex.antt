-- ===== src/Base/Regex.antt =====
-- Go's regexp.MatchString for the patterns of the source: texts of code points, decided by taking the
-- pattern's derivative by each of them in turn.
pub mod Language
use criteria_go_adapter_sdk.Base.{
  ℕ, zero, suc, String, Bool, true, false, ◌&&◌, ◌||◌, List, [], ◌∷◌, if◌then◌else◌, leb, num_eq,
}
use criteria_go_adapter_sdk.Base.Sort.{codes}

pub data Regex : Type 0 where
  nothing empty : Regex
  one : (ℕ → Bool) → Regex
  seq alt : Regex → Regex → Regex
  star : Regex → Regex

unfoldable pub nullable : Regex → Bool
nullable nothing = false
nullable empty = true
nullable (one p) = false
nullable (seq r t) = nullable r && nullable t
nullable (alt r t) = nullable r || nullable t
nullable (star r) = true

-- What is left to match behind the code point c.
unfoldable pub derivative : ℕ → Regex → Regex
derivative c nothing = nothing
derivative c empty = nothing
derivative c (one p) = if p c then empty else nothing
derivative c (seq r t) =
    let left = derivative c r in
    let right = derivative c t in if nullable r then alt (seq left t) right else seq left t
derivative c (alt r t) = alt (derivative c r) (derivative c t)
derivative c (star r) = seq (derivative c r) (star r)

unfoldable pub matches : Regex → List ℕ → Bool
matches r [] = nullable r
matches r (c ∷ cs) = matches (derivative c r) cs

unfoldable pub match_string : Regex → String → Bool
match_string r s = matches r (codes s)

-- r+, r{0,n}, and a text.
abbrev pub plus : Regex → Regex
plus r = seq r (star r)

abbrev pub up_to : ℕ → Regex → Regex
up_to zero r = empty
up_to (suc n) r = alt empty (seq r (up_to n r))

abbrev pub literal : List ℕ → Regex
literal [] = empty
literal (c ∷ cs) = seq (one (num_eq c)) (literal cs)

-- A pattern without `$` matches at the start alone.
abbrev pub prefix_of : Regex → Regex
prefix_of r = seq r (star (one (λ c. true)))

abbrev pub between : ℕ → ℕ → ℕ → Bool
between lo hi c = leb lo c && leb c hi

abbrev pub is_lower : ℕ → Bool
is_lower = between 97 122

abbrev pub is_digit : ℕ → Bool
is_digit = between 48 57
