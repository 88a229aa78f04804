-- ===== src/Bridge/Pointers.antt =====
-- Who holds which entry: facts on the pointers of the pending map followed by those of a list `c`.
use criteria_go_adapter_sdk.Base.{
  ℕ, suc, ◌≤◌, subst, Bool-cases, String, refl, eq_iff, false, ◌||◌, ◌≡◌, refl, sym, ◌≢◌, true,
  false, inl, inr, List, [], ◌∷◌, ◌++◌, some, arith, lookup, insert, delete, All, ◌==◌,
}
use criteria_go_adapter_sdk.Bridge.{pointers, drop_pointer, has_pointer}

abbrev pub Avoids : ℕ → List ℕ → Type 0
Avoids p = All (λ q. p ≢ q)

abbrev pub Distinct : List ℕ → Type 0
Distinct [] = Unit
Distinct (p ∷ ps) = Avoids p ps × Distinct ps

module _ (P : ℕ → Type 0) where
  pub All-delete :
      (k : String) (m : List (String × ℕ)) (c : List ℕ)
      → All P (pointers m ++ c)
      → All P (pointers (delete k m) ++ c)
  All-delete k [] c h = h
  All-delete k ((j, q) ∷ m) c h = ground (arith, All-delete k m c h.1)

  pub All-insert :
      (k : String) (p : ℕ) (m : List (String × ℕ)) (c : List ℕ)
      → P p
      → All P (pointers m ++ c)
      → All P (pointers (insert k p m) ++ c)
  All-insert k p [] c hp h = (hp, h)
  All-insert k p ((j, q) ∷ m) c hp h = ground (arith, All-insert k p m c hp h.1)

  pub All-lookup :
      (k : String) (p : ℕ) (m : List (String × ℕ)) (c : List ℕ)
      → lookup k m ≡ some p
      → All P (pointers m ++ c)
      → P p
  All-lookup k p [] c e h = cc
  All-lookup k p ((j, q) ∷ m) c e h = ground (arith, All-lookup k p m c)

  pub All-drop : (p : ℕ) (c : List ℕ) → All P c → All P (drop_pointer p c)
  All-drop p [] h = h
  All-drop p (q ∷ c) h = ground (arith, All-drop p c h.1)

  pub All-drop_append : (p : ℕ) (m c : List ℕ) → All P (m ++ c) → All P (m ++ drop_pointer p c)
  All-drop_append p [] c h = All-drop p c h
  All-drop_append p (q ∷ m) c h = (h.0, All-drop_append p m c h.1)

  pub All-member : (p : ℕ) (m c : List ℕ) → has_pointer p c ≡ true → All P (m ++ c) → P p
  All-member p [] [] e h = cc
  All-member p [] (q ∷ c) e h = ground (arith, All-member p [] c)
  All-member p (q ∷ m) c e h = All-member p m c e h.1

pub Distinct-delete :
    (k : String) (m : List (String × ℕ)) (c : List ℕ)
    → Distinct (pointers m ++ c)
    → Distinct (pointers (delete k m) ++ c)
Distinct-delete k [] c h = h
Distinct-delete k ((j, q) ∷ m) c h =
    ground (arith, Distinct-delete k m c h.1, All-delete (λ x. q ≢ x) k m c h.0)

pub Distinct-insert :
    (k : String) (p : ℕ) (m : List (String × ℕ)) (c : List ℕ)
    → Avoids p (pointers m ++ c)
    → Distinct (pointers m ++ c)
    → Distinct (pointers (insert k p m) ++ c)
Distinct-insert k p [] c a h = (a, h)
Distinct-insert k p ((j, q) ∷ m) c a h =
    ground (
      arith,
      Distinct-insert k p m c a.1 h.1,
      All-insert (λ x. q ≢ x) k p m c (λ e. a.0 (sym e)) h.0,
    )

-- The entry that a key leads to is gone from the map once the key is deleted.
pub Avoids-delete :
    (k : String) (p : ℕ) (m : List (String × ℕ)) (c : List ℕ)
    → lookup k m ≡ some p
    → Distinct (pointers m ++ c)
    → Avoids p (pointers (delete k m) ++ c)
Avoids-delete k p [] c e h = cc
Avoids-delete k p ((j, q) ∷ m) c e h = elim (Bool-cases (j == k)) [
  | inl hit ↦
      let same : q ≡ p = ground arith in
      rw hit (
        subst (λ r. Avoids r (pointers (delete k m) ++ c)) same (All-delete (λ x. q ≢ x) k m c h.0))
  | inr miss ↦
      let later : lookup k m ≡ some p = ground arith in
      rw miss
        ((λ s. All-lookup (λ x. q ≢ x) k p m c later h.0 (sym s)), Avoids-delete k p m c later h.1)
]

pub Distinct-drop : (p : ℕ) (m c : List ℕ) → Distinct (m ++ c) → Distinct (m ++ drop_pointer p c)
Distinct-drop p [] [] h = h
Distinct-drop p [] (q ∷ c) h =
    ground (arith, Distinct-drop p [] c h.1, All-drop (λ x. q ≢ x) p c h.0)
Distinct-drop p (q ∷ m) c h = (All-drop_append (λ x. q ≢ x) p m c h.0, Distinct-drop p m c h.1)

pub Avoids-drop :
    (p : ℕ) (m c : List ℕ)
    → has_pointer p c ≡ true
    → Distinct (m ++ c)
    → Avoids p (m ++ drop_pointer p c)
Avoids-drop p [] [] e h = cc
Avoids-drop p [] (q ∷ c) e h = ground (arith, Avoids-drop p [] c, h.0)
Avoids-drop p (q ∷ m) c e h =
    (λ s. All-member (λ x. q ≢ x) p m c e h.0 (sym s), Avoids-drop p m c e h.1)

pub Avoids-of_bound : (n : ℕ) (ps : List ℕ) → All (λ p. suc p ≤ n) ps → Avoids n ps
Avoids-of_bound n [] h = tt
Avoids-of_bound n (p ∷ ps) h = ((λ e. omega arith), Avoids-of_bound n ps h.1)

pub has-false : (p : ℕ) (ps : List ℕ) → Avoids p ps → has_pointer p ps ≡ false
has-false p [] a = refl
has-false p (q ∷ ps) a = ground (arith, has-false p ps a.1)

pub has-append :
    (p : ℕ) (ps qs : List ℕ) → has_pointer p (ps ++ qs) ≡ (has_pointer p ps || has_pointer p qs)
has-append p [] qs = refl
has-append p (q ∷ ps) qs = ground (arith, has-append p ps qs)

pub has-drop_ne :
    (p q : ℕ) (ps : List ℕ) → p ≢ q → has_pointer p (drop_pointer q ps) ≡ has_pointer p ps
has-drop_ne p q [] n = refl
has-drop_ne p q (r ∷ ps) n = ground (arith, has-drop_ne p q ps n)

pub has-delete :
    (p : ℕ) (k : String) (m : List (String × ℕ))
    → has_pointer p (pointers (delete k m)) ≡ true
    → has_pointer p (pointers m) ≡ true
has-delete p k [] h = h
has-delete p k ((j, q) ∷ m) h = ground (arith, has-delete p k m)

pub has-insert :
    (p q : ℕ) (k : String) (m : List (String × ℕ))
    → p ≢ q
    → has_pointer p (pointers (insert k q m)) ≡ true
    → has_pointer p (pointers m) ≡ true
has-insert p q k [] n h = ground arith
has-insert p q k ((j, r) ∷ m) n h = ground (arith, has-insert p q k m n)

pub lookup-has :
    (p : ℕ) (k : String) (m : List (String × ℕ))
    → lookup k m ≡ some p
    → has_pointer p (pointers m) ≡ true
lookup-has p k [] h = cc
lookup-has p k ((j, q) ∷ m) h = ground (arith, lookup-has p k m)

-- Nor is the entry in the map once the key leads to another.
pub has-insert_self :
    (k : String) (p q : ℕ) (m : List (String × ℕ)) (c : List ℕ)
    → lookup k m ≡ some p
    → p ≢ q
    → Distinct (pointers m ++ c)
    → has_pointer p (pointers (insert k q m)) ≡ false
has-insert_self k p q [] c e n h = cc
has-insert_self k p q ((j, r) ∷ m) c e n h = elim (Bool-cases (j == k)) [
  | inl hit ↦
      let same : r ≡ p = ground arith in
      let away : Avoids p (pointers m ++ c) = subst (λ x. Avoids x (pointers m ++ c)) same h.0 in
      rw hit (ground (arith, has-false p (pointers m ++ c) away, has-append p (pointers m) c))
  | inr miss ↦
      let later : lookup k m ≡ some p = ground arith in
      let other : r ≢ p = All-lookup (λ x. r ≢ x) k p m c later h.0 in
      rw miss (ground (arith, has-insert_self k p q m c later n h.1))
]

-- An entry stands under one key.
pub lookup_injective :
    (j k : String) (p : ℕ) (m : List (String × ℕ)) (c : List ℕ)
    → lookup j m ≡ some p
    → lookup k m ≡ some p
    → Distinct (pointers m ++ c)
    → j ≡ k
lookup_injective j k p [] c e f h = cc
lookup_injective j k p ((i, q) ∷ m) c e f h = ground (
  arith,
  eq_iff i j,
  eq_iff i k,
  All-lookup (λ x. q ≢ x) j p m c,
  All-lookup (λ x. q ≢ x) k p m c,
  lookup_injective j k p m c,
)
