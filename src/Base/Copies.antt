-- ===== src/Base/Copies.antt =====
-- Go maps that are filled from a `range` loop over another map, whose keys are distinct.
use Prim.Native.String.{String}
use mathlib.Core.Path.{◌≡◌, refl, sym, subst, ◌∙◌}
use mathlib.Core.Logic.{◌≢◌, ◌↔◌, inl, inr}
use mathlib.Core.Option.{Option, none, some}
use mathlib.Core.List.{List, [], ◌∷◌}
use native.Mathlib.Omega.{arith}
use text.Mathlib.Text.{◌==◌}
use text.Mathlib.TextEquality.{eq_iff}
use criteria_go_adapter_sdk.Base.Tests.{Bool-cases, String-cases}
use criteria_go_adapter_sdk.Base.Lists.{All}
use criteria_go_adapter_sdk.Base.Maps.{lookup, insert, lookup-insert}

module _ {ℓ κ} {S : Type ℓ} {T : Type κ} (f : S → T) where
  -- `for name, value := range new { m[name] = f(value) }`
  abbrev pub put_all : List (String × T) → List (String × S) → List (String × T)
  put_all m [] = m
  put_all m ((name, value) ∷ rest) = put_all (insert name (f value) m) rest

module _ {ℓ} {T : Type ℓ} where
  abbrev pub names_of : List (String × T) → List String
  names_of [] = []
  names_of ((name, value) ∷ rest) = name ∷ names_of rest

  -- The keys of a map.
  abbrev pub DistinctKeys : List (String × T) → Type 0
  DistinctKeys [] = Unit
  DistinctKeys ((name, value) ∷ rest) =
      All (λ other. name ≢ other) (names_of rest) × DistinctKeys rest

  abbrev pub or_else : Option T → Option T → Option T
  or_else none b = b
  or_else (some a) b = some a

  pub or_none : (o : Option T) → or_else o none ≡ o
  or_none none = refl
  or_none (some a) = refl

  absent : (n : String) (m : List (String × T)) → All (λ o. n ≢ o) (names_of m) → lookup n m ≡ none
  absent n [] h = refl
  absent n ((name, value) ∷ rest) h = ground (arith, eq_iff name n, absent n rest h.1)

  avoids-insert :
      (n k : String) (v : T) (m : List (String × T))
      → n ≢ k
      → All (λ o. n ≢ o) (names_of m)
      → All (λ o. n ≢ o) (names_of (insert k v m))
  avoids-insert n k v [] h a = (h, tt)
  avoids-insert n k v ((name, value) ∷ rest) h a = elim (Bool-cases (name == k)) [
    | inl e ↦ rw e (h, a.1)
    | inr e ↦ rw e (a.0, avoids-insert n k v rest h a.1)
  ]

  pub insert-DistinctKeys :
      (k : String) (v : T) (m : List (String × T)) → DistinctKeys m → DistinctKeys (insert k v m)
  insert-DistinctKeys k v [] d = (tt, tt)
  insert-DistinctKeys k v ((name, value) ∷ rest) d = elim (String-cases name k) [
    | inl (e, p) ↦ rw e (subst (λ x. All (λ o. x ≢ o) (names_of rest)) p d.0, d.1)
    | inr (e, p) ↦ rw e (avoids-insert name k v rest p d.0, insert-DistinctKeys k v rest d.1)
  ]

abbrev pub map_value {ℓ κ} : {S : Type ℓ} {T : Type κ} → (S → T) → Option S → Option T
map_value f none = none
map_value f (some a) = some (f a)

module _ {ℓ κ} {S : Type ℓ} {T : Type κ} (f : S → T) where
  pub lookup-put_all :
      (n : String) (m : List (String × T)) (new : List (String × S))
      → DistinctKeys new
      → lookup n (put_all f m new) ≡ or_else (map_value f (lookup n new)) (lookup n m)
  lookup-put_all n m [] d = refl
  lookup-put_all n m ((name, value) ∷ rest) d =
      lookup-put_all n (insert name (f value) m) rest d.1
      ∙ rw (lookup-insert name n (f value) m) (ground (arith, eq_iff name n, absent name rest d.0))

  pub put_all-DistinctKeys :
      (m : List (String × T)) (new : List (String × S))
      → DistinctKeys m
      → DistinctKeys (put_all f m new)
  put_all-DistinctKeys m [] d = d
  put_all-DistinctKeys m ((name, value) ∷ rest) d =
      put_all-DistinctKeys (insert name (f value) m) rest (insert-DistinctKeys name (f value) m d)

  pub lookup-copy :
      (n : String) (m : List (String × S))
      → DistinctKeys m
      → lookup n (put_all f [] m) ≡ map_value f (lookup n m)
  lookup-copy n m d = lookup-put_all n [] m d ∙ or_none _

-- A predicate on the entries of a map that was filled so.
module _ {ℓ κ} {T : Type ℓ} (Q : String → T → Type κ) where
  abbrev pub Entries : List (String × T) → Type κ
  Entries [] = Unit
  Entries ((name, value) ∷ rest) = Q name value × Entries rest

  Entries-insert :
      (k : String) (v : T) (m : List (String × T))
      → All (λ o. k ≢ o) (names_of m)
      → Entries (insert k v m) ↔ (Q k v × Entries m)
  Entries-insert k v [] a = ((λ h. h), λ h. h)
  Entries-insert k v ((name, value) ∷ rest) a = elim (String-cases name k) [
    | inl (e, p) ↦ absurd (a.0 (sym p))
    | inr (e, p) ↦ rw e (
        let (to, from) = Entries-insert k v rest a.1 in
        ((λ h. let (q, r) = to h.1 in (q, (h.0, r))), (λ h. (h.1.0, from (h.0, h.1.1)))))
  ]

module _ {ℓ κ μ} {S : Type ℓ} {T : Type κ} (f : S → T) (Q : String → T → Type μ) where
  -- The keys that come are not there yet.
  abbrev Apart : List (String × T) → List (String × S) → Type 0
  Apart m new = All (λ k. All (λ o. k ≢ o) (names_of m)) (names_of new)

  Apart-insert :
      (k : String) (v : T) (m : List (String × T)) (new : List (String × S))
      → All (λ o. k ≢ o) (names_of new)
      → Apart m new
      → Apart (insert k v m) new
  Apart-insert k v m [] h a = tt
  Apart-insert k v m ((name, value) ∷ rest) h a =
      (avoids-insert name k v m (λ p. h.0 (sym p)) a.0, Apart-insert k v m rest h.1 a.1)

  Entries-put_all :
      (m : List (String × T)) (new : List (String × S))
      → DistinctKeys new
      → Apart m new
      → Entries Q (put_all f m new) ↔ (Entries (λ n s. Q n (f s)) new × Entries Q m)
  Entries-put_all m [] d a = ((λ h. (tt, h)), λ h. h.1)
  Entries-put_all m ((name, value) ∷ rest) d a =
      let (to, from) =
        Entries-put_all (insert name (f value) m) rest d.1
          (Apart-insert name (f value) m rest d.0 a.1) in
      let (split, join) = Entries-insert Q name (f value) m a.0 in
      (
        (λ h. let (r, i) = to h in let (q, e) = split i in ((q, r), e)),
        (λ h. from (h.0.1, join (h.0.0, h.1))),
      )

  Apart-nil : (new : List (String × S)) → Apart [] new
  Apart-nil [] = tt
  Apart-nil ((name, value) ∷ rest) = (tt, Apart-nil rest)

  pub Entries-copy :
      (new : List (String × S))
      → DistinctKeys new
      → Entries Q (put_all f [] new) ↔ Entries (λ n s. Q n (f s)) new
  Entries-copy new d =
      let (to, from) = Entries-put_all [] new d (Apart-nil new) in
      ((λ h. (to h).0), λ h. from (h, tt))
