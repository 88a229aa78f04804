-- ===== src/Base/Regex/Language.antt =====
-- The language of a pattern, and that `matches` decides it.
use criteria_go_adapter_sdk.Base.{
  ℕ, String, ◌≡◌, refl, sym, ap, subst, ◌∙◌, ◌↔◌, ◌⊎◌, inl, inr, true, List, [], ◌∷◌, ◌++◌, All,
  arith, Bool-cases,
}
use criteria_go_adapter_sdk.Base.Sort.{codes}
use criteria_go_adapter_sdk.Base.Regex.{
  Regex, nothing, empty, one, seq, alt, star, nullable, derivative, matches, match_string,
}

abbrev pub joined : List (List ℕ) → List ℕ
joined [] = []
joined (s ∷ ss) = s ++ joined ss

-- The texts that a pattern stands for.
abbrev pub Lang : Regex → List ℕ → Type 0
Lang nothing s = ⊥
Lang empty s = s ≡ []
Lang (one p) s = (c : ℕ) × ((p c ≡ true) × (s ≡ c ∷ []))
Lang (seq r t) s = (u : List ℕ) × ((v : List ℕ) × ((s ≡ u ++ v) × (Lang r u × Lang t v)))
Lang (alt r t) s = Lang r s ⊎ Lang t s
Lang (star r) s = (ss : List (List ℕ)) × ((s ≡ joined ss) × All (λ u. Lang r u) ss)

append_nil : (u v : List ℕ) → [] ≡ u ++ v → (u ≡ []) × (v ≡ [])
append_nil [] v h = (refl, sym h)
append_nil (c ∷ u) v h = ground arith

nullable_iff : (r : Regex) → (nullable r ≡ true) ↔ Lang r []
unfolding nullable
nullable_iff nothing = ((λ h. ground arith), λ h. absurd h)
nullable_iff empty = ((λ h. refl), λ h. refl)
nullable_iff (one p) = ((λ h. ground arith), λ (c, (h, e)). ground arith)
nullable_iff (seq r t) =
    let (to_r, from_r) = nullable_iff r in
    let (to_t, from_t) = nullable_iff t in
    (
      (λ h. ([], ([], (refl, (to_r (ground arith), to_t (ground arith)))))),
      (λ (u, (v, (e, (hu, hv)))).
          let (eu, ev) = append_nil u v e in
          let nr = from_r (subst (Lang r) eu hu) in
          let nt = from_t (subst (Lang t) ev hv) in ground arith),
    )
nullable_iff (alt r t) =
    let (to_r, from_r) = nullable_iff r in
    let (to_t, from_t) = nullable_iff t in
    (
      (λ h. elim (Bool-cases (nullable r)) [
        | inl e ↦ inl (to_r e)
        | inr e ↦ inr (to_t (ground arith))
      ]),
      (λ h. elim h [
        | inl e ↦ let n = from_r e in ground arith
        | inr e ↦ let n = from_t e in ground arith
      ]),
    )
nullable_iff (star r) = ((λ h. ([], (refl, tt))), λ h. refl)

tail_of : (c d : ℕ) (s t : List ℕ) → c ∷ s ≡ d ∷ t → s ≡ t
tail_of c d s t h = ground arith

head_of : (c d : ℕ) (s t : List ℕ) → c ∷ s ≡ d ∷ t → d ≡ c
head_of c d s t h = ground arith

module _ (c : ℕ) (r : Regex) (step : (u : List ℕ) → Lang (derivative c r) u ↔ Lang r (c ∷ u)) where
  -- The texts of `seq r t` that begin with c, where r takes c.
  seq_front : (t : Regex) (s : List ℕ) → Lang (seq (derivative c r) t) s → Lang (seq r t) (c ∷ s)
  seq_front t s (u, (v, (e, (hu, hv)))) = (c ∷ u, (v, (ap (λ x. c ∷ x) e, ((step u).0 hu, hv))))

  seq_back :
      (t : Regex) (s u v : List ℕ)
      → c ∷ s ≡ u ++ v
      → Lang r u
      → Lang t v
      → Lang (seq (derivative c r) t) s ⊎ (Lang r [] × Lang t (c ∷ s))
  seq_back t s [] v e hu hv = inr (hu, subst (Lang t) (sym e) hv)
  seq_back t s (d ∷ u) v e hu hv = inl (
    u,
    (
      v,
      (
        tail_of c d s (u ++ v) e,
        ((step u).1 (subst (λ x. Lang r (x ∷ u)) (head_of c d s (u ++ v) e) hu), hv),
      ),
    ),
  )

  star_back :
      (s : List ℕ) (ss : List (List ℕ))
      → c ∷ s ≡ joined ss
      → All (λ u. Lang r u) ss
      → Lang (seq (derivative c r) (star r)) s
  star_back s [] e h = ground arith
  star_back s ([] ∷ ss) e h = star_back s ss e h.1
  star_back s ((d ∷ u) ∷ ss) e h = (
    u,
    (
      joined ss,
      (
        tail_of c d s (u ++ joined ss) e,
        (
          (step u).1 (subst (λ x. Lang r (x ∷ u)) (head_of c d s (u ++ joined ss) e) h.0),
          (ss, (refl, h.1)),
        ),
      ),
    ),
  )

  star_front : (s : List ℕ) → Lang (seq (derivative c r) (star r)) s → Lang (star r) (c ∷ s)
  star_front s (u, (v, (e, (hu, (ss, (j, all)))))) =
      ((c ∷ u) ∷ ss, (ap (λ x. c ∷ x) (e ∙ ap (λ x. u ++ x) j), ((step u).0 hu, all)))

derivative_iff : (c : ℕ) (r : Regex) (s : List ℕ) → Lang (derivative c r) s ↔ Lang r (c ∷ s)
unfolding derivative
derivative_iff c nothing s = ((λ h. absurd h), λ h. absurd h)
derivative_iff c empty s = ((λ h. absurd h), λ h. ground arith)
derivative_iff c (one p) s = elim (Bool-cases (p c)) [
  | inl e ↦ rw e ((λ h. (c, (e, ap (λ x. c ∷ x) h))), λ (d, (h, q)). tail_of c d s [] q)
  | inr e ↦ rw e ((λ h. absurd h), λ (d, (h, q)). ground (arith, ap p (head_of c d s [] q)))
]
derivative_iff c (seq r t) s =
    let step_r = derivative_iff c r in
    let step_t = derivative_iff c t in
    elim (Bool-cases (nullable r)) [
      | inl e ↦ rw e (
        (λ h. elim h [
          | inl a ↦ seq_front c r step_r t s a
          | inr b ↦ ([], (c ∷ s, (refl, ((nullable_iff r).0 e, (step_t s).0 b))))
        ]),
        (λ (u, (v, (q, (hu, hv)))). elim (seq_back c r step_r t s u v q hu hv) [
          | inl a ↦ inl a
          | inr b ↦ inr ((step_t s).1 b.1)
        ]),
      )
      | inr e ↦ rw e (
        (λ h. seq_front c r step_r t s h),
        (λ (u, (v, (q, (hu, hv)))). elim (seq_back c r step_r t s u v q hu hv) [
          | inl a ↦ a
          | inr b ↦ ground (arith, (nullable_iff r).1 b.0)
        ]),
      )
    ]
derivative_iff c (alt r t) s =
    let (to_r, from_r) = derivative_iff c r s in
    let (to_t, from_t) = derivative_iff c t s in
    (
      (λ h. elim h [ inl a ↦ inl (to_r a) | inr b ↦ inr (to_t b) ]),
      (λ h. elim h [ inl a ↦ inl (from_r a) | inr b ↦ inr (from_t b) ]),
    )
derivative_iff c (star r) s =
    let step = derivative_iff c r in
    ((λ h. star_front c r step s h), λ (ss, (e, h)). star_back c r step s ss e h)

-- A text matches exactly when it is one of the pattern's.
pub matches_iff : (r : Regex) (s : List ℕ) → (matches r s ≡ true) ↔ Lang r s
unfolding matches
matches_iff r [] = nullable_iff r
matches_iff r (c ∷ s) =
    let (to, from) = matches_iff (derivative c r) s in
    let (onto, back) = derivative_iff c r s in ((λ h. onto (to h)), λ h. from (back h))

-- The same for a whole text.
abbrev pub In : Regex → String → Type 0
In r s = Lang r (codes s)

pub match_string_iff : (r : Regex) (s : String) → (match_string r s ≡ true) ↔ In r s
unfolding match_string
match_string_iff r s = matches_iff r (codes s)
