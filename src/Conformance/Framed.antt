-- ===== src/Conformance/Framed.antt =====
-- Which sequences of result messages joinExecuteResultFragments accepts.
use criteria_go_adapter_sdk.Base.{
  not_empty_iff, require, require_iff, ℕ, suc, ◌+◌, ◌-◌, ◌^◌, ◌<◌, ◌≡◌, refl, sym, subst, ◌≢◌, ◌↔◌,
  inl, inr, Bool, true, false, not, List, [], ◌∷◌, some, Result, ok, err, ◌>>◌, then_iff, ◌==◌,
  num_eq, length, get_elem?, All, arith, Option-cases,
}
use criteria_go_adapter_sdk.Wire.{ExecuteResult}
use criteria_go_adapter_sdk.Conformance.{
  JoinError, total_of, seq_of, final_of, has_chunk, uint32, check_sequence, check_early, check_last,
  check_outcomes, check_delivery, no_outcome, no_total, wrong_total,
}
use criteria_go_adapter_sdk.Conformance.Chunks.{
  Numbered, Ends, SameOutcome, check_chunked_iff, check_sequence_iff, check_last_iff,
  check_outcomes_iff,
}

abbrev pub is_empty : List ExecuteResult → Bool
is_empty [] = true
is_empty (f ∷ fs) = false

-- Fragments from position i on, n in all: each carries its position, the number of fragments, and
-- the final flag where it is the last.
abbrev pub Framed : ℕ → ℕ → List ExecuteResult → Type 0
Framed n i [] = Unit
Framed n i (f ∷ fs) =
    (f.chunk ≡ some (record { seq = i; total = n; final = is_empty fs })) × Framed n (i + 1) fs

-- One delivery in fragments.
pub record IsDelivery (first : ExecuteResult) (rest : List ExecuteResult) : Type 0 where
  pub framed : Framed (length (first ∷ rest)) 0 (first ∷ rest)
  pub outcome : first.outcome ≢ ""
  pub same : All (SameOutcome first.outcome) rest

chunk_iff :
    (n i : ℕ) (b : Bool) (f : ExecuteResult)
    → ((has_chunk f ≡ true) × (total_of f ≡ n) × (seq_of f ≡ i) × (final_of f ≡ b))
      ↔ (f.chunk ≡ some (record { seq = i; total = n; final = b }))
chunk_iff n i b f = elim (Option-cases f.chunk) [
  | inl e ↦ ((λ h. ground arith), λ h. ground arith)
  | inr (c, e) ↦ ((λ h. ground arith), λ h. ground arith)
]

Framed-iff :
    (n i : ℕ) (f : ExecuteResult) (fs : List ExecuteResult)
    → (All (λ g. has_chunk g ≡ true) (f ∷ fs) × Numbered n i (f ∷ fs) × Ends f fs)
      ↔ Framed n i (f ∷ fs)
Framed-iff n i f [] =
    let (to, from) = chunk_iff n i true f in
    (
      (λ h. (to (ground arith), tt)),
      (λ h. let (c, t, s, l) = from h.0 in ((c, tt), ((t, s), tt), l)),
    )
Framed-iff n i f (g ∷ fs) =
    let (to, from) = chunk_iff n i false f in
    let (to_rest, from_rest) = Framed-iff n (i + 1) g fs in
    (
      (λ h. (to (ground arith), to_rest (h.0.1, h.1.1, h.2.1))),
      (λ h.
          let (c, t, s, l) = from h.0 in
          let (cs, ns, es) = from_rest h.1 in ((c, cs), ((t, s), ns), (l, es))),
    )

-- Two checks that an equivalence describes together, in front of the rest.
then_assoc_then :
    {P Q : Type 0} (m n k : Result JoinError (Unit {0}))
    → ((m >> n) ≡ ok tt) ↔ P
    → (k ≡ ok tt) ↔ Q
    → ((m >> (n >> k)) ≡ ok tt) ↔ (P × Q)
then_assoc_then (ok u) n k h j = then_iff _ _ h j
then_assoc_then (err e) n k (f, g) j = ((λ e. cc), λ pq. cc (g pq.0))

total_iff :
    (total n : ℕ) (e : JoinError)
    → n < 2 ^ 32
    → (require (num_eq total (uint32 n)) e ≡ ok tt) ↔ (total ≡ n)
total_iff total n e h =
    let (to, from) = require_iff (num_eq total (uint32 n)) e in
    ((λ d. ground (arith, to)), λ d. from (ground arith))

positive : (t k : ℕ) → t ≡ suc k → not (num_eq t 0) ≡ true
positive t k h = ground arith

-- The total is known behind its check.
total_then :
    {P : Type 0} (t n : ℕ) (m : Result JoinError (Unit {0}))
    → (m ≡ ok tt) ↔ (t ≡ n)
    → (k : ℕ → Result JoinError (Unit {0})) → (k n ≡ ok tt) ↔ P
    → ((m >> k t) ≡ ok tt) ↔ ((t ≡ n) × P)
total_then t n (ok u) (f, g) k (to, from) = (
  (λ e. (f refl, to (subst (λ i. k i ≡ ok tt) (f refl) e))),
  (λ p. subst (λ i. k i ≡ ok tt) (sym p.0) (from p.1)),
)
total_then t n (err e) (f, g) k h = ((λ d. cc), λ p. cc (g p.0))

module _ (first : ExecuteResult) (rest : List ExecuteResult) where
  -- The checks behind that of the total, once it is known.
  abbrev checks_behind : ℕ → Result JoinError (Unit {0})
  checks_behind n = do
    check_sequence n 0 (first ∷ rest)
    check_last n (get_elem? (first ∷ rest) (n - 1))
    check_early (n - 1) 0 (first ∷ rest)
    require (not (first.outcome == "")) no_outcome
    check_outcomes first.outcome 1 rest

  abbrev Behind : ℕ → Type 0
  Behind n =
      Numbered n 0 (first ∷ rest)
      × Ends first rest
      × (first.outcome ≢ "")
      × All (SameOutcome first.outcome) rest

  check_last_at :
      (total : ℕ)
      → ((check_last total (get_elem? (first ∷ rest) (length (first ∷ rest) - 1))
            >> check_early (length (first ∷ rest) - 1) 0 (first ∷ rest))
          ≡ ok tt)
        ↔ Ends first rest
  check_last_at total =
      subst
        (λ k.
          ((check_last total (get_elem? (first ∷ rest) k) >> check_early k 0 (first ∷ rest))
            ≡ ok tt)
          ↔ Ends first rest)
        (omega arith) (check_last_iff total 0 first rest)

  Behind-iff :
      length (first ∷ rest) < 2 ^ 32
      → (checks_behind (length (first ∷ rest)) ≡ ok tt) ↔ Behind (length (first ∷ rest))
  Behind-iff h =
      let (to, from) =
        then_iff _ _ (check_sequence_iff (length (first ∷ rest)) 0 (first ∷ rest) (omega arith)) (
          then_assoc_then _ _ _ (check_last_at (length (first ∷ rest))) (
            then_iff _ _ (not_empty_iff first.outcome no_outcome)
              (check_outcomes_iff first.outcome 1 rest))) in
      ((λ e. let (a, (b, (c, d))) = to e in (a, b, c, d)), λ (a, b, c, d). from (a, (b, (c, d))))

  pub check_delivery_iff :
      length (first ∷ rest) < 2 ^ 32 → (check_delivery first rest ≡ ok tt) ↔ IsDelivery first rest
  unfolding check_delivery
  check_delivery_iff h =
      let n = length (first ∷ rest) in
      let (to, from) = then_iff _ _ (check_chunked_iff n (first ∷ rest)) (
        then_iff _ _ (require_iff (not (num_eq (total_of first) 0)) no_total) (
          total_then _ _ _ (total_iff (total_of first) n (wrong_total (total_of first) n) h)
            checks_behind (Behind-iff h))) in
      let (frame, unframe) = Framed-iff n 0 first rest in
      (
        (λ e.
            let (chunked, (_, (_, (numbered, ends, outcome, same)))) = to e in
            record { framed = frame (chunked, numbered, ends); outcome = outcome; same = same }),
        (λ d.
            let (chunked, numbered, ends) = unframe d.framed in
            from (
              chunked,
              (
                positive (total_of first) (length rest) numbered.0.0,
                (numbered.0.0, (numbered, ends, d.outcome, d.same)),
              ),
            )),
      )
