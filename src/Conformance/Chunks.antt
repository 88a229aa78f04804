-- ===== src/Conformance/Chunks.antt =====
-- The loops of joinExecuteResultFragments, each by what it accepts.
use criteria_go_adapter_sdk.Base.{
  ℕ, ◌+◌, ◌^◌, ◌≤◌, String, ◌≡◌, refl, ◌↔◌, ◌⊎◌, inl, inr, Bool, true, false, List, [], ◌∷◌, Result,
  ok, err, ◌>>◌, if◌then◌else◌, length, get_elem?, All, arith, eq_iff, Bool-cases,
}
use criteria_go_adapter_sdk.Wire.{ExecuteResult}
use criteria_go_adapter_sdk.Conformance.{
  JoinError, early_final, total_of, seq_of, final_of, has_chunk, check_chunked, check_sequence,
  check_early, check_last, check_outcomes,
}

later_iff :
    (m k : Result JoinError (Unit {0})) (b : Bool) (e : JoinError)
    → ((m >> (if b then err e else k)) ≡ ok tt) ↔ ((b ≡ false) × ((m >> k) ≡ ok tt))
later_iff m k false e = ((λ h. (refl, h)), λ h. h.1)
later_iff (ok tt) k true e = ((λ h. cc), λ h. cc)
later_iff (err d) k true e = ((λ h. cc), λ h. cc)

abbrev pub Numbered : ℕ → ℕ → List ExecuteResult → Type 0
Numbered total i [] = Unit
Numbered total i (f ∷ fs) = ((total_of f ≡ total) × (seq_of f ≡ i)) × Numbered total (i + 1) fs

-- Only the last of them is final.
abbrev pub Ends : ExecuteResult → List ExecuteResult → Type 0
Ends f [] = final_of f ≡ true
Ends f (g ∷ fs) = (final_of f ≡ false) × Ends g fs

abbrev pub SameOutcome : String → ExecuteResult → Type 0
SameOutcome outcome f = (f.outcome ≡ "") ⊎ (f.outcome ≡ outcome)

pub check_chunked_iff :
    (n : ℕ) (fs : List ExecuteResult)
    → (check_chunked n fs ≡ ok tt) ↔ All (λ f. has_chunk f ≡ true) fs
check_chunked_iff n [] = ((λ _. tt), λ _. refl)
check_chunked_iff n (f ∷ fs) =
    let (to, from) = check_chunked_iff n fs in
    ((λ h. ground (arith, to)), λ h. ground (arith, from h.1))

pub check_sequence_iff :
    (total i : ℕ) (fs : List ExecuteResult)
    → i + length fs ≤ 2 ^ 32
    → (check_sequence total i fs ≡ ok tt) ↔ Numbered total i fs
check_sequence_iff total i [] h = ((λ _. tt), λ _. refl)
check_sequence_iff total i (f ∷ fs) h =
    let (to, from) = check_sequence_iff total (i + 1) fs (omega arith) in
    ((λ e. ground (arith, to)), λ e. ground (arith, from e.1))

pub check_last_iff :
    (total i : ℕ) (f : ExecuteResult) (fs : List ExecuteResult)
    → ((check_last total (get_elem? (f ∷ fs) (length fs)) >> check_early (length fs) i (f ∷ fs))
        ≡ ok tt)
      ↔ Ends f fs
check_last_iff total i f [] = elim (Bool-cases (final_of f)) [
  | inl e ↦ ((λ _. e), λ _. rw e refl)
  | inr e ↦ ((λ h. ground arith), λ h. ground arith)
]
check_last_iff total i f (g ∷ fs) =
    let (to, from) = check_last_iff total (i + 1) g fs in
    let (split, join) =
      later_iff (check_last total (get_elem? (g ∷ fs) (length fs)))
        (check_early (length fs) (i + 1) (g ∷ fs)) (final_of f) (early_final i (seq_of f)) in
    ((λ h. ((split h).0, to (split h).1)), λ h. join (h.0, from h.1))

pub check_outcomes_iff :
    (outcome : String) (i : ℕ) (fs : List ExecuteResult)
    → (check_outcomes outcome i fs ≡ ok tt) ↔ All (SameOutcome outcome) fs
check_outcomes_iff outcome i [] = ((λ _. tt), λ _. refl)
check_outcomes_iff outcome i (f ∷ fs) =
    let (to, from) = check_outcomes_iff outcome (i + 1) fs in
    (
      (λ h. ground (arith, eq_iff f.outcome "", eq_iff f.outcome outcome, to)),
      (λ h. ground (arith, eq_iff f.outcome "", eq_iff f.outcome outcome, from h.1)),
    )
