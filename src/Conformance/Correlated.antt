-- ===== src/Conformance/Correlated.antt =====
-- What a passing run of the concurrent-Execute case shows.
use criteria_go_adapter_sdk.Base.{
  ok_inj, ℕ, zero, suc, ◌+◌, ◌<◌, ◌≤◌, String, ◌≡◌, refl, sym, subst, ◌∙◌, ◌≢◌, ◌↔◌, ◌⊎◌, inl, inr,
  true, List, [], ◌∷◌, ◌++◌, some, Result, ok, err, get_elem?, arith, eq_iff, Bool-cases, bind_ok,
}
use criteria_go_adapter_sdk.Base.Int.{ℤ, pos, negsuc}
use criteria_go_adapter_sdk.Wire.{Bytes, ExecuteResult}
use criteria_go_adapter_sdk.Conformance.Loopback.Closed.{with_loopback-ok}
use criteria_go_adapter_sdk.Conformance.Run.{
  run_opened, ConcurrentExecuteOptions, default_options, apply_options, Stream, DriveError, Failure,
  bytes_equal, same_execute_result, check_distinct, verify_distinct_results, Call, prepare_calls,
  wants_of, drive_conformance_execute, judge, failures_of, verdict, attempt, UnderTest, not_started,
  not_opened, run_calls, check_timeout, check_calls, run_concurrent_execute_conformance, Script,
}

-- The same logical result.
abbrev pub Same : ExecuteResult → ExecuteResult → Type 0
Same a b = (a.outcome ≡ b.outcome) × (a.outputs_json ≡ b.outputs_json)

bytes_equal_iff : (xs ys : Bytes) → (bytes_equal xs ys ≡ true) ↔ (xs ≡ ys)
bytes_equal_iff [] [] = ((λ h. refl), λ h. refl)
bytes_equal_iff [] (y ∷ ys) = ((λ h. ground arith), λ h. ground arith)
bytes_equal_iff (x ∷ xs) [] = ((λ h. ground arith), λ h. ground arith)
bytes_equal_iff (x ∷ xs) (y ∷ ys) =
    let (to, from) = bytes_equal_iff xs ys in
    ((λ h. ground (arith, to)), λ h. ground (arith, from (ground arith)))

pub Same-iff : (a b : ExecuteResult) → (same_execute_result a b ≡ true) ↔ Same a b
Same-iff a b =
    ground (arith, eq_iff a.outcome b.outcome, bytes_equal_iff a.outputs_json b.outputs_json)

check_distinct-Same :
    (i j k : ℕ) (want w : ExecuteResult) (wants : List ExecuteResult)
    → check_distinct i j want wants ≡ ok tt
    → get_elem? wants k ≡ some w
    → Same want w
    → ⊥
check_distinct-Same i j k want w [] h g s = ground arith
check_distinct-Same i j zero want w (o ∷ os) h g s = ground (arith, Same-iff want o)
check_distinct-Same i j (suc k) want w (o ∷ os) h g s =
    check_distinct-Same i (j + 1) k want w os (ground arith) g s

distinct-Same :
    (n i j : ℕ) (v w : ExecuteResult) (wants : List ExecuteResult)
    → verify_distinct_results n wants ≡ ok tt
    → get_elem? wants i ≡ some v
    → get_elem? wants j ≡ some w
    → i < j
    → Same v w
    → ⊥
unfolding verify_distinct_results
distinct-Same n i j v w [] h gi gj l s = ground arith
distinct-Same n zero (suc j) v w (o ∷ os) h gi gj l s =
    let (u, (c, _)) =
      bind_ok (check_distinct n (n + 1) o os) (λ _. verify_distinct_results (n + 1) os) tt h in
    check_distinct-Same n (n + 1) j v w os
      (subst (λ x. check_distinct n (n + 1) x os ≡ ok tt) (ground arith) c) gj s
distinct-Same n (suc i) (suc j) v w (o ∷ os) h gi gj l s =
    distinct-Same (n + 1) i j v w os
      (bind_ok (check_distinct n (n + 1) o os) (λ _. verify_distinct_results (n + 1) os) tt h).1.1
      gi gj (omega arith) s
distinct-Same n i zero v w (o ∷ os) h gi gj l s = absurd (omega arith)

get-wants :
    (i : ℕ) (c : Call) (calls : List Call)
    → get_elem? calls i ≡ some c
    → get_elem? (wants_of calls) i ≡ some c.want
get-wants i c [] h = ground arith
get-wants zero c (d ∷ ds) h = ground arith
get-wants (suc i) c (d ∷ ds) h = get-wants i c ds h

compare_cases : (i j : ℕ) → i ≢ j → (i < j) ⊎ (j < i)
compare_cases i j h = omega arith

distinct_either :
    (i j : ℕ) (v w : ExecuteResult) (wants : List ExecuteResult)
    → verify_distinct_results 0 wants ≡ ok tt
    → get_elem? wants i ≡ some v
    → get_elem? wants j ≡ some w
    → i ≢ j
    → Same v w
    → ⊥
distinct_either i j v w wants h gi gj ne s = elim (compare_cases i j ne) [
  | inl l ↦ distinct-Same 0 i j v w wants h gi gj l s
  | inr l ↦ distinct-Same 0 j i w v wants h gj gi l (sym s.0, sym s.1)
]

check_calls_lem :
    (calls : ℤ) (n m : ℕ) → calls ≡ pos n → check_calls calls ≡ ok m → (3 ≤ n) × (m ≡ n)
check_calls_lem (pos k) n m h e = ground arith
check_calls_lem (negsuc k) n m h e = ground arith

judge_lem :
    (i : ℕ) (want : ExecuteResult) (r : Result DriveError ExecuteResult) (rest : List Failure)
    → judge i want r ++ rest ≡ []
    → ((got : ExecuteResult) × ((r ≡ ok got) × Same got want)) × (rest ≡ [])
judge_lem i want (err e) rest h = ground arith
judge_lem i want (ok got) rest h = elim (Bool-cases (same_execute_result got want)) [
  | inl e ↦ ((got, (refl, (Same-iff got want).0 e)), ground arith)
  | inr e ↦ ground arith
]

verdict_lem : (fs : List Failure) → verdict fs ≡ ok tt → fs ≡ []
verdict_lem [] h = refl
verdict_lem (f ∷ fs) h = ground arith

module _ {Struct : Type 0} (join_outputs : List ExecuteResult → Result String Bytes) where
  -- Call c's own stream shows a result, and it is the one expected.
  abbrev pub Arrived : Stream Struct → Call → Type 0
  Arrived stream c =
      (got : ExecuteResult) × ((drive_conformance_execute join_outputs c.request stream ≡ ok got)
        × Same got c.want)

  failures_of_lem :
      (stream : ℕ → Stream Struct) (k i m : ℕ) (c : Call) (calls : List Call)
      → failures_of join_outputs stream k calls ≡ []
      → get_elem? calls i ≡ some c
      → k + i ≡ m
      → Arrived (stream m) c
  failures_of_lem stream k i m c [] h g e = ground arith
  failures_of_lem stream k zero m c (d ∷ ds) h g e =
      let (a, _) =
        judge_lem k d.want (drive_conformance_execute join_outputs d.request (stream k)) _ h in
      subst (λ n. Arrived (stream n) c) (omega arith)
        (subst (Arrived (stream k)) {x = d} {y = c} (ground arith) a)
  failures_of_lem stream k (suc i) m c (d ∷ ds) h g e =
      let (_, r) =
        judge_lem k d.want (drive_conformance_execute join_outputs d.request (stream k)) _ h in
      failures_of_lem stream (k + 1) i m c ds r g (omega arith)

  -- The calls of a passing run expect different results, and none of them failed.
  Passed : UnderTest Struct → List Call → Type 0
  Passed svc calls =
      (verify_distinct_results 0 (wants_of calls) ≡ ok tt)
      × (failures_of join_outputs (svc.stream calls) 0 calls ≡ [])

  run_calls_lem :
      (n : ℕ) (svc : UnderTest Struct) (script : Script) (calls : List Call)
      → run_calls join_outputs n svc script ≡ ok tt
      → prepare_calls script 0 n ≡ ok calls
      → Passed svc calls
  unfolding Passed
  run_calls_lem n svc script calls h p =
      let (ran, (q, h1)) = bind_ok (prepare_calls script 0 n) _ tt h in
      let (_, (v, h2)) = bind_ok (verify_distinct_results 0 (wants_of ran)) _ tt h1 in
      let h3 =
        with_loopback-ok not_started svc.listen svc.new_client (run_opened join_outputs svc ran) tt
          h2 in
      let (_, (_, h4)) = bind_ok (attempt not_opened svc.open_session) _ tt h3 in
      subst (Passed svc) {x = ran} {y = calls} (ok_inj (sym q ∙ p)) (v, verdict_lem _ h4)

  -- When the case passes, on whatever streams the adapter gave its n calls, there were at least three,
  -- and for two different calls, the first one's own stream shows one result, which is the one
  -- expected of that call and not the one expected of the other.
  pub run-correlated :
      (svc : UnderTest Struct) (script : Script)
      (opts : List (ConcurrentExecuteOptions → ConcurrentExecuteOptions)) (n i j : ℕ)
      (calls : List Call) (c d : Call)
      → run_concurrent_execute_conformance join_outputs (some svc) (some script) opts ≡ ok tt
      → (apply_options opts default_options).calls ≡ pos n
      → prepare_calls script 0 n ≡ ok calls
      → get_elem? calls i ≡ some c
      → get_elem? calls j ≡ some d
      → i ≢ j
      → (3 ≤ n)
        × ((got : ExecuteResult) × ((drive_conformance_execute join_outputs c.request
                  (svc.stream calls i)
                ≡ ok got)
              × (Same got c.want × ¬ Same got d.want)))
  unfolding run_concurrent_execute_conformance Passed
  run-correlated svc script opts n i j calls c d h hn hc gi gj ne =
      let o = apply_options opts default_options in
      let (m, (pm, h1)) = bind_ok (check_calls o.calls) _ tt h in
      let (_, (_, h2)) = bind_ok (check_timeout o.call_timeout) _ tt h1 in
      let (l, em) = check_calls_lem o.calls n m hn pm in
      let (v, f) =
        run_calls_lem n svc script calls
          (subst (λ k. run_calls join_outputs k svc script ≡ ok tt) em h2) hc in
      let (got, (r, s)) = failures_of_lem (svc.stream calls) 0 i i c calls f gi (omega arith) in
      (
        l,
        (
          got,
          (
            r,
            (
              s,
              λ t.
                  distinct_either i j c.want d.want (wants_of calls) v (get-wants i c calls gi)
                    (get-wants j d calls gj) ne (sym s.0 ∙ t.0, sym s.1 ∙ t.1),
            ),
          ),
        ),
      )
