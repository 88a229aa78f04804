-- ===== src/Bridge/View/Places.antt =====
-- Where a call's entry stands in the bridge, by its status.
use criteria_go_adapter_sdk.Base.{
  ℕ, String, ◌≡◌, ◌∙◌, refl, ◌≢◌, Bool, true, false, inl, inr, List, ◌++◌, some, arith, lookup,
  delete, get_elem?, Option-cases, Bool-cases, if◌then◌else◌, ◌==◌, lookup-delete, String-cases, ap,
}
use criteria_go_adapter_sdk.Bridge.{Entry, Bridge, pointers, has_pointer}
use criteria_go_adapter_sdk.Bridge.Pointers.{
  Avoids-delete, has-false, has-append, has-delete, lookup-has, lookup_injective,
}
use criteria_go_adapter_sdk.Bridge.Invariant.{Inv}
use criteria_go_adapter_sdk.Bridge.View.{
  Status, waiting, closing, released, CallView, is_at, status_of, Shows, leave,
}

pub if_same {ℓ} : {A : Type ℓ} (b : Bool) (x : A) → (if b then x else x) ≡ x
if_same true x = refl
if_same false x = refl

abbrev pub at_status : Status → Entry → CallView
at_status st e = record { status = st; entry = e }

module _ (id : String) (p : ℕ) where
  -- Another key leads to another entry.
  pub other_entry :
      (b : Bridge) (v : CallView) (k : String) (q : ℕ)
      → Inv b
      → Shows id p b v
      → lookup k b.pending ≡ some q
      → k ≢ id
      → q ≢ p
  other_entry b v k q i s e n same =
      n (lookup_injective k id p b.pending b.closing at_p (s.owner here) i.distinct)
    where
      at_p : lookup k b.pending ≡ some p
      at_p = e ∙ ap some same

      here : has_pointer p (pointers b.pending) ≡ true
      here = lookup-has p k b.pending at_p

  pub waiting_at :
      (b : Bridge) (e : Entry) → Shows id p b (at_status waiting e) → lookup id b.pending ≡ some p
  waiting_at b e s = ground (arith, s.status, Option-cases (lookup id b.pending))

  -- A call that is not waiting is nowhere in the map.
  pub out_of_map :
      (b : Bridge) (v : CallView)
      → Shows id p b v
      → v.status ≢ waiting
      → has_pointer p (pointers b.pending) ≡ false
  out_of_map b v s n = elim (Bool-cases (has_pointer p (pointers b.pending))) [
    | inl h ↦ absurd (n (ground (arith, s.owner h, s.status)))
    | inr h ↦ h
  ]

  is_at-false :
      (m : List (String × ℕ)) → has_pointer p (pointers m) ≡ false → is_at p (lookup id m) ≡ false
  is_at-false m h = ground (arith, lookup-has p id m, Option-cases (lookup id m))

  pub show_in :
      (b : Bridge) (e : Entry)
      → get_elem? b.heap p ≡ some e
      → lookup id b.pending ≡ some p
      → Shows id p b (at_status waiting e)
  show_in b e found at = record { found = found; status = ground arith; owner = λ _. at }

  pub show_out :
      (b : Bridge) (st : Status) (e : Entry)
      → get_elem? b.heap p ≡ some e
      → has_pointer p (pointers b.pending) ≡ false
      → status_of false (has_pointer p b.closing) ≡ st
      → Shows id p b (at_status st e)
  show_out b st e found out same = record {
    found = found;
    status = rw (is_at-false b.pending out) same;
    owner = λ h. cc;
  }

  pub closing_of :
      (b : Bridge) (v : CallView)
      → Shows id p b v
      → v.status ≢ waiting
      → status_of false (has_pointer p b.closing) ≡ v.status
  closing_of b v s n = rw (is_at-false b.pending (out_of_map b v s n)) at s.status

  -- A waiting call is in no `closeAll`.
  pub not_closing :
      (b : Bridge) (e : Entry)
      → Inv b
      → Shows id p b (at_status waiting e)
      → has_pointer p b.closing ≡ false
  not_closing b e i s = ground (
    arith,
    has-append p (pointers (delete id b.pending)) b.closing,
    has-false p (pointers (delete id b.pending) ++ b.closing)
        (Avoids-delete id p b.pending b.closing (waiting_at b e s) i.distinct),
  )

  pub gone :
      (b : Bridge) (e : Entry)
      → Inv b
      → Shows id p b (at_status waiting e)
      → has_pointer p (pointers (delete id b.pending)) ≡ false
  gone b e i s = ground (
    arith,
    has-append p (pointers (delete id b.pending)) b.closing,
    has-false p (pointers (delete id b.pending) ++ b.closing)
        (Avoids-delete id p b.pending b.closing (waiting_at b e s) i.distinct),
  )

  pub out-delete :
      (k : String) (m : List (String × ℕ))
      → has_pointer p (pointers m) ≡ false
      → has_pointer p (pointers (delete k m)) ≡ false
  out-delete k m h = ground (arith, has-delete p k m)

  -- `delete(b.pending, k)`
  pub delete-Shows :
      (b : Bridge) (st : Status) (e : Entry) (k : String)
      → Inv b
      → Shows id p b (at_status st e)
      → Shows id p
          (record b { pending = delete k b.pending })
          (if k == id then leave (at_status st e) else at_status st e)
  delete-Shows b waiting e k i s = elim (String-cases k id) [
    | inl (t, same) ↦
        rw (t, same)
          (show_out _ released e s.found (gone b e i s)
            (ap (status_of false) (not_closing b e i s)))
    | inr (t, other) ↦
        rw t (show_in _ e s.found (lookup-delete k id b.pending ∙ rw t (waiting_at b e s)))
  ]
  delete-Shows b closing e k i s = rw (if_same (k == id) (at_status closing e)) (
      show_out _ closing e s.found (out-delete k b.pending (out_of_map b _ s (λ h. cc)))
        (closing_of b _ s (λ h. cc)))
  delete-Shows b released e k i s = rw (if_same (k == id) (at_status released e)) (
      show_out _ released e s.found (out-delete k b.pending (out_of_map b _ s (λ h. cc)))
        (closing_of b _ s (λ h. cc)))

  -- Nor does any key lead to the entry of a call that is not waiting.
  pub out_of_reach :
      (b : Bridge) (v : CallView) (k : String) (q : ℕ)
      → Shows id p b v
      → v.status ≢ waiting
      → lookup k b.pending ≡ some q
      → q ≢ p
  out_of_reach b v k q s n e same =
      cc (lookup-has p k b.pending (e ∙ ap some same), out_of_map b v s n)
