-- ===== src/Senders/Delivered.antt =====
-- What has reached the stream when nobody can go on: everything.
use criteria_go_adapter_sdk.Base.{
  Bool, ℕ, ◌<◌, true, false, List, [], ◌∷◌, ◌++◌, ◌≡◌, ◌≢◌, refl, sym, ap, ◌∙◌, inl, inr, some,
  get_elem?, get_elem?-some, get_elem?-lt, total, All, All-get_elem?, All-pointwise, one_if, arith,
  option_inj, subst, Option, String, none,
}
use mathlib.Core.List.{append-nil}
use criteria_go_adapter_sdk.Senders.{
  EventServer, Sender, Phase, outside, locked, inside, send, moves, move, System, Run, opened,
  sent_by,
}
use criteria_go_adapter_sdk.Senders.Orderly.{
  has_mutex, IsBusy, IsOrderly, Run-IsOrderly, handed, succeeded,
}

one_if-zero : (b : Bool) → one_if b ≡ 0 → b ≡ false
one_if-zero true h = ground arith
one_if-zero false h = refl

module _ {ℓ} {E : Type ℓ} where
  -- Nobody can move.
  abbrev pub IsSettled : System E → Type ℓ
  IsSettled s =
      (i : ℕ) (t u : Sender E) (o : Option String) (v : EventServer E)
      → get_elem? s.senders i ≡ some t
      → move i t o s.server ≢ moves u v

  -- All events of the goroutine were handed over, and those that did not fail are on the stream.
  abbrev pub Done : ℕ → List E → Sender E → EventServer E → Type ℓ
  Done i es t s = (handed t.tried ≡ es) × (sent_by i s.stream ≡ succeeded t.tried)

  stuck-free :
      (i : ℕ) (p : Phase) (es : List E) (tr : List (E × Option String)) (s : EventServer E)
      → ((u : Sender E) (v : EventServer E) → send i p es tr none s ≢ moves u v)
      → IsBusy (record { phase = p; waiting = es; tried = tr })
      → has_mutex (record { phase = p; waiting = es; tried = tr }) ≡ 0
  stuck-free i p [] tr s h (inl b) = absurd (b refl)
  stuck-free i p es tr s h (inr b) = b
  stuck-free i outside (x ∷ xs) tr s h b = refl
  stuck-free i locked (x ∷ xs) tr s h b = absurd (h _ _ refl)
  stuck-free i inside (x ∷ xs) tr s h b = absurd (h _ _ refl)

  stuck-empty :
      (i : ℕ) (p : Phase) (es : List E) (tr : List (E × Option String)) (s : EventServer E)
      → ((u : Sender E) (v : EventServer E) → send i p es tr none s ≢ moves u v)
      → s.mu ≡ false
      → es ≡ []
  stuck-empty i p [] tr s h m = refl
  stuck-empty i outside (x ∷ xs) tr s h m = absurd (
      h (record { phase = locked; waiting = x ∷ xs; tried = tr }) (record s { mu = true })
        (rw m refl))
  stuck-empty i locked (x ∷ xs) tr s h m = absurd (h _ _ refl)
  stuck-empty i inside (x ∷ xs) tr s h m = absurd (h _ _ refl)

  total-zero : (ts : List (Sender E)) → All (λ t. has_mutex t ≡ 0) ts → total has_mutex ts ≡ 0
  total-zero [] h = refl
  total-zero (t ∷ ts) h = omega (arith, h.0, total-zero ts h.1)

  module _ (programs : List (List E)) (s : System E) (safe : IsOrderly programs s)
      (settled : IsSettled s) where
    stuck_at :
        (i : ℕ) (t : Sender E)
        → get_elem? s.senders i ≡ some t
        → (u : Sender E) (v : EventServer E)
        → send i t.phase t.waiting t.tried none s.server ≢ moves u v
    unfolding move
    stuck_at i t e u v = settled i t u none v e

    mutex-free : s.server.mu ≡ false
    mutex-free = one_if-zero s.server.mu (
        sym safe.mutex
        ∙ total-zero s.senders (
            All-pointwise _ s.senders (λ i t e.
              stuck-free i t.phase t.waiting t.tried s.server (stuck_at i t e)
                (All-get_elem? IsBusy s.senders i t safe.busy e))))

    settled-delivered :
        (i : ℕ) (es : List E)
        → get_elem? programs i ≡ some es
        → (t : Sender E) × (get_elem? s.senders i ≡ some t) × Done i es t s.server
    settled-delivered i es e =
        let (t, k) =
          get_elem?-some s.senders i
            (subst (λ n. i < n) (sym safe.count) (get_elem?-lt programs i es e)) in
        let none_left =
          stuck-empty i t.phase t.waiting t.tried s.server (stuck_at i t k) mutex-free in
        (
          t,
          k,
          (
            (sym (append-nil (handed t.tried))
                ∙ (ap (λ ws. handed t.tried ++ ws) (sym none_left)
                    ∙ option_inj (sym (safe.ordered i t k).0 ∙ e))),
            (safe.ordered i t k).1,
          ),
        )

  -- A run of goroutines that send on one stream, and that cannot go on, has handed all events of each of them to
  -- the stream's Send, in its order; on the stream are those of them for which Send returned nil to
  -- the goroutine, and no others of it, in that order.
  pub Run-delivered :
      (programs : List (List E)) (n : ℕ) (s : System E)
      → Run (opened programs) n s
      → IsSettled s
      → (i : ℕ) (es : List E) → get_elem? programs i ≡ some es
      → (t : Sender E) × (get_elem? s.senders i ≡ some t) × Done i es t s.server
  Run-delivered programs n s r settled =
      settled-delivered programs s (Run-IsOrderly programs n s r) settled
