-- ===== src/Senders/Orderly.antt =====
-- The stream's Send never runs twice at a time, each goroutine's events stay in their order, and none is lost.
use criteria_go_adapter_sdk.Base.{
  length, length-set, subst, option_inj, one_if, ℕ, zero, suc, ◌+◌, ◌≤◌, Bool, true, false, List,
  [], ◌∷◌, ◌++◌, ◌≡◌, ◌≢◌, refl, sym, ap, ◌∙◌, ◌⊎◌, inl, inr, some, get_elem?, set, total,
  total-set, All, All-set, get_elem?-set_cases, num_eq, if◌then◌else◌, arith, Bool-cases, Option,
  String, none,
}
use mathlib.Core.List.{append_assoc, append-nil}
use criteria_go_adapter_sdk.Senders.{
  EventServer, Sender, Phase, outside, locked, inside, send, moves, move, System, Step, picks, Run,
  start, later, starts, opened, sent_by, arrives,
}

num_eq_self : (i : ℕ) → num_eq i i ≡ true
num_eq_self i = ground arith

num_eq-ne : (i j : ℕ) → i ≢ j → num_eq i j ≡ false
num_eq-ne i j h = ground arith

one_if-le : (b : Bool) → one_if b ≤ 1
one_if-le true = omega arith
one_if-le false = omega arith

module _ {ℓ} {E : Type ℓ} where
  abbrev pub is_inside : Sender E → ℕ
  is_inside t = elim t.phase [ inside ↦ 1 | _ ↦ 0 ]

  abbrev pub has_mutex : Sender E → ℕ
  has_mutex t = elim t.phase [ outside ↦ 0 | _ ↦ 1 ]

  abbrev pub IsBusy : Sender E → Type ℓ
  IsBusy t = (t.waiting ≢ []) ⊎ (has_mutex t ≡ 0)

  -- The events whose Send has returned, and those of them for which it returned nil.
  abbrev pub handed : List (E × Option String) → List E
  handed [] = []
  handed ((e, result) ∷ rest) = e ∷ handed rest

  abbrev pub succeeded : List (E × Option String) → List E
  succeeded [] = []
  succeeded ((e, none) ∷ rest) = e ∷ succeeded rest
  succeeded ((e, some failure) ∷ rest) = succeeded rest

  -- The events on the stream and those that a goroutine waits to send, before a move and behind it.
  abbrev pub Passes : ℕ → Sender E → Sender E → EventServer E → EventServer E → Type ℓ
  Passes i t u s v =
      ((v.stream ≡ s.stream) × ((u.waiting ≡ t.waiting) × (u.tried ≡ t.tried)))
      ⊎ ((e : E) × (result : Option String) × (v.stream ≡ s.stream ++ arrives i e result)
          × (t.waiting ≡ e ∷ u.waiting)
          × (u.tried ≡ t.tried ++ (e, result) ∷ []))

  record Effect (i : ℕ) (t u : Sender E) (s v : EventServer E) : Type ℓ where
    mutex : has_mutex u + one_if s.mu ≡ has_mutex t + one_if v.mu
    passes : Passes i t u s v
    busy : IsBusy u

  send-Effect :
      (i : ℕ) (p : Phase) (es : List E) (tr : List (E × Option String)) (o : Option String)
      (u : Sender E) (s v : EventServer E)
      → has_mutex (record { phase = p; waiting = es; tried = tr }) ≤ one_if s.mu
      → send i p es tr o s ≡ moves u v
      → Effect i (record { phase = p; waiting = es; tried = tr }) u s v
  send-Effect i p [] tr o u s v h e = ground arith
  send-Effect i outside (x ∷ xs) tr o u s v h e = elim (Bool-cases s.mu) [
    | inl b ↦ ground arith
    | inr b ↦ ground arith
  ]
  send-Effect i locked (x ∷ xs) tr o u s v h e = ground arith
  send-Effect i inside (x ∷ xs) tr o u s v h e = record {
    mutex = ground arith;
    passes = inr (x, o, ground arith, ground arith, ground arith);
    busy = inr (ground arith);
  }

  move-Effect :
      (i : ℕ) (t u : Sender E) (o : Option String) (s v : EventServer E)
      → has_mutex t ≤ one_if s.mu
      → move i t o s ≡ moves u v
      → Effect i t u s v
  unfolding move
  move-Effect i t u o s v h e = send-Effect i t.phase t.waiting t.tried o u s v h e

  handed-end :
      (tr : List (E × Option String)) (e : E) (o : Option String)
      → handed (tr ++ (e, o) ∷ []) ≡ handed tr ++ e ∷ []
  handed-end [] e o = refl
  handed-end ((x, r) ∷ tr) e o = ap (λ es. x ∷ es) (handed-end tr e o)

  abbrev own : E → Option String → List E
  own e none = e ∷ []
  own e (some failure) = []

  succeeded-end :
      (tr : List (E × Option String)) (e : E) (o : Option String)
      → succeeded (tr ++ (e, o) ∷ []) ≡ succeeded tr ++ own e o
  succeeded-end [] e none = refl
  succeeded-end [] e (some failure) = refl
  succeeded-end ((x, none) ∷ tr) e o = ap (λ es. x ∷ es) (succeeded-end tr e o)
  succeeded-end ((x, some failure) ∷ tr) e o = succeeded-end tr e o

  sent_by-end :
      (i j : ℕ) (e : E) (tr : List (ℕ × E))
      → sent_by i (tr ++ (j, e) ∷ []) ≡ sent_by i tr ++ (if num_eq i j then e ∷ [] else [])
  sent_by-end i j e [] = refl
  sent_by-end i j e ((k, x) ∷ tr) = elim (Bool-cases (num_eq i k)) [
    | inl h ↦ ground (arith, sent_by-end i j e tr)
    | inr h ↦ ground (arith, sent_by-end i j e tr)
  ]

  sent_by-arrives_other :
      (i j : ℕ) (e : E) (o : Option String) (tr : List (ℕ × E))
      → i ≢ j
      → sent_by i (tr ++ arrives j e o) ≡ sent_by i tr
  sent_by-arrives_other i j e none tr ne =
      sent_by-end i j e tr
      ∙ (ap (λ b. sent_by i tr ++ (if b then e ∷ [] else [])) (num_eq-ne i j ne)
          ∙ append-nil (sent_by i tr))
  sent_by-arrives_other i j e (some failure) tr ne = ap (sent_by i) (append-nil tr)

  sent_by-arrives :
      (i : ℕ) (e : E) (o : Option String) (tr : List (ℕ × E))
      → sent_by i (tr ++ arrives i e o) ≡ sent_by i tr ++ own e o
  sent_by-arrives i e none tr =
      sent_by-end i i e tr ∙ ap (λ b. sent_by i tr ++ (if b then e ∷ [] else [])) (num_eq_self i)
  sent_by-arrives i e (some failure) tr =
      ap (sent_by i) (append-nil tr) ∙ sym (append-nil (sent_by i tr))

  -- A move of goroutine j, seen from goroutine i.
  sent_by-other :
      (i j : ℕ) (t u : Sender E) (s v : EventServer E)
      → i ≢ j
      → Passes j t u s v
      → sent_by i v.stream ≡ sent_by i s.stream
  sent_by-other i j t u s v ne (inl (p, _)) = ap (sent_by i) p
  sent_by-other i j t u s v ne (inr (e, o, p, _, _)) =
      ap (sent_by i) p ∙ sent_by-arrives_other i j e o s.stream ne

  sent_by-own :
      (i : ℕ) (t u : Sender E) (s v : EventServer E)
      → Passes i t u s v
      → sent_by i s.stream ≡ succeeded t.tried
      → sent_by i v.stream ≡ succeeded u.tried
  sent_by-own i t u s v (inl (p, (_, q))) h = ap (sent_by i) p ∙ (h ∙ sym (ap succeeded q))
  sent_by-own i t u s v (inr (e, o, p, _, q)) h =
      ap (sent_by i) p
      ∙ (sent_by-arrives i e o s.stream
          ∙ (ap (λ es. es ++ own e o) h ∙ (sym (succeeded-end t.tried e o) ∙ sym (ap succeeded q))))

  handed-own :
      (i : ℕ) (t u : Sender E) (s v : EventServer E)
      → Passes i t u s v
      → handed u.tried ++ u.waiting ≡ handed t.tried ++ t.waiting
  handed-own i t u s v (inl (_, (p, q))) =
      ap (λ tr. handed tr ++ u.waiting) q ∙ ap (λ es. handed t.tried ++ es) p
  handed-own i t u s v (inr (e, o, _, p, q)) =
      ap (λ tr. handed tr ++ u.waiting) q
      ∙ (ap (λ es. es ++ u.waiting) (handed-end t.tried e o)
          ∙ (append_assoc (handed t.tried) (e ∷ []) u.waiting
              ∙ ap (λ es. handed t.tried ++ es) (sym p)))

  -- The stream's Send runs once at a time, the mutex is held by one goroutine or is free, and the events of
  -- each goroutine are, in its order, those whose Send has returned and then those that it still has to
  -- send; on the stream are those of them for which its Send returned nil, in the same order.
  pub record IsOrderly (programs : List (List E)) (s : System E) : Type ℓ where
    pub one_inside : total is_inside s.senders ≤ 1
    pub mutex : total has_mutex s.senders ≡ one_if s.server.mu
    pub ordered :
        (i : ℕ) (t : Sender E)
        → get_elem? s.senders i ≡ some t
        → (get_elem? programs i ≡ some (handed t.tried ++ t.waiting))
          × (sent_by i s.server.stream ≡ succeeded t.tried)
    pub busy : All IsBusy s.senders
    pub count : length s.senders ≡ length programs

  inside-has_mutex :
      (p : Phase) (es : List E) (tr : List (E × Option String))
      → is_inside (record { phase = p; waiting = es; tried = tr })
        ≤ has_mutex (record { phase = p; waiting = es; tried = tr })
  inside-has_mutex outside es tr = omega arith
  inside-has_mutex locked es tr = omega arith
  inside-has_mutex inside es tr = omega arith

  is_inside-has_mutex : (ts : List (Sender E)) → total is_inside ts ≤ total has_mutex ts
  is_inside-has_mutex [] = omega arith
  is_inside-has_mutex (t ∷ ts) =
      omega (arith, is_inside-has_mutex ts, inside-has_mutex t.phase t.waiting t.tried)

  has_mutex-le :
      (ts : List (Sender E)) (i : ℕ) (t : Sender E)
      → get_elem? ts i ≡ some t
      → has_mutex t ≤ total has_mutex ts
  has_mutex-le [] i t e = cc
  has_mutex-le (x ∷ xs) zero t e = omega (arith, ap has_mutex (option_inj e))
  has_mutex-le (x ∷ xs) (suc i) t e = omega (arith, has_mutex-le xs i t e)

  starts-waiting :
      (programs : List (List E)) (i : ℕ) (t : Sender E)
      → get_elem? (starts programs) i ≡ some t
      → (get_elem? programs i ≡ some (handed t.tried ++ t.waiting)) × ([] ≡ succeeded t.tried)
  starts-waiting [] i t e = cc
  starts-waiting (p ∷ ps) zero t e =
      subst (λ u. (some p ≡ some (handed u.tried ++ u.waiting)) × ([] ≡ succeeded u.tried))
        (option_inj e) (refl, refl)
  starts-waiting (p ∷ ps) (suc i) t e = starts-waiting ps i t e

  starts-free :
      (programs : List (List E))
      → (total has_mutex (starts programs) ≡ 0) × All IsBusy (starts programs)
  starts-free [] = (refl, tt)
  starts-free (p ∷ ps) = let (a, b) = starts-free ps in (omega (arith, a), (inr refl, b))

  length-starts : (programs : List (List E)) → length (starts programs) ≡ length programs
  length-starts [] = refl
  length-starts (p ∷ ps) = ap suc (length-starts ps)

  opened-IsOrderly : (programs : List (List E)) → IsOrderly programs (opened programs)
  opened-IsOrderly programs = record {
    one_inside = omega (arith, is_inside-has_mutex (starts programs), (starts-free programs).0);
    mutex = (starts-free programs).0;
    ordered = starts-waiting programs;
    busy = (starts-free programs).1;
    count = length-starts programs;
  }

  abbrev Keeps : List (List E) → List (ℕ × E) → Sender E → ℕ → Type ℓ
  Keeps programs stream t i =
      (get_elem? programs i ≡ some (handed t.tried ++ t.waiting))
      × (sent_by i stream ≡ succeeded t.tried)

  Step-IsOrderly :
      (programs : List (List E)) (s t : System E)
      → IsOrderly programs s
      → Step s t
      → IsOrderly programs t
  Step-IsOrderly programs s _ h (picks j t u {v} o e m) =
      let f =
        move-Effect j t u o s.server v (omega (arith, has_mutex-le s.senders j t e, h.mutex)) m in
      let held = total-set has_mutex s.senders j t u e in
      let mutex : total has_mutex (set s.senders j u) ≡ one_if v.mu =
        omega (arith, held, f.mutex, h.mutex) in
      record {
        one_inside = omega (arith, is_inside-has_mutex (set s.senders j u), mutex, one_if-le v.mu);
        mutex = mutex;
        ordered = λ i w k. elim (get_elem?-set_cases s.senders i j u w k) [
          | inl (p, q) ↦ subst (Keeps programs v.stream w) (sym p) (
              subst (λ x. Keeps programs v.stream x j) q
                (
                  (h.ordered j t e).0 ∙ ap some (sym (handed-own j t u s.server v f.passes)),
                  sent_by-own j t u s.server v f.passes (h.ordered j t e).1,
                ))
          | inr (p, q) ↦ (
            (h.ordered i w q).0,
            sent_by-other i j t u s.server v p f.passes ∙ (h.ordered i w q).1,
          )
        ];
        busy = All-set IsBusy s.senders j u h.busy f.busy;
        count = length-set s.senders j u ∙ h.count;
      }

  -- However the goroutines that send on one stream are interleaved.
  pub Run-IsOrderly :
      (programs : List (List E)) (n : ℕ) (s : System E)
      → Run (opened programs) n s
      → IsOrderly programs s
  Run-IsOrderly programs _ _ start = opened-IsOrderly programs
  Run-IsOrderly programs _ s (later {n} {t} r p) =
      Step-IsOrderly programs t s (Run-IsOrderly programs n t r) p
