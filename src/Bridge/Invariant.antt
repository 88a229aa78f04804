-- ===== src/Bridge/Invariant.antt =====
-- What holds of the bridge between any two critical sections.
use native.Mathlib.Decide.{ℕ_discrete}
use criteria_go_adapter_sdk.Base.{
  ℕ, zero, suc, ◌∙◌, ◌≤◌, ◌≡◌, ◌≢◌, ◌⊎◌, true, false, List, [], ◌∷◌, ◌++◌, none, some, arith, All,
  get_elem?, get_elem?-set_ne, get_elem?-set_self, get_elem?-append_left, get_elem?-lt, length, set,
  subst,
}
use criteria_go_adapter_sdk.Bridge.{Entry, Bridge, new_bridge, pointers}
use criteria_go_adapter_sdk.Bridge.Pointers.{Avoids, Distinct}

-- The pointer leads to an entry whose channel is still open.
abbrev pub IsOpen : List Entry → ℕ → Type 0
IsOpen heap p = (e : Entry) × (get_elem? heap p ≡ some e) × (e.done ≡ false)

abbrev pub HasReply : Entry → Type 0
HasReply e = (e.err ≢ none) ⊎ ((e.cancelled ≢ none) ⊎ (e.fragments ≢ []))

abbrev pub IsSettled : Entry → Type 0
IsSettled e = e.done ≡ true → HasReply e

abbrev pub held : Bridge → List ℕ
held b = pointers b.pending ++ b.closing

-- No entry is held twice, each held one is open, and a closed channel means that a reply is there.
pub record Inv (b : Bridge) : Type 0 where
  pub opens : All (IsOpen b.heap) (held b)
  pub distinct : Distinct (held b)
  pub settled : All IsSettled b.heap

pub new_bridge-Inv : Inv new_bridge
unfolding new_bridge
new_bridge-Inv = record { opens = tt; distinct = tt; settled = tt }

pub IsSettled-set :
    (heap : List Entry) (p : ℕ) (e : Entry)
    → IsSettled e
    → All IsSettled heap
    → All IsSettled (set heap p e)
IsSettled-set [] p e s h = h
IsSettled-set (x ∷ heap) zero e s h = (s, h.1)
IsSettled-set (x ∷ heap) (suc p) e s h = (h.0, IsSettled-set heap p e s h.1)

pub IsSettled-get :
    (heap : List Entry) (p : ℕ) (e : Entry)
    → get_elem? heap p ≡ some e
    → All IsSettled heap
    → IsSettled e
IsSettled-get [] p e g h = cc
IsSettled-get (x ∷ heap) zero e g h = ground arith
IsSettled-get (x ∷ heap) (suc p) e g h = IsSettled-get heap p e g h.1

pub opens-set_ne :
    (heap : List Entry) (p : ℕ) (e : Entry) (ps : List ℕ)
    → Avoids p ps
    → All (IsOpen heap) ps
    → All (IsOpen (set heap p e)) ps
opens-set_ne heap p e [] a h = tt
opens-set_ne heap p e (q ∷ ps) a ((d, g, o), h) =
    ((d, get_elem?-set_ne heap p q e a.0 ∙ g, o), opens-set_ne heap p e ps a.1 h)

-- A write that leaves the channel open.
pub opens-set_kept :
    (heap : List Entry) (p : ℕ) (d e : Entry) (ps : List ℕ)
    → get_elem? heap p ≡ some d
    → e.done ≡ d.done
    → All (IsOpen heap) ps
    → All (IsOpen (set heap p e)) ps
opens-set_kept heap p d e [] g k h = tt
opens-set_kept heap p d e (q ∷ ps) g k ((x, gx, o), h) = (
  elim (ℕ_discrete p q) [
    | yes s ↦ (
      e,
      subst (λ r. get_elem? (set heap p e) r ≡ some e) s (get_elem?-set_self heap p e d g),
      k ∙ open_d s,
    )
    | no n ↦ (x, get_elem?-set_ne heap p q e n ∙ gx, o)
  ],
  opens-set_kept heap p d e ps g k h,
)
  where
    open_d : p ≡ q → d.done ≡ false
    open_d s = ground arith

pub opens-append :
    (heap tail : List Entry) (ps : List ℕ) → All (IsOpen heap) ps → All (IsOpen (heap ++ tail)) ps
opens-append heap tail [] h = tt
opens-append heap tail (p ∷ ps) ((e, g, o), h) =
    ((e, get_elem?-append_left heap tail p e g, o), opens-append heap tail ps h)

pub opens-bound :
    (heap : List Entry) (ps : List ℕ) → All (IsOpen heap) ps → All (λ p. suc p ≤ length heap) ps
opens-bound heap [] h = tt
opens-bound heap (p ∷ ps) ((e, g, _), h) = (get_elem?-lt heap p e g, opens-bound heap ps h)
