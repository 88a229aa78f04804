-- ===== src/Remote/Backoff.antt =====
-- The waits between ServeRemote's attempts.
use criteria_go_adapter_sdk.Base.{
  ℕ, suc, ◌*◌, ◌^◌, ◌≤◌, ◌<◌, min, ◌≡◌, ◌≢◌, refl, sym, ap, subst, ◌∙◌, String, true, false, List,
  [], ◌∷◌, map, some, Result, if◌then◌else◌, ◌==◌, arith, eq_iff, Bool-cases, inl, inr,
}
use native.Mathlib.Nat.{mul_assoc, pow-suc}
use criteria_go_adapter_sdk.Base.Int.{ℤ, pos, int64, double}
use criteria_go_adapter_sdk.Wire.{Bytes}
use criteria_go_adapter_sdk.Remote.{
  ServeRemoteOptions, RemoteHandshake, Attempt, serve_remote_once, or_default, cap, redial,
  redialing, serve_remote, second, returned, host_required, serve_reconnecting, serve_single,
}

-- The wait behind n failures in a row.
abbrev pub backoff : ℕ → ℕ → ℕ → ℕ
backoff initial max n = min (initial * 2 ^ n) max

int64_small : (n : ℕ) → n < 2 ^ 63 → int64 n ≡ pos n
int64_small n h = ground arith

cap-min : (max n : ℕ) → cap (pos max) (pos n) ≡ pos (min n max)
cap-min max n = ground arith

backoff-suc :
    (initial max n : ℕ) → min (backoff initial max n * 2) max ≡ backoff initial max (suc n)
backoff-suc initial max n = rw (pow-suc 2 n) (rw (sym (mul_assoc initial (2 ^ n) 2)) (omega arith))

cap-double :
    (initial max n : ℕ)
    → max < 2 ^ 62
    → cap (pos max) (double (pos (backoff initial max n))) ≡ pos (backoff initial max (suc n))
cap-double initial max n b =
    ap (cap (pos max)) (int64_small (backoff initial max n * 2) (omega arith))
    ∙ (cap-min max (backoff initial max n * 2) ∙ ap pos (backoff-suc initial max n))

backoff-zero : (initial max : ℕ) → initial ≤ max → backoff initial max 0 ≡ initial
backoff-zero initial max h = omega arith

not_empty : (s : String) → s ≢ "" → (s == "") ≡ false
not_empty s h = ground (arith, eq_iff s "")

or_default_lem : (n : ℕ) (d : ℤ) → 0 < n → or_default (pos n) d ≡ pos n
or_default_lem n d h = ground arith

module _ (marshal : RemoteHandshake → Result String Bytes) where
  -- The waits that n failures in a row come before: each is that of the failures since the last
  -- connection, counting none for an attempt that connected.
  abbrev pub waits : ServeRemoteOptions → ℕ → ℕ → ℕ → List Attempt → List ℕ
  waits opts initial max n [] = []
  waits opts initial max n (a ∷ rest) =
      let k = if (serve_remote_once marshal opts a).0 then 0 else n in
      backoff initial max k ∷ waits opts initial max (suc k) rest

  redial-waits :
      (opts : ServeRemoteOptions) (initial max n : ℕ) (attempts : List Attempt)
      → initial ≤ max
      → max < 2 ^ 62
      → redial marshal opts (pos initial) (pos max) (pos (backoff initial max n)) attempts
        ≡ map pos (waits opts initial max n attempts)
  unfolding redial
  redial-waits opts initial max n [] h b = refl
  redial-waits opts initial max n (a ∷ rest) h b =
      elim (Bool-cases (serve_remote_once marshal opts a).0) [
        | inl e ↦ rw e (
            subst
              (λ d.
                (pos d
                  ∷ redial marshal opts (pos initial) (pos max) (cap (pos max) (double (pos d)))
                      rest)
                ≡ map pos (backoff initial max 0 ∷ waits opts initial max 1 rest))
              (backoff-zero initial max h) (step (λ k. redial-waits opts initial max k rest h b) 0))
        | inr e ↦ rw e (step (λ k. redial-waits opts initial max k rest h b) n)
      ]
    where
      step :
          ((k : ℕ)
            → redial marshal opts (pos initial) (pos max) (pos (backoff initial max k)) rest
              ≡ map pos (waits opts initial max k rest))
          → (k : ℕ)
          → (pos (backoff initial max k)
              ∷ redial marshal opts
                  (pos initial)
                  (pos max)
                  (cap (pos max) (double (pos (backoff initial max k))))
                  rest)
            ≡ map pos (backoff initial max k ∷ waits opts initial max (suc k) rest)
      step ih k =
          ap (λ ds. pos (backoff initial max k) ∷ ds)
            (ap (λ d. redial marshal opts (pos initial) (pos max) d rest)
                (cap-double initial max k b)
              ∙ ih (suc k))

  -- With reconnecting, a host, and delays 0 < InitialDelay ≤ MaxDelay < 2 ^ 62 ns, ServeRemote never
  -- returns, and its wait behind the n-th failure in a row is min (InitialDelay * 2 ^ n) MaxDelay,
  -- where an attempt that connected counts as none; the waits do not overflow.
  pub serve_remote-waits :
      (opts : ServeRemoteOptions) (initial max : ℕ) (attempts : List Attempt)
      → opts.host ≢ ""
      → opts.reconnect ≡ true
      → opts.initial_delay ≡ pos initial
      → opts.max_delay ≡ pos max
      → 0 < initial
      → initial ≤ max
      → max < 2 ^ 62
      → serve_remote marshal (some opts) attempts
        ≡ redialing (map pos (waits opts initial max 0 attempts))
  unfolding serve_remote
  serve_remote-waits opts initial max attempts hh hr hi hm p h b =
      ap
        (λ t.
          if t
          then returned (some host_required)
          else if opts.reconnect
          then serve_reconnecting marshal opts attempts
          else serve_single marshal opts attempts)
        (not_empty opts.host hh)
      ∙ (ap
            (λ t.
              if t
              then serve_reconnecting marshal opts attempts
              else serve_single marshal opts attempts)
            hr
          ∙ (ap
                (λ i.
                  redialing (
                    redial marshal opts i (or_default opts.max_delay (pos 30000000000)) i attempts))
                (ap (λ d. or_default d second) hi ∙ or_default_lem initial second p)
              ∙ (ap (λ m. redialing (redial marshal opts (pos initial) m (pos initial) attempts))
                    (ap (λ d. or_default d (pos 30000000000)) hm
                      ∙ or_default_lem max (pos 30000000000) (omega arith))
                  ∙ (ap
                        (λ d.
                          redialing (redial marshal opts (pos initial) (pos max) (pos d) attempts))
                        (sym (backoff-zero initial max h))
                      ∙ ap redialing (redial-waits opts initial max 0 attempts h b)))))
