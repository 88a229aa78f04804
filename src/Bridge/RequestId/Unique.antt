-- ===== src/Bridge/RequestId/Unique.antt =====
-- That no two calls draw the same request id.
use text.Mathlib.TextLemmas.{append_cancel_left, append_assoc}
use criteria_go_adapter_sdk.Base.{
  ℕ, suc, ◌+◌, ◌%◌, ◌^◌, ◌≤◌, ◌<◌, String, ◌<>◌, ◌≡◌, ◌≢◌, sym, ◌∙◌, List, [], ◌∷◌, length, Result,
  ok, err, All, Distinct, arith,
}
use criteria_go_adapter_sdk.Wire.{Bytes}
use criteria_go_adapter_sdk.Bridge.RequestId.{
  encode_to_string, format_uint, new_tool_call_request_id, mint,
}
use criteria_go_adapter_sdk.Bridge.RequestId.Digits.{
  IsByte, format_uint_injective, encode_injective, encode-ne-fallback,
}

-- What rand.Read fills: 16 bytes.
abbrev pub IsDraw : Result String Bytes → Type 0
IsDraw (ok buf) = (length buf ≡ 16) × All IsByte buf
IsDraw (err e) = Unit

-- Two draws that are not the same bytes.
abbrev pub Differ : Result String Bytes → Result String Bytes → Type 0
Differ (ok b) (ok c) = b ≢ c
Differ (ok b) (err e) = Unit
Differ (err e) d = Unit

abbrev pub Apart : List (Result String Bytes) → Type 0
Apart [] = Unit
Apart (d ∷ ds) = All (Differ d) ds × Apart ds

abbrev pub failures : List (Result String Bytes) → ℕ
failures [] = 0
failures (ok b ∷ ds) = failures ds
failures (err e ∷ ds) = suc (failures ds)

hex_id-fallback :
    (buf : Bytes) (n : ℕ)
    → All IsByte buf
    → ("adapter-tool-" <> encode_to_string buf) ≢ ("adapter-tool-fallback-" <> format_uint n)
hex_id-fallback buf n h e = encode-ne-fallback buf (format_uint n) h (
    append_cancel_left "adapter-tool-" (encode_to_string buf) ("fallback-" <> format_uint n)
      (e ∙ append_assoc "adapter-tool-" "fallback-" (format_uint n)))

hex_id_unique :
    (b : Bytes) (ds : List (Result String Bytes)) (f : ℕ)
    → All IsByte b
    → All IsDraw ds
    → All (Differ (ok b)) ds
    → All (λ id. ("adapter-tool-" <> encode_to_string b) ≢ id) (mint ds f)
unfolding mint new_tool_call_request_id
hex_id_unique b [] f h d a = tt
hex_id_unique b (ok c ∷ ds) f h d a = (
  (λ e. a.0 (encode_injective b c h d.0.1 (append_cancel_left "adapter-tool-" _ _ e))),
  hex_id_unique b ds f h d.1 a.1,
)
hex_id_unique b (err x ∷ ds) f h d a =
    (hex_id-fallback b ((f + 1) % 2 ^ 64) h, hex_id_unique b ds ((f + 1) % 2 ^ 64) h d.1 a.1)

fallback_id_unique :
    (k : ℕ) (ds : List (Result String Bytes)) (f : ℕ)
    → k ≤ f
    → f + failures ds < 2 ^ 64
    → All IsDraw ds
    → All (λ id. ("adapter-tool-fallback-" <> format_uint k) ≢ id) (mint ds f)
unfolding mint new_tool_call_request_id
fallback_id_unique k [] f l h d = tt
fallback_id_unique k (ok c ∷ ds) f l h d =
    ((λ e. hex_id-fallback c k d.0.1 (sym e)), fallback_id_unique k ds f l h d.1)
fallback_id_unique k (err x ∷ ds) f l h d =
    let next : ℕ = (f + 1) % 2 ^ 64 in
    let same : next ≡ f + 1 = omega (arith, h) in
    (
      (λ e. later k f l (omega (arith, h)) (append_cancel_left "adapter-tool-fallback-" _ _ e)),
      fallback_id_unique k ds next (omega (arith, same)) (omega (arith, same)) d.1,
    )
  where
    later : (k f : ℕ) → k ≤ f → f + 1 < 2 ^ 64 → format_uint k ≢ format_uint ((f + 1) % 2 ^ 64)
    later k f l h e =
        let same = format_uint_injective k ((f + 1) % 2 ^ 64) (omega arith) (omega arith) e in
        absurd (omega (arith, same))

-- The request ids of calls, by their draws of 16 random bytes and the counter behind a failed one,
-- are pairwise different, provided that no two draws gave the same bytes and the counter does not pass 2 ^ 64.
pub mint-Distinct :
    (ds : List (Result String Bytes)) (f : ℕ)
    → All IsDraw ds
    → Apart ds
    → f + failures ds < 2 ^ 64
    → Distinct (mint ds f)
unfolding mint new_tool_call_request_id
mint-Distinct [] f d a h = tt
mint-Distinct (ok b ∷ ds) f d a h =
    (hex_id_unique b ds f d.0.1 d.1 a.0, mint-Distinct ds f d.1 a.1 h)
mint-Distinct (err x ∷ ds) f d a h =
    let next : ℕ = (f + 1) % 2 ^ 64 in
    let same : next ≡ f + 1 = omega (arith, h) in
    (
      fallback_id_unique next ds next (omega arith) (omega (arith, same)) d.1,
      mint-Distinct ds next d.1 a.1 (omega (arith, same)),
    )
