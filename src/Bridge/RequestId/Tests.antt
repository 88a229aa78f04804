-- ===== src/Bridge/RequestId/Tests.antt =====
-- Two draws, and a failed one between them.
use criteria_go_adapter_sdk.Base.{
  All, ℕ, ◌<◌, String, ◌≡◌, ◌≢◌, refl, List, [], ◌∷◌, Result, ok, err, Distinct, arith,
}
use criteria_go_adapter_sdk.Wire.{Bytes}
use criteria_go_adapter_sdk.Bridge.RequestId.{
  emit_digits, format_uint, new_tool_call_request_id, mint,
}
use criteria_go_adapter_sdk.Bridge.RequestId.Digits.{IsByte}
use criteria_go_adapter_sdk.Bridge.RequestId.Unique.{IsDraw, mint-Distinct}

abbrev draw : ℕ → Bytes
draw n = n ∷ 1 ∷ 2 ∷ 3 ∷ 4 ∷ 5 ∷ 6 ∷ 7 ∷ 8 ∷ 9 ∷ 10 ∷ 11 ∷ 12 ∷ 13 ∷ 14 ∷ 255 ∷ []

abbrev draws : List (Result String Bytes)
draws = ok (draw 0) ∷ err "entropy" ∷ ok (draw 160) ∷ []

ids :
    mint draws 41
    ≡ "adapter-tool-000102030405060708090a0b0c0d0eff" ∷ "adapter-tool-fallback-42"
      ∷ "adapter-tool-a00102030405060708090a0b0c0d0eff" ∷ []
unfolding mint new_tool_call_request_id format_uint emit_digits
ids = refl

draw_ne : draw 0 ≢ draw 160
draw_ne e = ground arith

draw-AllBytes : All IsByte (draw 0)
draw-AllBytes = (
  omega arith,
  (
    omega arith,
    (
      omega arith,
      (
        omega arith,
        (
          omega arith,
          (
            omega arith,
            (
              omega arith,
              (
                omega arith,
                (
                  omega arith,
                  (
                    omega arith,
                    (
                      omega arith,
                      (omega arith, (omega arith, (omega arith, (omega arith, (omega arith, tt))))),
                    ),
                  ),
                ),
              ),
            ),
          ),
        ),
      ),
    ),
  ),
)

draw-IsDraw : (n : ℕ) → n < 256 → IsDraw (ok (draw n))
draw-IsDraw n h = (refl, (h, draw-AllBytes.1))

mint-Distinct_example : Distinct (mint draws 41)
mint-Distinct_example =
    mint-Distinct draws 41 (draw-IsDraw 0 (omega arith), (tt, (draw-IsDraw 160 (omega arith), tt)))
      ((tt, (draw_ne, tt)), ((tt, tt), (tt, tt))) (omega arith)
