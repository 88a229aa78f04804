-- ===== src/Conformance.antt =====
-- adapterhost/conformance.go: one stream's result messages, reduced to the logical result the host
-- would consume. Concatenating the fragments' outputs is criteria-adapter-proto's
-- (JoinExecuteResultOutputs), so it is a parameter.
pub mod Loopback
pub mod Run
mod Chunks
pub mod Framed
pub mod Accepted
pub mod Delivered
pub mod Truncated
pub mod Correlated
mod Tests
use criteria_go_adapter_sdk.Base.{
  require, require_iff, ℕ, zero, suc, ◌+◌, ◌-◌, ◌%◌, ◌^◌, String, Bool, true, false, not, ◌&&◌,
  List, [], ◌∷◌, Option, none, some, Result, ok, err, ◌>>=◌, ◌>>◌, wrap_err, ◌==◌, num_eq,
  if◌then◌else◌, length, get_elem?,
}
use criteria_go_adapter_sdk.Wire.{Bytes, Chunk, ExecuteResult}

-- Each error with the values that its text shows.
pub data JoinError : Type 0 where
  lost : JoinError
  whole_results : ℕ → JoinError
  no_total : JoinError
  wrong_total : ℕ → ℕ → JoinError
  other_total : ℕ → ℕ → ℕ → JoinError
  seq_gap : ℕ → ℕ → JoinError
  no_final : ℕ → JoinError
  early_final : ℕ → ℕ → JoinError
  no_outcome : JoinError
  other_outcome : ℕ → String → String → JoinError
  reassemble : String → JoinError
  -- An index out of range, which panics.
  out_of_range : JoinError

abbrev pub uint32 : ℕ → ℕ
uint32 n = n % 2 ^ 32

-- The getters, which read zero values from a nil chunk.
abbrev pub total_of : ExecuteResult → ℕ
total_of f = elim f.chunk [ none ↦ 0 | some c ↦ c.total ]

abbrev pub seq_of : ExecuteResult → ℕ
seq_of f = elim f.chunk [ none ↦ 0 | some c ↦ c.seq ]

abbrev pub final_of : ExecuteResult → Bool
final_of f = elim f.chunk [ none ↦ false | some c ↦ c.final ]

abbrev pub has_chunk : ExecuteResult → Bool
has_chunk f = elim f.chunk [ none ↦ false | some c ↦ true ]

-- The loop that wants a chunk in each message; `n` messages came.
abbrev pub check_chunked : ℕ → List ExecuteResult → Result JoinError (Unit {0})
check_chunked n [] = ok tt
check_chunked n (f ∷ fs) = if has_chunk f then check_chunked n fs else err (whole_results n)

-- The loop over sequence numbers and totals from position i on. At position 0 the total is the
-- fragment's own, so that its test succeeds there.
abbrev pub check_sequence : ℕ → ℕ → List ExecuteResult → Result JoinError (Unit {0})
check_sequence total i [] = ok tt
check_sequence total i (f ∷ fs) =
    if not (num_eq (total_of f) total)
    then err (other_total i (total_of f) total)
    else if not (num_eq (seq_of f) (uint32 i))
    then err (seq_gap (seq_of f) i)
    else check_sequence total (i + 1) fs

-- The loop over `fragments[:k]`, from position i on.
abbrev pub check_early : ℕ → ℕ → List ExecuteResult → Result JoinError (Unit {0})
check_early zero i fs = ok tt
check_early (suc k) i [] = ok tt
check_early (suc k) i (f ∷ fs) =
    if final_of f then err (early_final i (seq_of f)) else check_early k (i + 1) fs

abbrev pub check_last : ℕ → Option ExecuteResult → Result JoinError (Unit {0})
check_last total none = err out_of_range
check_last total (some f) = require (final_of f) (no_final (total - 1))

-- The loop over the outcomes behind the first.
abbrev pub check_outcomes : String → ℕ → List ExecuteResult → Result JoinError (Unit {0})
check_outcomes outcome i [] = ok tt
check_outcomes outcome i (f ∷ fs) =
    if not (f.outcome == "") && not (f.outcome == outcome)
    then err (other_outcome i f.outcome outcome)
    else check_outcomes outcome (i + 1) fs

abbrev pub whole : String → Bytes → ExecuteResult
whole outcome outputs = record {
  outcome = outcome;
  comment = "";
  outputs_json = outputs;
  chunk = none;
}

-- The checks on a delivery in fragments, `first` before `rest`.
unfoldable pub check_delivery : ExecuteResult → List ExecuteResult → Result JoinError (Unit {0})
check_delivery first rest =
    let fragments = first ∷ rest in
    let total = total_of first in
    do
      check_chunked (length fragments) fragments
      require (not (num_eq total 0)) no_total
      require (num_eq total (uint32 (length fragments))) (wrong_total total (length fragments))
      check_sequence total 0 fragments
      check_last total (get_elem? fragments (total - 1))
      check_early (total - 1) 0 fragments
      require (not (first.outcome == "")) no_outcome
      check_outcomes first.outcome 1 rest

module _ (join_outputs : List ExecuteResult → Result String Bytes) where
  abbrev pub join_chunked : ExecuteResult → List ExecuteResult → Result JoinError ExecuteResult
  join_chunked first rest = do
    check_delivery first rest
    outputs ← wrap_err reassemble (join_outputs (first ∷ rest))
    ok (whole first.outcome outputs)

  abbrev pub join_one : ExecuteResult → Result JoinError ExecuteResult
  join_one first =
      if has_chunk first then join_chunked first [] else ok (whole first.outcome first.outputs_json)

  unfoldable pub join_execute_result_fragments : List ExecuteResult → Result JoinError ExecuteResult
  join_execute_result_fragments [] = err lost
  join_execute_result_fragments (first ∷ []) = join_one first
  join_execute_result_fragments (first ∷ second ∷ rest) = join_chunked first (second ∷ rest)
