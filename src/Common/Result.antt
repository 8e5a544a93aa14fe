-- ===== src/Common/Result.antt =====
-- `struct OperationResult` of include/disping_types.hpp.
use Prim.Native.Nat.{ℕ}
use Prim.Native.String.{String}
use mathlib.Core.Bool.{Bool, false}

pub record OperationResult : Type 0 where
  pub success : Bool
  pub message : String
  pub details : String
  pub error_code : ℕ

-- `OperationResult r;`, the defaults of the struct.
abbrev pub fresh_result : OperationResult
fresh_result = record { success = false; message = ""; details = ""; error_code = 0 }

abbrev pub result : Bool → String → OperationResult
result ok text = record fresh_result { success = ok; message = text }
