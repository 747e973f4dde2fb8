-- ===== src/Proofs/Units.antt =====
-- remit/src/proofs.rs: compute units, as `u32` with the overflow checks on.
use token_22_cts.Prelude.{ℕ, ◌+◌, List, [], ◌∷◌, ltb, if◌then◌else◌}
use token_22_cts.Solana.{u32_mod}
use token_22_cts.Error.{Error, Result, ok, panicked, and_then}
use token_22_cts.Proofs.Interface.{
  ProofInstruction, close_context_state, verify_zero_ciphertext,
  verify_ciphertext_ciphertext_equality, verify_ciphertext_commitment_equality,
  verify_pubkey_validity, verify_percentage_with_cap, verify_batched_range_proof_u64,
  verify_batched_range_proof_u128, verify_batched_range_proof_u256,
  verify_grouped_ciphertext_2_handles_validity,
  verify_batched_grouped_ciphertext_2_handles_validity,
  verify_grouped_ciphertext_3_handles_validity,
  verify_batched_grouped_ciphertext_3_handles_validity,
}

-- `OVERHEAD_UNITS`, `RECORD_CLOSE_UNITS`, `RECORD_WRITE_UNITS`
abbrev pub overhead_units : ℕ
overhead_units = 2_000

abbrev pub record_close_units : ℕ
record_close_units = 5_000

abbrev pub record_write_units : ℕ
record_write_units = 2_000

unfoldable pub compute_units : ProofInstruction → ℕ
compute_units close_context_state = 3_300
compute_units verify_zero_ciphertext = 6_000
compute_units verify_ciphertext_ciphertext_equality = 8_000
compute_units verify_ciphertext_commitment_equality = 6_400
compute_units verify_pubkey_validity = 2_600
compute_units verify_percentage_with_cap = 6_500
compute_units verify_batched_range_proof_u64 = 111_000
compute_units verify_batched_range_proof_u128 = 200_000
compute_units verify_batched_range_proof_u256 = 368_000
compute_units verify_grouped_ciphertext_2_handles_validity = 6_400
compute_units verify_batched_grouped_ciphertext_2_handles_validity = 13_000
compute_units verify_grouped_ciphertext_3_handles_validity = 8_100
compute_units verify_batched_grouped_ciphertext_3_handles_validity = 16_400

-- `a + b` on `u32`.
abbrev pub add_u32 : ℕ → ℕ → Result ℕ Error
add_u32 a b = if ltb (a + b) u32_mod then ok (a + b) else panicked

-- A run of `total += units` from a first total.
unfoldable pub sum_u32 : ℕ → List ℕ → Result ℕ Error
sum_u32 total [] = ok total
sum_u32 total (units ∷ rest) = and_then (add_u32 total units) λ t. sum_u32 t rest
