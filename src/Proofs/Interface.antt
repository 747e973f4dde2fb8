-- ===== src/Proofs/Interface.antt =====
-- What remit/src/proofs.rs calls of the ZK ElGamal Proof program, of `spl-record` and of the system
-- program. Nothing is assumed of these functions.
use token_22_cts.Prelude.{ℕ, Option}
use token_22_cts.Solana.{Bytes, Address, Instruction}
use token_22_cts.Cluster.{Wire}

pub data ProofInstruction : Type 0 where
  close_context_state verify_zero_ciphertext : ProofInstruction
  verify_ciphertext_ciphertext_equality verify_ciphertext_commitment_equality : ProofInstruction
  verify_pubkey_validity verify_percentage_with_cap : ProofInstruction
  verify_batched_range_proof_u64 verify_batched_range_proof_u128 : ProofInstruction
  verify_batched_range_proof_u256 : ProofInstruction
  verify_grouped_ciphertext_2_handles_validity : ProofInstruction
  verify_batched_grouped_ciphertext_2_handles_validity : ProofInstruction
  verify_grouped_ciphertext_3_handles_validity : ProofInstruction
  verify_batched_grouped_ciphertext_3_handles_validity : ProofInstruction

-- `ContextStateInfo`
pub record ContextStateInfo : Type 0 where
  pub context_state_account : Address
  pub context_state_authority : Address

-- A proof `T: Pod + ZkProofData<U>`: its bytes (`bytes_of`), and the size of `ProofContextState<U>`.
pub record Proof : Type 0 where
  pub bytes : Bytes
  pub context_len : ℕ

-- `RecordData::WRITABLE_START_INDEX`, the programs' ids, and the instruction builders.
pub record ProofInterface : Type 0 where
  pub wire : Wire
  pub proof_program : Address
  pub record_program : Address
  pub writable_start_index : ℕ
  pub create_account : Address → Address → ℕ → ℕ → Address → Instruction
  pub encode_verify_proof : ProofInstruction → Option ContextStateInfo → Proof → Instruction
  pub encode_verify_proof_from_account :
      ProofInstruction → Option ContextStateInfo → Address → ℕ → Instruction
  pub close_context_state : ContextStateInfo → Address → Instruction
  pub record_initialize : Address → Address → Instruction
  pub record_write : Address → Address → ℕ → Bytes → Instruction
  pub record_close_account : Address → Address → Address → Instruction
