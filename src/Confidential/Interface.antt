-- ===== src/Confidential/Interface.antt =====
-- What remit/src/confidential.rs calls of the ZK SDK, of the proof generation crate and of the
-- confidential-transfer instructions. Encryption and proof generation draw from the random source.
-- Nothing is assumed of these functions.
use token_22_cts.Prelude.{ℕ, Option, List, String}
use token_22_cts.Solana.{Bytes, Address, Keypair, ProgramError, Instruction}
use token_22_cts.Error.{Result}
use token_22_cts.Random.{ElGamalKeypair}
use token_22_cts.Token22.{Built}
use token_22_cts.Proofs.Interface.{Proof}

-- `ProofLocation`
pub data ProofLocation : Type 0 where
  instruction_offset : ℕ → Proof → ProofLocation
  context_state_account : Address → ProofLocation

-- What `transfer_with_fee_split_proof_data` gives.
pub record TransferProof : Type 0 where
  pub equality_proof_data : Proof
  pub amount_validity_proof_data : Proof
  pub ciphertext_lo : Bytes
  pub ciphertext_hi : Bytes
  pub percentage_with_cap_proof_data : Proof
  pub fee_validity_proof_data : Proof
  pub range_proof_data : Proof

-- What `withdraw_proof_data` gives.
pub record WithdrawProof : Type 0 where
  pub equality_proof_data : Proof
  pub range_proof_data : Proof

-- An `AeKey` is its bytes. A `try_from` that refuses its bytes gives none.
pub record ConfidentialInterface (W : Type 0) : Type 0 where
  pub transfer_amount_lo_bits : ℕ
  pub derive_confidential_keys : Keypair → Bytes → Result (ElGamalKeypair × Bytes) String
  pub elgamal_ciphertext_try_from : Bytes → Option Bytes
  pub elgamal_pubkey_try_from : Bytes → Option Bytes
  pub ae_ciphertext_try_from : Bytes → Option Bytes
  pub elgamal_decrypt_u32 : Bytes → Bytes → Option ℕ
  pub ae_decrypt : Bytes → Bytes → Option ℕ
  pub ae_encrypt : Bytes → ℕ → W → Bytes × W
  pub build_pubkey_validity_proof_data : ElGamalKeypair → W → Result Proof String × W
  pub transfer_with_fee_split_proof_data :
      Bytes
      → Bytes
      → ℕ
      → ElGamalKeypair
      → Bytes
      → Bytes
      → Option Bytes
      → Bytes
      → ℕ
      → ℕ
      → W
      → Result TransferProof String × W
  pub withdraw_proof_data : Bytes → ℕ → ℕ → ElGamalKeypair → W → Result WithdrawProof String × W
  pub configure_account :
      Address
      → Address
      → Address
      → Bytes
      → ℕ
      → Address
      → List Address
      → ProofLocation
      → Result (List Instruction) ProgramError
  pub approve_account : Address → Address → Address → Address → List Address → Built
  pub deposit : Address → Address → Address → ℕ → ℕ → Address → List Address → Built
  pub apply_pending_balance : Address → Address → ℕ → Bytes → Address → List Address → Built
  pub transfer_with_fee :
      Address
      → Address
      → Address
      → Address
      → Bytes
      → Bytes
      → Bytes
      → Address
      → List Address
      → ProofLocation
      → ProofLocation
      → ProofLocation
      → ProofLocation
      → ProofLocation
      → Result (List Instruction) ProgramError
  pub withdraw :
      Address
      → Address
      → Address
      → ℕ
      → ℕ
      → Bytes
      → Address
      → List Address
      → ProofLocation
      → ProofLocation
      → Result (List Instruction) ProgramError

-- Encrypting and proving on a recorded cluster leaves the log as it is.
abbrev pub keep_log : {W L A : Type 0} → (W → A × W) → W × L → A × (W × L)
keep_log f v = let (a, w) = f v.0 in (a, (w, v.1))

abbrev pub recorded_confidential :
    {W L : Type 0} → ConfidentialInterface W → ConfidentialInterface (W × L)
recorded_confidential Z = record {
  transfer_amount_lo_bits = Z.transfer_amount_lo_bits;
  derive_confidential_keys = Z.derive_confidential_keys;
  elgamal_ciphertext_try_from = Z.elgamal_ciphertext_try_from;
  elgamal_pubkey_try_from = Z.elgamal_pubkey_try_from;
  ae_ciphertext_try_from = Z.ae_ciphertext_try_from;
  elgamal_decrypt_u32 = Z.elgamal_decrypt_u32;
  ae_decrypt = Z.ae_decrypt;
  ae_encrypt = λ key n. keep_log (Z.ae_encrypt key n);
  build_pubkey_validity_proof_data = λ keys. keep_log (Z.build_pubkey_validity_proof_data keys);
  transfer_with_fee_split_proof_data =
      λ ciphertext decryptable amount elgamal ae destination auditor withheld points maximum.
        keep_log (
          Z.transfer_with_fee_split_proof_data ciphertext decryptable amount elgamal ae destination
            auditor withheld points maximum);
  withdraw_proof_data = λ ciphertext balance amount elgamal.
      keep_log (Z.withdraw_proof_data ciphertext balance amount elgamal);
  configure_account = Z.configure_account;
  approve_account = Z.approve_account;
  deposit = Z.deposit;
  apply_pending_balance = Z.apply_pending_balance;
  transfer_with_fee = Z.transfer_with_fee;
  withdraw = Z.withdraw;
}
