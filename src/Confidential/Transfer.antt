-- ===== src/Confidential/Transfer.antt =====
-- remit/src/confidential.rs: the confidential transfer.
use token_22_cts.Prelude.{ℕ, List, [], ◌∷◌}
use token_22_cts.Solana.{Bytes, Address, Keypair, Instruction}
use token_22_cts.Error.{Error, Result}
use token_22_cts.Cluster.{Cluster, Flow, pure, lift, asks, try, ◌>>=◌, ◌>>◌}
use token_22_cts.Random.{ElGamalKeypair, Random}
use token_22_cts.Token22.{Token22}
use token_22_cts.Transfer.{sub_u64}
use token_22_cts.Proofs.Interface.{
  ProofInterface, verify_ciphertext_commitment_equality,
  verify_batched_grouped_ciphertext_3_handles_validity, verify_percentage_with_cap,
  verify_batched_grouped_ciphertext_2_handles_validity, verify_batched_range_proof_u256,
}
use token_22_cts.Proofs.{Method, draw, verify, stage_from_record}
use token_22_cts.Confidential.Interface.{
  ConfidentialInterface, TransferProof, context_state_account,
}
use token_22_cts.Confidential.{ConfidentialKeys, crypto_error, decrypt_lo_hi}
use token_22_cts.Confidential.Debit.{transfer_inputs, run_prepared}

-- `TRANSFER_WITH_FEE_UNITS`
abbrev pub transfer_with_fee_units : ℕ
transfer_with_fee_units = 80_000

pub record ConfidentialTransfer : Type 0 where
  pub amount : ℕ
  pub fee : ℕ
  pub epoch : ℕ
  pub auditor_ciphertext_lo : Bytes
  pub auditor_ciphertext_hi : Bytes

-- `ConfidentialTransfer::audit`
unfoldable pub audit :
    {W : Type 0} → ConfidentialInterface W → ConfidentialTransfer → ElGamalKeypair → Result ℕ Error
unfolding decrypt_lo_hi
audit Z transfer auditor =
    decrypt_lo_hi Z auditor.secret transfer.auditor_ciphertext_lo transfer.auditor_ciphertext_hi

module _ {W : Type 0} (T : Token22) (P : ProofInterface) (Z : ConfidentialInterface W)
    (C : Cluster W) (R : Random W) where
  -- The closure that verifies and stages the proofs and builds the instructions.
  unfoldable pub prepare_transfer :
      Address → Address → Address → Address → Bytes → TransferProof → Method W (List Instruction)
  unfolding verify stage_from_record
  prepare_transfer source mint destination owner new_decryptable proof = do
    equality ← verify P C R verify_ciphertext_commitment_equality proof.equality_proof_data
    amount_validity ←
        verify P C R verify_batched_grouped_ciphertext_3_handles_validity
          proof.amount_validity_proof_data
    fee_sigma ← verify P C R verify_percentage_with_cap proof.percentage_with_cap_proof_data
    fee_validity ←
        verify P C R verify_batched_grouped_ciphertext_2_handles_validity
          proof.fee_validity_proof_data
    range ← stage_from_record P C R verify_batched_range_proof_u256 proof.range_proof_data
    try (
        Z.transfer_with_fee T.id source mint destination new_decryptable proof.ciphertext_lo
          proof.ciphertext_hi owner [] (context_state_account equality)
          (context_state_account amount_validity) (context_state_account fee_sigma)
          (context_state_account fee_validity) (context_state_account range))

  unfoldable pub transfer :
      Address → Address → Keypair → ConfidentialKeys → ℕ → Flow W ConfidentialTransfer
  unfolding transfer_inputs prepare_transfer run_prepared sub_u64
  transfer source destination owner keys amount = do
    inputs ← asks (transfer_inputs T Z C source destination keys amount)
    proof ← λ w.
        let (r, w') =
          Z.transfer_with_fee_split_proof_data inputs.available_ciphertext inputs.decryptable amount
            keys.elgamal keys.ae inputs.destination_pubkey inputs.auditor inputs.withdraw_withheld
            inputs.schedule.transfer_fee_basis_points inputs.schedule.maximum_fee w in
        (crypto_error r, w')
    remaining ← lift (sub_u64 inputs.available amount)
    new_decryptable ← draw (Z.ae_encrypt keys.ae remaining)
    run_prepared P C
        (prepare_transfer source inputs.mint.address destination owner.pubkey new_decryptable proof)
        (owner ∷ []) transfer_with_fee_units
    pure (record {
      amount = amount;
      fee = inputs.fee;
      epoch = inputs.epoch;
      auditor_ciphertext_lo = proof.ciphertext_lo;
      auditor_ciphertext_hi = proof.ciphertext_hi;
    })
