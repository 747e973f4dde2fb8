-- ===== src/Confidential/Withdraw.antt =====
-- remit/src/confidential.rs: withdrawing to the public balance.
use token_22_cts.Prelude.{ℕ, ◌+◌, List, [], ◌∷◌}
use token_22_cts.Solana.{Bytes, Address, Keypair, Instruction}
use token_22_cts.Cluster.{Cluster, Flow, pure, lift, asks, try, ◌>>=◌, ◌>>◌}
use token_22_cts.Random.{Random}
use token_22_cts.Token22.{Token22}
use token_22_cts.State.{load_mint, load_account, require_confidential}
use token_22_cts.Transfer.{sub_u64}
use token_22_cts.Proofs.Interface.{
  ProofInterface, verify_ciphertext_commitment_equality, verify_batched_range_proof_u64,
}
use token_22_cts.Proofs.Units.{compute_units}
use token_22_cts.Proofs.{Method, draw, stage_from_record}
use token_22_cts.Confidential.Interface.{
  ConfidentialInterface, WithdrawProof, instruction_offset, context_state_account,
}
use token_22_cts.Confidential.{
  ConfidentialKeys, crypto_error, available_balance, elgamal_ciphertext,
}
use token_22_cts.Confidential.Debit.{require_covered, run_prepared}

-- `WITHDRAW_UNITS`
abbrev pub withdraw_units : ℕ
withdraw_units = 20_000

module _ {W : Type 0} (T : Token22) (P : ProofInterface) (Z : ConfidentialInterface W)
    (C : Cluster W) (R : Random W) where
  -- The closure that stages the range proof and builds the instructions.
  unfoldable pub prepare_withdraw :
      Address → Address → ℕ → Address → ℕ → Bytes → WithdrawProof → Method W (List Instruction)
  unfolding stage_from_record
  prepare_withdraw token_account mint decimals owner amount new_decryptable proof = do
    range ← stage_from_record P C R verify_batched_range_proof_u64 proof.range_proof_data
    try (
        Z.withdraw T.id token_account mint amount decimals new_decryptable owner []
          (instruction_offset 1 proof.equality_proof_data) (context_state_account range))

  unfoldable pub withdraw_against :
      Address → Keypair → ConfidentialKeys → Bytes → ℕ → ℕ → Flow W (Unit {0})
  unfolding prepare_withdraw run_prepared sub_u64 compute_units
  withdraw_against token_account owner keys balance_ciphertext balance amount = do
    account ← asks (load_account T C token_account)
    mint ← asks (load_mint T C account.mint)
    proof ← λ w.
        let (r, w') = Z.withdraw_proof_data balance_ciphertext balance amount keys.elgamal w in
        (crypto_error r, w')
    remaining ← lift (sub_u64 balance amount)
    new_decryptable ← draw (Z.ae_encrypt keys.ae remaining)
    run_prepared P C
        (prepare_withdraw token_account mint.address mint.decimals owner.pubkey amount
          new_decryptable proof)
        (owner ∷ []) (withdraw_units + compute_units verify_ciphertext_commitment_equality)
    pure tt

  unfoldable pub withdraw : Address → Keypair → ConfidentialKeys → ℕ → Flow W (Unit {0})
  unfolding withdraw_against
  withdraw token_account owner keys amount = do
    account ← asks (load_account T C token_account)
    available ← lift (available_balance Z account keys)
    lift (require_covered available amount)
    state ← lift (require_confidential account)
    available_ciphertext ← lift (elgamal_ciphertext Z state.available_balance)
    withdraw_against token_account owner keys available_ciphertext available amount
