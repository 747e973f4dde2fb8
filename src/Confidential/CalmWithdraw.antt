-- ===== src/Confidential/CalmWithdraw.antt =====
-- remit/src/confidential.rs: the withdrawal does not panic.
use token_22_cts.Prelude.{◌+◌, ℕ, ◌≤◌, ◌≢◌, List, [], ◌∷◌, arith}
use token_22_cts.Solana.{Bytes, Address, Keypair, Instruction}
use token_22_cts.Error.{panicked}
use token_22_cts.Cluster.{Cluster}
use token_22_cts.Cluster.Recorded.{Log, recorded}
use token_22_cts.Random.{Random, ElGamalKeypair, recorded_random}
use token_22_cts.Token22.{Token22}
use token_22_cts.State.{load_mint, load_account, require_confidential}
use token_22_cts.Transfer.{sub_u64}
use token_22_cts.Proofs.Interface.{
  ProofInterface, verify_batched_range_proof_u64, verify_ciphertext_commitment_equality,
}
use token_22_cts.Proofs.Calm.{continue-calm}
use token_22_cts.Confidential.Interface.{
  ConfidentialInterface, recorded_confidential, ProofLocation, WithdrawProof,
}
use token_22_cts.Confidential.{
  ConfidentialKeys, crypto_error, elgamal_ciphertext, available_balance,
}
use token_22_cts.Confidential.Debit.{require_covered, run_prepared}
use token_22_cts.Confidential.Reading.{
  DecodesCalmly, ok-calm, ok_or-calm, load_account-calm, load_mint-calm, available_balance-calm,
  require_covered-calm, crypto_error-calm, sub_u64-calm,
}
use token_22_cts.Confidential.Steady.{finish-calm, from_program-calm}
use token_22_cts.Confidential.Withdraw.{
  prepare_withdraw, withdraw_against, withdraw, withdraw_units,
}
use token_22_cts.Confidential.Budgeting.{withdraw-budget}
use token_22_cts.Cluster.Inversion.{continue_rule}
use token_22_cts.Proofs.Units.{compute_units}
use token_22_cts.Proofs.{no_accounts, stage_from_record}
use token_22_cts.Proofs.Few.{Few, stage_from_record-Few, stage_from_record-calm}

-- Drawing the proofs of a withdrawal, and building its instructions, does not panic.
abbrev pub WithdrawsCalmly : {W : Type 0} → ConfidentialInterface W → Type 0
WithdrawsCalmly {W} Z =
    ((ciphertext : Bytes) (balance amount : ℕ) (elgamal : ElGamalKeypair) (w : W)
      → (Z.withdraw_proof_data ciphertext balance amount elgamal w).0 ≢ panicked)
    × ((id account mint : Address) (amount decimals : ℕ) (balance : Bytes) (owner : Address)
          (p1 p2 : ProofLocation)
        → Z.withdraw id account mint amount decimals balance owner [] p1 p2 ≢ panicked)

module _ {W : Type 0} (T : Token22) (P : ProofInterface) (Z : ConfidentialInterface W)
    (C : Cluster W) (R : Random W)
    (sends : (is : List Instruction) (keys : List Keypair) (w : W)
      → (C.send is keys w).0 ≢ panicked)
    (decodes : DecodesCalmly T) (works : WithdrawsCalmly Z) where
  run_withdraw-calm :
      (token_account mint : Address) (decimals : ℕ) (owner : Address) (amount : ℕ) (balance : Bytes)
      (proof : WithdrawProof) (signers : List Keypair) (v : W × Log)
      → (run_prepared P
          (recorded C)
          (prepare_withdraw T P
            (recorded_confidential Z)
            (recorded C)
            (recorded_random R)
            token_account
            mint
            decimals
            owner
            amount
            balance
            proof)
          signers
          (withdraw_units + compute_units verify_ciphertext_commitment_equality)
          v).0
        ≢ panicked
  unfolding run_prepared prepare_withdraw
  run_withdraw-calm token_account mint decimals owner amount balance proof signers v =
      let Rr = recorded_random {L = Log} R in
      let staged =
        stage_from_record P (recorded C) Rr verify_batched_range_proof_u64 proof.range_proof_data
          (v, no_accounts) in
      let preparing =
        prepare_withdraw T P (recorded_confidential Z) (recorded C) Rr token_account mint decimals
          owner amount balance proof (v, no_accounts) in
      let few =
        stage_from_record-Few P C R verify_batched_range_proof_u64 proof.range_proof_data 0 0 v
          no_accounts (omega arith, omega arith) in
      finish-calm P C sends signers _ 0 1 preparing
        (continue-calm staged.0 _ staged.1
          (stage_from_record-calm P (recorded C) Rr (λ is keys u. sends is keys u.0)
            verify_batched_range_proof_u64 proof.range_proof_data v no_accounts)
          (λ range done. from_program-calm _ (works.1 _ _ _ _ _ _ _ _ _)))
        (continue_rule (λ x. Few 0 1 x.1) staged.0 _ staged.1 (λ _. few) (λ range done. few))
        (omega arith)
        λ instructions h.
          (withdraw-budget T P Z C R sends v preparing.1.0 preparing.1.1 instructions signers
            token_account mint decimals owner amount balance proof (λ i. (h i, preparing.1))).2

  withdraw_against-calm :
      (token_account : Address) (owner : Keypair) (keys : ConfidentialKeys) (ciphertext : Bytes)
      (balance amount : ℕ) (v : W × Log)
      → amount ≤ balance
      → (withdraw_against T P
          (recorded_confidential Z)
          (recorded C)
          (recorded_random R)
          token_account
          owner
          keys
          ciphertext
          balance
          amount
          v).0
        ≢ panicked
  unfolding withdraw_against
  withdraw_against-calm token_account owner keys ciphertext balance amount v covered =
      let Zr = recorded_confidential {L = Log} Z in
      let Cr = recorded C in
      continue-calm (load_account T Cr token_account v) _ v
        (load_account-calm T Cr decodes token_account v)
        λ a la.
          continue-calm (load_mint T Cr a.mint v) _ v (load_mint-calm T Cr decodes a.mint v) λ m lm.
            let drawn = Zr.withdraw_proof_data ciphertext balance amount keys.elgamal v in
            continue-calm (crypto_error drawn.0) _ drawn.1
              (crypto_error-calm drawn.0 (works.0 ciphertext balance amount keys.elgamal v.0))
              λ proof proved.
                continue-calm (sub_u64 balance amount) _ drawn.1
                  (sub_u64-calm balance amount covered)
                  λ remaining left.
                    let encrypted = Zr.ae_encrypt keys.ae remaining drawn.1 in
                    continue-calm _ _ _
                      (run_withdraw-calm token_account m.address m.decimals owner.pubkey amount
                        encrypted.0 proof (owner ∷ []) encrypted.1)
                      λ receipt sent. ok-calm

  -- If sending, decoding, drawing the proofs and building the instructions do not panic, a withdrawal
  -- does not, whatever the cluster answers: the subtraction of the amount never underflows, and no sum of
  -- compute units overflows, also when it clears up after an error.
  pub withdraw-calm :
      (token_account : Address) (owner : Keypair) (keys : ConfidentialKeys) (amount : ℕ)
      (v : W × Log)
      → (withdraw T P
          (recorded_confidential Z)
          (recorded C)
          (recorded_random R)
          token_account
          owner
          keys
          amount
          v).0
        ≢ panicked
  unfolding withdraw require_confidential elgamal_ciphertext
  withdraw-calm token_account owner keys amount v =
      let Zr = recorded_confidential {L = Log} Z in
      let Cr = recorded C in
      continue-calm (load_account T Cr token_account v) _ v
        (load_account-calm T Cr decodes token_account v)
        λ a la.
          continue-calm (available_balance Zr a keys) _ v
            (available_balance-calm T Zr Cr decodes token_account token_account keys amount v a)
            λ n has.
              continue-calm (require_covered n amount) _ v
                (require_covered-calm T Zr Cr decodes token_account token_account keys amount v n)
                λ u covered.
                  continue-calm (require_confidential a) _ v (ok_or-calm a.confidential _) λ s ls.
                    continue-calm (elgamal_ciphertext Zr s.available_balance) _ v
                      (ok_or-calm (Z.elgamal_ciphertext_try_from s.available_balance) _)
                      λ ciphertext read.
                        withdraw_against-calm token_account owner keys ciphertext n amount v
                          (ground arith)
