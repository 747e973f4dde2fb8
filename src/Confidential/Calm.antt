-- ===== src/Confidential/Calm.antt =====
-- remit/src/confidential.rs: the confidential transfer does not panic.
use token_22_cts.Prelude.{ℕ, ◌≢◌, Option, List, [], ◌∷◌}
use token_22_cts.Solana.{Bytes, Address, Keypair, Instruction}
use token_22_cts.Error.{panicked}
use token_22_cts.Cluster.{Cluster}
use token_22_cts.Cluster.Recorded.{Log, recorded}
use token_22_cts.Random.{Random, ElGamalKeypair, recorded_random}
use token_22_cts.Token22.{Token22}
use token_22_cts.Transfer.{sub_u64}
use token_22_cts.Proofs.Interface.{ProofInterface}
use token_22_cts.Proofs.Calm.{continue-calm}
use token_22_cts.Confidential.Interface.{ConfidentialInterface, recorded_confidential}
use token_22_cts.Confidential.{ConfidentialKeys, crypto_error}
use token_22_cts.Confidential.Debit.{transfer_inputs}
use token_22_cts.Confidential.Checking.{inputs-Checked}
use token_22_cts.Confidential.Reading.{
  DecodesCalmly, ok-calm, transfer_inputs-calm, crypto_error-calm, sub_u64-calm,
}
use token_22_cts.Confidential.Steady.{BuildsCalmly, run_transfer-calm}
use token_22_cts.Confidential.Transfer.{transfer}

-- Drawing the proofs of a transfer does not panic.
abbrev pub ProvesCalmly : {W : Type 0} → ConfidentialInterface W → Type 0
ProvesCalmly {W} Z =
    (ciphertext decryptable : Bytes) (amount : ℕ) (elgamal : ElGamalKeypair)
    (ae destination : Bytes) (auditor : Option Bytes) (withheld : Bytes) (points maximum : ℕ)
    (w : W)
    → (Z.transfer_with_fee_split_proof_data ciphertext decryptable amount elgamal ae destination
        auditor withheld points maximum w).0
      ≢ panicked

module _ {W : Type 0} (T : Token22) (P : ProofInterface) (Z : ConfidentialInterface W)
    (C : Cluster W) (R : Random W) where
  -- If sending, decoding, drawing the proofs and building the instructions do not panic, a confidential
  -- transfer does not, whatever the cluster answers: the subtraction of the amount never underflows, and
  -- no sum of compute units overflows, also when it clears up after an error.
  pub transfer-calm :
      ((is : List Instruction) (keys : List Keypair) (w : W) → (C.send is keys w).0 ≢ panicked)
      → DecodesCalmly T
      → ProvesCalmly Z
      → BuildsCalmly Z
      → (source destination : Address) (owner : Keypair) (keys : ConfidentialKeys) (amount : ℕ)
        (v : W × Log)
      → (transfer T P
          (recorded_confidential Z)
          (recorded C)
          (recorded_random R)
          source
          destination
          owner
          keys
          amount
          v).0
        ≢ panicked
  unfolding transfer
  transfer-calm sends decodes proves builds source destination owner keys amount v =
      let Zr = recorded_confidential {L = Log} Z in
      let Cr = recorded C in
      continue-calm (transfer_inputs T Zr Cr source destination keys amount v) _ v
        (transfer_inputs-calm T Zr Cr decodes source destination keys amount v)
        λ inputs read.
          let drawn =
            Zr.transfer_with_fee_split_proof_data inputs.available_ciphertext inputs.decryptable
              amount keys.elgamal keys.ae inputs.destination_pubkey inputs.auditor
              inputs.withdraw_withheld inputs.schedule.transfer_fee_basis_points
              inputs.schedule.maximum_fee v in
          continue-calm (crypto_error drawn.0) _ drawn.1
            (crypto_error-calm drawn.0 (
              proves inputs.available_ciphertext inputs.decryptable amount keys.elgamal keys.ae
                inputs.destination_pubkey inputs.auditor inputs.withdraw_withheld
                inputs.schedule.transfer_fee_basis_points inputs.schedule.maximum_fee v.0))
            λ proof proved.
              let checked = inputs-Checked T Zr Cr source destination keys amount v inputs read in
              let (_, _, _, _, covered, _, _, _) = checked in
              continue-calm (sub_u64 inputs.available amount) _ drawn.1
                (sub_u64-calm inputs.available amount covered)
                λ remaining left.
                  let encrypted = Zr.ae_encrypt keys.ae remaining drawn.1 in
                  continue-calm _ _ _
                    (run_transfer-calm T P Z C R sends builds source inputs.mint.address destination
                      owner.pubkey encrypted.0 proof encrypted.1 (owner ∷ []))
                    λ receipt sent. ok-calm
