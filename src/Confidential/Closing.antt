-- ===== src/Confidential/Closing.antt =====
-- remit/src/confidential.rs: a transfer goes through with its proofs, or leaves none of them open.
use token_22_cts.Prelude.{ℕ, ◌+◌, ◌≡◌, refl, List, [], ◌∷◌, arith}
use token_22_cts.Solana.{Address, Keypair, Instruction}
use token_22_cts.Error.{ok}
use token_22_cts.Cluster.{Cluster}
use token_22_cts.Cluster.Recorded.{Log, recorded}
use token_22_cts.Random.{Random, recorded_random}
use token_22_cts.Token22.{Token22}
use token_22_cts.Transfer.{sub_u64}
use token_22_cts.Proofs.Interface.{ProofInterface}
use token_22_cts.Proofs.{ProofAccounts}
use token_22_cts.Confidential.Interface.{
  ConfidentialInterface, TransferProof, recorded_confidential,
}
use token_22_cts.Confidential.{ConfidentialKeys, crypto_error}
use token_22_cts.Confidential.Preparing.{
  Transfers, prepare_transfer-Tracked, prepare_transfer-Transfers,
}
use token_22_cts.Confidential.Checking.{crypto_error-ok}
use token_22_cts.Confidential.Debit.{TransferInputs, transfer_inputs}
use token_22_cts.Confidential.Settling.{Settles, early, late, run_prepared-Settles}
use token_22_cts.Confidential.Transfer.{transfer, prepare_transfer, transfer_with_fee_units}

pub sub_u64-ok : (a b n : ℕ) → sub_u64 a b ≡ ok n → n + b ≡ a
unfolding sub_u64
sub_u64-ok a b n h = ground arith

module _ {W : Type 0} (T : Token22) (P : ProofInterface) (Z : ConfidentialInterface W)
    (C : Cluster W) (R : Random W) where
  -- What is sent for a transfer: the proofs are drawn for this amount and the balance and the keys
  -- that were read, in the mint of the source, and the new decryptable balance is what is left. Each of
  -- these proofs, and no other, was verified or staged for the use that the instructions make of it.
  abbrev pub Debits :
      Address
      → Address
      → Keypair
      → ConfidentialKeys
      → ℕ
      → W × Log
      → W × Log
      → ProofAccounts
      → List Instruction
      → Type 0
  Debits source destination owner keys amount v x accounts instructions =
      (inputs : TransferInputs) × (proof : TransferProof) × (remaining : ℕ) × (u : W)
      × (transfer_inputs T (recorded_confidential Z) (recorded C) source destination keys amount v
          ≡ ok inputs)
      × (Z.transfer_with_fee_split_proof_data inputs.available_ciphertext inputs.decryptable amount
            keys.elgamal keys.ae inputs.destination_pubkey inputs.auditor inputs.withdraw_withheld
            inputs.schedule.transfer_fee_basis_points inputs.schedule.maximum_fee v.0
          ≡ (ok proof, u))
      × (remaining + amount ≡ inputs.available)
      × Transfers T P Z C R source inputs.mint.address destination owner.pubkey
          (Z.ae_encrypt keys.ae remaining u).0 proof ((Z.ae_encrypt keys.ae remaining u).1, v.1) x
          accounts instructions

  -- On every cluster and from every state a confidential transfer ends in one of four ways. It succeeds:
  -- the four sigma proofs that it drew were verified in one transaction each, into the contexts that the
  -- transfer names, and the range proof that it drew was written to a record; and one last transaction
  -- that landed verified the range proof from that record, ran the Token-2022 transfer of the amount with
  -- these five proofs, and closed every context and every record. It fails and has sent nothing. It
  -- panics. Or it fails after exactly the accounts that it had created were handed to `close`: unless
  -- closing them failed too, every one was closed.
  pub transfer-Settles :
      (source destination : Address) (owner : Keypair) (keys : ConfidentialKeys) (amount : ℕ)
      (v : W × Log)
      → Settles P C
          (Debits source destination owner keys amount v)
          (owner ∷ [])
          transfer_with_fee_units
          v.1
          (transfer T P
            (recorded_confidential Z)
            (recorded C)
            (recorded_random R)
            source
            destination
            owner
            keys
            amount
            v)
  unfolding transfer
  transfer-Settles source destination owner keys amount v =
      let Uses = Debits source destination owner keys amount v in
      let Zr = recorded_confidential {L = Log} Z in
      let Cr = recorded C in
      early P C Uses (owner ∷ []) transfer_with_fee_units v.1
        (transfer_inputs T Zr Cr source destination keys amount v) _ v refl
        λ inputs read.
          let drawn =
            Zr.transfer_with_fee_split_proof_data inputs.available_ciphertext inputs.decryptable
              amount keys.elgamal keys.ae inputs.destination_pubkey inputs.auditor
              inputs.withdraw_withheld inputs.schedule.transfer_fee_basis_points
              inputs.schedule.maximum_fee v in
          early P C Uses (owner ∷ []) transfer_with_fee_units v.1 (crypto_error drawn.0) _ drawn.1
            refl
            λ proof proved.
              early P C Uses (owner ∷ []) transfer_with_fee_units v.1
                (sub_u64 inputs.available amount) _ drawn.1 refl
                λ remaining left.
                  let encrypted = Zr.ae_encrypt keys.ae remaining drawn.1 in
                  let mint = inputs.mint.address in
                  late P C Uses (owner ∷ []) transfer_with_fee_units v.1 _ _ (
                    run_prepared-Settles P C Uses (owner ∷ []) transfer_with_fee_units v.1
                      (prepare_transfer T P Zr Cr (recorded_random R) source mint destination
                        owner.pubkey encrypted.0 proof)
                      encrypted.1
                      (prepare_transfer-Tracked T P Z C R source mint destination owner.pubkey
                        encrypted.0 proof encrypted.1)
                      λ instructions h. (
                        inputs,
                        proof,
                        remaining,
                        drawn.1.0,
                        read,
                        (λ i. (crypto_error-ok drawn.0 proved i, drawn.1.0)),
                        sub_u64-ok inputs.available amount remaining left,
                        prepare_transfer-Transfers T P Z C R source mint destination owner.pubkey
                            encrypted.0 proof encrypted.1 instructions h,
                      ))
