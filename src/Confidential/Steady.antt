-- ===== src/Confidential/Steady.antt =====
-- remit/src/confidential.rs: the preparation of a transfer and the run of what it has prepared do not
-- panic.
use token_22_cts.Prelude.{ℕ, ◌+◌, ◌*◌, ◌<◌, ◌≡◌, ◌≢◌, refl, List, [], arith}
use token_22_cts.Solana.{u32_mod, Bytes, Address, Keypair, Instruction, ProgramError}
use token_22_cts.Error.{Error, Result, ok, err, panicked}
use token_22_cts.Cluster.{Cluster, from_program}
use token_22_cts.Cluster.Inversion.{continue_rule}
use token_22_cts.Cluster.Recorded.{Log, recorded}
use token_22_cts.Random.{Random, recorded_random}
use token_22_cts.Token22.{Token22}
use token_22_cts.Proofs.Interface.{
  ProofInstruction, Proof, ProofInterface, verify_ciphertext_commitment_equality,
  verify_batched_grouped_ciphertext_3_handles_validity, verify_percentage_with_cap,
  verify_batched_grouped_ciphertext_2_handles_validity, verify_batched_range_proof_u256,
}
use token_22_cts.Proofs.{ProofAccounts, no_accounts, verify, stage_from_record}
use token_22_cts.Proofs.Few.{
  Few, Few-Closable, verify-Few, stage_from_record-Few, verify-calm, stage_from_record-calm,
}
use token_22_cts.Proofs.Calm.{continue-calm, close_after-calm}
use token_22_cts.Confidential.Interface.{
  ConfidentialInterface, ProofLocation, TransferProof, recorded_confidential,
}
use token_22_cts.Confidential.Budgeting.{transfer-budget}
use token_22_cts.Proofs.Consume.{consume}
use token_22_cts.Confidential.Debit.{finish, run_prepared}
use token_22_cts.Confidential.Transfer.{prepare_transfer, transfer_with_fee_units}

pub from_program-calm :
    {A : Type 0} (r : Result A ProgramError) → r ≢ panicked → from_program r ≢ panicked
from_program-calm (ok a) h = λ p. cc
from_program-calm (err e) h = λ p. cc
from_program-calm panicked h = absurd (h refl)

-- A prepared debit does not panic if the preparation has not, has created few accounts, and the use of
-- what it has prepared does not.
pub finish-calm :
    {W : Type 0} (P : ProofInterface) (C : Cluster W)
    (calm : (is : List Instruction) (keys : List Keypair) (w : W) → (C.send is keys w).0 ≢ panicked)
    (signers : List Keypair) (units n m : ℕ)
    (r : Result (List Instruction) Error × ((W × Log) × ProofAccounts))
    → r.0 ≢ panicked
    → Few n m r.1.1
    → 3_300 * n + 5_000 * m + 2_000 < u32_mod
    → ((instructions : List Instruction)
        → r.0 ≡ ok instructions
        → (consume P (recorded C) r.1.1 instructions signers units r.1.0).0 ≢ panicked)
    → (finish P (recorded C) r signers units).0 ≢ panicked
unfolding finish
finish-calm P C calm signers units n m (ok instructions, (u, accounts)) h few small uses =
    uses instructions refl
finish-calm P C calm signers units n m (err e, (u, accounts)) h few small uses =
    close_after-calm P (recorded C) (λ is keys w. calm is keys w.0) _ accounts e u
      (Few-Closable P n m (record accounts { staged = [] }) few small)
finish-calm P C calm signers units n m (panicked, (u, accounts)) h few small uses = absurd (h refl)

-- The builder of the transfer's instructions does not panic.
abbrev pub BuildsCalmly : {W : Type 0} → ConfidentialInterface W → Type 0
BuildsCalmly Z =
    (id source mint destination : Address) (balance lo hi : Bytes) (owner : Address)
    (p1 p2 p3 p4 p5 : ProofLocation)
    → Z.transfer_with_fee id source mint destination balance lo hi owner [] p1 p2 p3 p4 p5
      ≢ panicked

module _ {W : Type 0} (T : Token22) (P : ProofInterface) (Z : ConfidentialInterface W)
    (C : Cluster W) (R : Random W)
    (calm : (is : List Instruction) (keys : List Keypair) (w : W) → (C.send is keys w).0 ≢ panicked)
    (builds : BuildsCalmly Z) (source mint destination owner : Address) (balance : Bytes)
    (proof : TransferProof) (v : W × Log) where
  abbrev preparing : Result (List Instruction) Error × ((W × Log) × ProofAccounts)
  preparing =
      prepare_transfer T P (recorded_confidential Z) (recorded C) (recorded_random R) source mint
        destination owner balance proof (v, no_accounts)

  abbrev step :
      ProofInstruction
      → Proof
      → (W × Log) × ProofAccounts
      → Result Address Error × ((W × Log) × ProofAccounts)
  step = verify P (recorded C) (recorded_random R)

  abbrev r1 : Result Address Error × ((W × Log) × ProofAccounts)
  r1 = step verify_ciphertext_commitment_equality proof.equality_proof_data (v, no_accounts)

  abbrev r2 : Result Address Error × ((W × Log) × ProofAccounts)
  r2 =
      step verify_batched_grouped_ciphertext_3_handles_validity proof.amount_validity_proof_data
        r1.1

  abbrev r3 : Result Address Error × ((W × Log) × ProofAccounts)
  r3 = step verify_percentage_with_cap proof.percentage_with_cap_proof_data r2.1

  abbrev r4 : Result Address Error × ((W × Log) × ProofAccounts)
  r4 = step verify_batched_grouped_ciphertext_2_handles_validity proof.fee_validity_proof_data r3.1

  abbrev r5 : Result Address Error × ((W × Log) × ProofAccounts)
  r5 =
      stage_from_record P (recorded C) (recorded_random R) verify_batched_range_proof_u256
        proof.range_proof_data r4.1

  -- Whatever it returns, it has created at most four contexts and one record.
  prepare_transfer-Few : Few 4 1 preparing.1.1
  unfolding prepare_transfer
  prepare_transfer-Few =
      let Q : (W × Log) × ProofAccounts → Type 0 = λ x. Few 4 1 x.1 in
      let f0 : Few 0 0 no_accounts = (omega arith, omega arith) in
      let f1 =
        verify-Few P C R verify_ciphertext_commitment_equality proof.equality_proof_data 0 0 v
          no_accounts f0 in
      let f2 =
        verify-Few P C R verify_batched_grouped_ciphertext_3_handles_validity
          proof.amount_validity_proof_data 1 0 r1.1.0 r1.1.1 f1 in
      let f3 =
        verify-Few P C R verify_percentage_with_cap proof.percentage_with_cap_proof_data 2 0 r2.1.0
          r2.1.1 f2 in
      let f4 =
        verify-Few P C R verify_batched_grouped_ciphertext_2_handles_validity
          proof.fee_validity_proof_data 3 0 r3.1.0 r3.1.1 f3 in
      let f5 =
        stage_from_record-Few P C R verify_batched_range_proof_u256 proof.range_proof_data 4 0
          r4.1.0 r4.1.1 f4 in
      continue_rule Q r1.0 _ r1.1 (λ _. (omega (arith, f1.0), omega (arith, f1.1)))
        λ e1 _.
          continue_rule Q r2.0 _ r2.1 (λ _. (omega (arith, f2.0), omega (arith, f2.1)))
            λ e2 _.
              continue_rule Q r3.0 _ r3.1 (λ _. (omega (arith, f3.0), omega (arith, f3.1)))
                λ e3 _.
                  continue_rule Q r4.0 _ r4.1 (λ _. (omega (arith, f4.0), omega (arith, f4.1)))
                    λ e4 _. continue_rule Q r5.0 _ r5.1 (λ _. f5) λ e5 _. f5

  prepare_transfer-calm : preparing.0 ≢ panicked
  unfolding prepare_transfer
  prepare_transfer-calm =
      let calm' = λ (is : List Instruction) (keys : List Keypair) (u : W × Log). calm is keys u.0 in
      let Rr = recorded_random {L = Log} R in
      continue-calm r1.0 _ r1.1
        (verify-calm P (recorded C) Rr calm' verify_ciphertext_commitment_equality
          proof.equality_proof_data v no_accounts)
        λ e1 _.
          continue-calm r2.0 _ r2.1
            (verify-calm P (recorded C) Rr calm'
              verify_batched_grouped_ciphertext_3_handles_validity proof.amount_validity_proof_data
              r1.1.0 r1.1.1)
            λ e2 _.
              continue-calm r3.0 _ r3.1
                (verify-calm P (recorded C) Rr calm' verify_percentage_with_cap
                  proof.percentage_with_cap_proof_data r2.1.0 r2.1.1)
                λ e3 _.
                  continue-calm r4.0 _ r4.1
                    (verify-calm P (recorded C) Rr calm'
                      verify_batched_grouped_ciphertext_2_handles_validity
                      proof.fee_validity_proof_data r3.1.0 r3.1.1)
                    λ e4 _.
                      continue-calm r5.0 _ r5.1
                        (stage_from_record-calm P (recorded C) Rr calm'
                          verify_batched_range_proof_u256 proof.range_proof_data r4.1.0 r4.1.1)
                        λ e5 _. from_program-calm _ (builds _ _ _ _ _ _ _ _ _ _ _ _ _)

  -- The run of a transfer's preparation does not panic: neither does its last transaction, nor the
  -- clearing after an error.
  pub run_transfer-calm :
      (signers : List Keypair)
      → (run_prepared P
          (recorded C)
          (prepare_transfer T P
            (recorded_confidential Z)
            (recorded C)
            (recorded_random R)
            source
            mint
            destination
            owner
            balance
            proof)
          signers
          transfer_with_fee_units
          v).0
        ≢ panicked
  unfolding run_prepared
  run_transfer-calm signers =
      finish-calm P C calm signers transfer_with_fee_units 4 1 preparing prepare_transfer-calm
        prepare_transfer-Few (omega arith)
        λ instructions h.
          (transfer-budget T P Z C R calm v preparing.1.0 preparing.1.1 instructions signers source
            mint destination owner balance proof (λ i. (h i, preparing.1))).2
