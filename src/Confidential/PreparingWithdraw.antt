-- ===== src/Confidential/PreparingWithdraw.antt =====
-- remit/src/confidential.rs: what the preparation of a withdrawal creates and builds.
use token_22_cts.Prelude.{ℕ, ◌≡◌, refl, ap, subst, List, []}
use token_22_cts.Solana.{Bytes, Address, Instruction}
use token_22_cts.Error.{Error, Result, ok}
use token_22_cts.Cluster.{Cluster}
use token_22_cts.Cluster.Inversion.{continue-ok, continue_rule, from_program-ok}
use token_22_cts.Cluster.Recorded.{Log, recorded}
use token_22_cts.Random.{Random, recorded_random}
use token_22_cts.Token22.{Token22}
use token_22_cts.Proofs.Interface.{ProofInterface, verify_batched_range_proof_u64}
use token_22_cts.Proofs.Units.{compute_units}
use token_22_cts.Proofs.{ProofAccounts, no_accounts, stage_from_record}
use token_22_cts.Proofs.Staging.{Stages, stage_from_record-Stages}
use token_22_cts.Proofs.Trail.{started, Tracked}
use token_22_cts.Proofs.Tracking.{stage_from_record-Tracked}
use token_22_cts.Confidential.Interface.{
  ConfidentialInterface, WithdrawProof, instruction_offset, context_state_account,
  recorded_confidential,
}
use token_22_cts.Confidential.Holding.{Holds, stage_from_record-Holds}
use token_22_cts.Confidential.Withdraw.{prepare_withdraw}

module _ {W : Type 0} (T : Token22) (P : ProofInterface) (Z : ConfidentialInterface W)
    (C : Cluster W) (R : Random W) where
  -- The instructions are the withdrawal with exactly this range proof: it was written to a record, from
  -- which its staged verification will read it into the context at the address.
  abbrev pub Withdraws :
      Address
      → Address
      → ℕ
      → Address
      → ℕ
      → Bytes
      → WithdrawProof
      → W × Log
      → W × Log
      → ProofAccounts
      → List Instruction
      → Type 0
  Withdraws token_account mint decimals owner amount balance proof v u accounts instructions =
      (range : Address) × Holds accounts [] range (compute_units verify_batched_range_proof_u64)
      × Stages P C R verify_batched_range_proof_u64 proof.range_proof_data v no_accounts range u
          accounts
      × (Z.withdraw T.id token_account mint amount decimals balance owner []
            (instruction_offset 1 proof.equality_proof_data) (context_state_account range)
          ≡ ok instructions)

  module _ (token_account mint : Address) (decimals : ℕ) (owner : Address) (amount : ℕ)
      (balance : Bytes) (proof : WithdrawProof) (v : W × Log) where
    abbrev preparing_withdraw : Result (List Instruction) Error × ((W × Log) × ProofAccounts)
    preparing_withdraw =
        prepare_withdraw T P (recorded_confidential Z) (recorded C) (recorded_random R)
          token_account mint decimals owner amount balance proof (v, no_accounts)

    abbrev withdraw_run : Result Address Error × ((W × Log) × ProofAccounts)
    withdraw_run =
        stage_from_record P (recorded C) (recorded_random R) verify_batched_range_proof_u64
          proof.range_proof_data (v, no_accounts)

    pub prepare_withdraw-Tracked : Tracked P v.1 preparing_withdraw.1
    unfolding prepare_withdraw
    prepare_withdraw-Tracked =
        let t =
          stage_from_record-Tracked P v.1 C R verify_batched_range_proof_u64 proof.range_proof_data
            v no_accounts (started, tt) in
        continue_rule (Tracked P v.1) withdraw_run.0 _ withdraw_run.1 (λ _. t) λ range _. t

    pub prepare_withdraw-Withdraws :
        (instructions : List Instruction)
        → preparing_withdraw.0 ≡ ok instructions
        → Withdraws token_account mint decimals owner amount balance proof v preparing_withdraw.1.0
            preparing_withdraw.1.1 instructions
    unfolding prepare_withdraw
    prepare_withdraw-Withdraws instructions h =
        let (range, staged, h1) =
          continue-ok withdraw_run.0 _ withdraw_run.1 (λ i. (h i, preparing_withdraw.1)) in
        let held =
          stage_from_record-Holds P C R verify_batched_range_proof_u64 proof.range_proof_data v
            no_accounts [] range withdraw_run.1.0 withdraw_run.1.1 (λ i. (staged i, withdraw_run.1))
            (refl, refl, refl) in
        (
          range,
          subst
              (λ (a : ProofAccounts).
                Holds a [] range (compute_units verify_batched_range_proof_u64))
              (ap (λ r. r.1.1) h1) held,
          subst
              (λ (o : (W × Log) × ProofAccounts).
                Stages P C R verify_batched_range_proof_u64 proof.range_proof_data v no_accounts
                  range o.0 o.1)
              (ap (λ r. r.1) h1)
              (stage_from_record-Stages P C R verify_batched_range_proof_u64 proof.range_proof_data
                v no_accounts range withdraw_run.1.0 withdraw_run.1.1
                (λ i. (staged i, withdraw_run.1))),
          from_program-ok _ (ap (λ r. r.0) h1),
        )
