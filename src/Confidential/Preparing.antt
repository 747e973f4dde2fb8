-- ===== src/Confidential/Preparing.antt =====
-- remit/src/confidential.rs: what the preparation of a transfer creates and builds.
use token_22_cts.Prelude.{◌∙◌, ◌≡◌, refl, ap, subst, List, [], ◌∷◌}
use token_22_cts.Solana.{Bytes, Address, Instruction}
use token_22_cts.Error.{Error, Result, ok}
use token_22_cts.Cluster.{Cluster}
use token_22_cts.Cluster.Inversion.{continue-ok, continue_rule, from_program-ok}
use token_22_cts.Cluster.Recorded.{Sent, Log, recorded}
use token_22_cts.Random.{Random, recorded_random}
use token_22_cts.Token22.{Token22}
use token_22_cts.Proofs.Interface.{
  ProofInterface, ProofInstruction, Proof, verify_ciphertext_commitment_equality,
  verify_batched_grouped_ciphertext_3_handles_validity, verify_percentage_with_cap,
  verify_batched_grouped_ciphertext_2_handles_validity, verify_batched_range_proof_u256,
}
use token_22_cts.Proofs.Units.{compute_units}
use token_22_cts.Proofs.{ProofAccounts, no_accounts, verify, stage_from_record}
use token_22_cts.Proofs.Staging.{Stages, stage_from_record-Stages}
use token_22_cts.Proofs.Trail.{started, Tracked}
use token_22_cts.Proofs.Tracking.{verify-Tracked, stage_from_record-Tracked}
use token_22_cts.Confidential.Interface.{
  ConfidentialInterface, TransferProof, context_state_account, recorded_confidential,
}
use token_22_cts.Confidential.Holding.{
  Holds, VerifiedIn, verify-VerifiedIn, verify-Only, stage_from_record-Holds,
}
use token_22_cts.Confidential.Transfer.{prepare_transfer}

module _ {W : Type 0} (T : Token22) (P : ProofInterface) (Z : ConfidentialInterface W)
    (C : Cluster W) (R : Random W) where
  -- The first four proofs were verified one after the other, each in a transaction of its own, into the
  -- contexts at these addresses; then the range proof was written to a record, from which its staged
  -- verification will read it into the context at the last address. Nothing else was sent.
  abbrev pub Proves :
      TransferProof
      → W × Log
      → W × Log
      → ProofAccounts
      → Address
      → Address
      → Address
      → Address
      → Address
      → Type 0
  Proves proof v u accounts equality amount_validity fee_sigma fee_validity range =
      (e1 : Sent) × (e2 : Sent) × (e3 : Sent) × (e4 : Sent) × (x : W × Log) × (s : ProofAccounts)
      × VerifiedIn P C verify_ciphertext_commitment_equality proof.equality_proof_data equality e1
      × VerifiedIn P C verify_batched_grouped_ciphertext_3_handles_validity
          proof.amount_validity_proof_data amount_validity e2
      × VerifiedIn P C verify_percentage_with_cap proof.percentage_with_cap_proof_data fee_sigma e3
      × VerifiedIn P C verify_batched_grouped_ciphertext_2_handles_validity
          proof.fee_validity_proof_data fee_validity e4
      × (x.1 ≡ e4 ∷ e3 ∷ e2 ∷ e1 ∷ v.1)
      × Stages P C R verify_batched_range_proof_u256 proof.range_proof_data x s range u accounts

  -- The instructions are the confidential transfer with exactly these proofs, from the state before they
  -- were verified to the one after.
  abbrev pub Transfers :
      Address
      → Address
      → Address
      → Address
      → Bytes
      → TransferProof
      → W × Log
      → W × Log
      → ProofAccounts
      → List Instruction
      → Type 0
  Transfers source mint destination owner balance proof v u accounts instructions =
      (equality : Address) × (amount_validity : Address) × (fee_sigma : Address)
      × (fee_validity : Address) × (range : Address) × Holds accounts
          (equality ∷ amount_validity ∷ fee_sigma ∷ fee_validity ∷ []) range
          (compute_units verify_batched_range_proof_u256)
      × Proves proof v u accounts equality amount_validity fee_sigma fee_validity range
      × (Z.transfer_with_fee T.id source mint destination balance proof.ciphertext_lo
            proof.ciphertext_hi owner [] (context_state_account equality)
            (context_state_account amount_validity) (context_state_account fee_sigma)
            (context_state_account fee_validity) (context_state_account range)
          ≡ ok instructions)

  module _ (source mint destination owner : Address) (balance : Bytes) (proof : TransferProof)
      (v : W × Log) where
    abbrev preparing : Result (List Instruction) Error × ((W × Log) × ProofAccounts)
    preparing =
        prepare_transfer T P (recorded_confidential Z) (recorded C) (recorded_random R) source mint
          destination owner balance proof (v, no_accounts)

    abbrev step :
        ProofInstruction
        → Proof
        → (W × Log) × ProofAccounts
        → Result Address Error × ((W × Log) × ProofAccounts)
    step = verify P (recorded C) (recorded_random R)

    -- The five proofs, each on what the one before it has left.
    abbrev equality_run : Result Address Error × ((W × Log) × ProofAccounts)
    equality_run =
        step verify_ciphertext_commitment_equality proof.equality_proof_data (v, no_accounts)

    abbrev amount_run : Result Address Error × ((W × Log) × ProofAccounts)
    amount_run =
        step verify_batched_grouped_ciphertext_3_handles_validity proof.amount_validity_proof_data
          equality_run.1

    abbrev fee_run : Result Address Error × ((W × Log) × ProofAccounts)
    fee_run = step verify_percentage_with_cap proof.percentage_with_cap_proof_data amount_run.1

    abbrev fee_validity_run : Result Address Error × ((W × Log) × ProofAccounts)
    fee_validity_run =
        step verify_batched_grouped_ciphertext_2_handles_validity proof.fee_validity_proof_data
          fee_run.1

    abbrev range_run : Result Address Error × ((W × Log) × ProofAccounts)
    range_run =
        stage_from_record P (recorded C) (recorded_random R) verify_batched_range_proof_u256
          proof.range_proof_data fee_validity_run.1

    pub prepare_transfer-Tracked : Tracked P v.1 preparing.1
    unfolding prepare_transfer
    prepare_transfer-Tracked =
        let Q = Tracked P v.1 in
        let t1 =
          verify-Tracked P v.1 C R verify_ciphertext_commitment_equality proof.equality_proof_data v
            no_accounts (started, tt) in
        let t2 =
          verify-Tracked P v.1 C R verify_batched_grouped_ciphertext_3_handles_validity
            proof.amount_validity_proof_data equality_run.1.0 equality_run.1.1 t1 in
        let t3 =
          verify-Tracked P v.1 C R verify_percentage_with_cap proof.percentage_with_cap_proof_data
            amount_run.1.0 amount_run.1.1 t2 in
        let t4 =
          verify-Tracked P v.1 C R verify_batched_grouped_ciphertext_2_handles_validity
            proof.fee_validity_proof_data fee_run.1.0 fee_run.1.1 t3 in
        let t5 =
          stage_from_record-Tracked P v.1 C R verify_batched_range_proof_u256 proof.range_proof_data
            fee_validity_run.1.0 fee_validity_run.1.1 t4 in
        continue_rule Q equality_run.0 _ equality_run.1 (λ _. t1)
          λ e1 _.
            continue_rule Q amount_run.0 _ amount_run.1 (λ _. t2)
              λ e2 _.
                continue_rule Q fee_run.0 _ fee_run.1 (λ _. t3)
                  λ e3 _.
                    continue_rule Q fee_validity_run.0 _ fee_validity_run.1 (λ _. t4)
                      λ e4 _. continue_rule Q range_run.0 _ range_run.1 (λ _. t5) λ e5 _. t5

    pub prepare_transfer-Transfers :
        (instructions : List Instruction)
        → preparing.0 ≡ ok instructions
        → Transfers source mint destination owner balance proof v preparing.1.0 preparing.1.1
            instructions
    unfolding prepare_transfer
    prepare_transfer-Transfers instructions h =
        let (e1, ok1, h1) = continue-ok equality_run.0 _ equality_run.1 (λ i. (h i, preparing.1)) in
        let (e2, ok2, h2) = continue-ok amount_run.0 _ amount_run.1 h1 in
        let (e3, ok3, h3) = continue-ok fee_run.0 _ fee_run.1 h2 in
        let (e4, ok4, h4) = continue-ok fee_validity_run.0 _ fee_validity_run.1 h3 in
        let (e5, ok5, h5) = continue-ok range_run.0 _ range_run.1 h4 in
        let o1 =
          verify-Only P C R verify_ciphertext_commitment_equality proof.equality_proof_data v
            no_accounts [] e1 equality_run.1.0 equality_run.1.1 (λ i. (ok1 i, equality_run.1))
            (refl, refl, refl) in
        let o2 =
          verify-Only P C R verify_batched_grouped_ciphertext_3_handles_validity
            proof.amount_validity_proof_data equality_run.1.0 equality_run.1.1 (e1 ∷ []) e2
            amount_run.1.0 amount_run.1.1 (λ i. (ok2 i, amount_run.1)) o1 in
        let o3 =
          verify-Only P C R verify_percentage_with_cap proof.percentage_with_cap_proof_data
            amount_run.1.0 amount_run.1.1 (e1 ∷ e2 ∷ []) e3 fee_run.1.0 fee_run.1.1
            (λ i. (ok3 i, fee_run.1)) o2 in
        let o4 =
          verify-Only P C R verify_batched_grouped_ciphertext_2_handles_validity
            proof.fee_validity_proof_data fee_run.1.0 fee_run.1.1 (e1 ∷ e2 ∷ e3 ∷ []) e4
            fee_validity_run.1.0 fee_validity_run.1.1 (λ i. (ok4 i, fee_validity_run.1)) o3 in
        let (s1, v1, l1) =
          verify-VerifiedIn P C R verify_ciphertext_commitment_equality proof.equality_proof_data v
            no_accounts [] e1 equality_run.1.0 equality_run.1.1 (λ i. (ok1 i, equality_run.1)) in
        let (s2, v2, l2) =
          verify-VerifiedIn P C R verify_batched_grouped_ciphertext_3_handles_validity
            proof.amount_validity_proof_data equality_run.1.0 equality_run.1.1 [] e2 amount_run.1.0
            amount_run.1.1 (λ i. (ok2 i, amount_run.1)) in
        let (s3, v3, l3) =
          verify-VerifiedIn P C R verify_percentage_with_cap proof.percentage_with_cap_proof_data
            amount_run.1.0 amount_run.1.1 [] e3 fee_run.1.0 fee_run.1.1 (λ i. (ok3 i, fee_run.1)) in
        let (s4, v4, l4) =
          verify-VerifiedIn P C R verify_batched_grouped_ciphertext_2_handles_validity
            proof.fee_validity_proof_data fee_run.1.0 fee_run.1.1 [] e4 fee_validity_run.1.0
            fee_validity_run.1.1 (λ i. (ok4 i, fee_validity_run.1)) in
        let stages =
          stage_from_record-Stages P C R verify_batched_range_proof_u256 proof.range_proof_data
            fee_validity_run.1.0 fee_validity_run.1.1 e5 range_run.1.0 range_run.1.1
            (λ i. (ok5 i, range_run.1)) in
        let held =
          stage_from_record-Holds P C R verify_batched_range_proof_u256 proof.range_proof_data
            fee_validity_run.1.0 fee_validity_run.1.1 (e1 ∷ e2 ∷ e3 ∷ e4 ∷ []) e5 range_run.1.0
            range_run.1.1 (λ i. (ok5 i, range_run.1)) o4 in
        (
          e1,
          e2,
          e3,
          e4,
          e5,
          subst
              (λ (a : ProofAccounts).
                Holds a (e1 ∷ e2 ∷ e3 ∷ e4 ∷ []) e5 (compute_units verify_batched_range_proof_u256))
              (ap (λ r. r.1.1) h5) held,
          (
            s1,
            s2,
            s3,
            s4,
            fee_validity_run.1.0,
            fee_validity_run.1.1,
            v1,
            v2,
            v3,
            v4,
            l4 ∙ ap (◌∷◌ s4) (l3 ∙ ap (◌∷◌ s3) (l2 ∙ ap (◌∷◌ s2) l1)),
            subst
                (λ (o : (W × Log) × ProofAccounts).
                  Stages P C R verify_batched_range_proof_u256 proof.range_proof_data
                    fee_validity_run.1.0 fee_validity_run.1.1 e5 o.0 o.1)
                (ap (λ r. r.1) h5) stages,
          ),
          from_program-ok _ (ap (λ r. r.0) h5),
        )
