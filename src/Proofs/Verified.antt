-- ===== src/Proofs/Verified.antt =====
-- remit/src/proofs.rs: what `verify` sends, and which context it remembers.
use token_22_cts.Prelude.{◌+◌, ◌≡◌, ◌⊎◌, true, false, some, List, [], ◌∷◌, ◌++◌, arith}
use token_22_cts.Solana.{Address, Keypair, Instruction}
use token_22_cts.Error.{Result, Error, ok}
use token_22_cts.Cluster.{Cluster, fits_in_one_transaction, with_compute_unit_limit}
use token_22_cts.Cluster.Recorded.{Log, is_ok, recorded}
use token_22_cts.Random.{Random, recorded_random}
use token_22_cts.Proofs.Interface.{ProofInstruction, Proof, ProofInterface}
use token_22_cts.Proofs.Units.{compute_units, overhead_units}
use token_22_cts.Proofs.{ProofAccounts, context_info, create_context_account, verify}

module _ {W : Type 0} (P : ProofInterface) (C : Cluster W) (R : Random W)
    (instruction : ProofInstruction) (proof : Proof) (v : W × Log) (s : ProofAccounts) where
  -- The creation of a context account and the verification of the proof into it.
  abbrev pub verifying : Keypair → List Instruction
  verifying context = with_compute_unit_limit P.wire (compute_units instruction + overhead_units) (
      create_context_account P C R proof.context_len context.pubkey (R.new_keypair v.0).1
      ∷ P.encode_verify_proof instruction (some (context_info context.pubkey (C.payer v.0))) proof
      ∷ [])

  abbrev pub Verifies : Result Address Error × ((W × Log) × ProofAccounts) → Type 0
  Verifies r =
      let context = (R.new_keypair v.0).0 in
      ((is_ok r.0 ≡ false)
        × (r.1.1 ≡ s)
        × (((r.1.0.1 ≡ v.1)
              × (fits_in_one_transaction P.wire (verifying context) (C.payer v.0) ≡ false))
            ⊎ (r.1.0.1
                ≡ record {
                  instructions = verifying context;
                  signers = context ∷ [];
                  landed = false;
                }
                  ∷ v.1)))
      ⊎ ((r.0 ≡ ok context.pubkey)
          × (r.1.1 ≡ record s { contexts = s.contexts ++ (context.pubkey ∷ []) })
          × (fits_in_one_transaction P.wire (verifying context) (C.payer v.0) ≡ true)
          × (r.1.0.1
              ≡ record { instructions = verifying context; signers = context ∷ []; landed = true }
                ∷ v.1))

  -- On every cluster `verify` creates the context account and verifies the proof into it in one
  -- transaction, or not at all. It sends that transaction exactly if it fits in a packet, signed by
  -- the context's key. If it lands, the context is returned and remembered for closing; otherwise the
  -- call fails and the proof accounts are as they were.
  pub verify-Verifies :
      Verifies (verify P (recorded C) (recorded_random R) instruction proof (v, s))
  unfolding verify create_context_account
  verify-Verifies = ground arith
