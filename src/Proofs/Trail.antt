-- ===== src/Proofs/Trail.antt =====
-- remit/src/proofs.rs: the steps by which proof accounts come into being, as a relation between logs.
use token_22_cts.Prelude.{ℕ, ◌≡◌, ◌⊎◌, false, true, Option, none, some, List, [], ◌∷◌, ◌++◌, All}
use token_22_cts.Solana.{Bytes, Address, Keypair, Instruction}
use token_22_cts.Cluster.{with_compute_unit_limit}
use token_22_cts.Cluster.Recorded.{Sent, Log}
use token_22_cts.Proofs.Interface.{ProofInstruction, Proof, ProofInterface}
use token_22_cts.Proofs.{Staged, ProofAccounts, context_info}

abbrev pub landed_with : List Instruction → List Keypair → Sent
landed_with is keys = record { instructions = is; signers = keys; landed = true }

-- From the first log to the second these contexts and these records have been created, in this order,
-- and nothing else: a transaction that was refused creates nothing, and a landed one creates and
-- verifies one context, or creates, initializes and begins to fill one record, or fills a record.
pub data Built (P : ProofInterface) (before : Log)
    : Log → List Address → List Address → Type 0 where
  started : Built P before before [] []
  refused :
      {log : Log} {contexts records : List Address}
      → Built P before log contexts records
      → (is : List Instruction) (keys : List Keypair)
      → Built P before
          (record { instructions = is; signers = keys; landed = false } ∷ log)
          contexts
          records
  verified :
      {log : Log} {contexts records : List Address}
      → Built P before log contexts records
      → (context : Keypair) (funder payer : Address) (units lamports space : ℕ)
        (instruction : ProofInstruction) (proof : Proof)
      → Built P before
          (landed_with
              (with_compute_unit_limit P.wire units (
                P.create_account funder context.pubkey lamports space P.proof_program
                ∷ P.encode_verify_proof instruction (some (context_info context.pubkey payer)) proof
                ∷ []))
              (context ∷ [])
            ∷ log)
          (contexts ++ (context.pubkey ∷ []))
          records
  opened :
      {log : Log} {contexts records : List Address}
      → Built P before log contexts records
      → (account : Keypair) (payer : Address) (lamports space : ℕ) (chunk : Bytes)
      → Built P before
          (landed_with
              (P.create_account payer account.pubkey lamports space P.record_program
                ∷ P.record_initialize account.pubkey payer
                ∷ P.record_write account.pubkey payer 0 chunk
                ∷ [])
              (account ∷ [])
            ∷ log)
          contexts
          (records ++ (account.pubkey ∷ []))
  wrote :
      {log : Log} {contexts records : List Address}
      → Built P before log contexts records
      → (account payer : Address) (offset : ℕ) (chunk : Bytes)
      → Built P before
          (landed_with (P.record_write account payer offset chunk ∷ []) [] ∷ log)
          contexts
          records

-- The write that is kept back, if there is one.
abbrev pub IsWrite : ProofInterface → Option Instruction → Type 0
IsWrite P tail =
    (tail ≡ none)
    ⊎ ((account : Address) × (payer : Address) × (offset : ℕ) × (chunk : Bytes) × (tail
          ≡ some (P.record_write account payer offset chunk)))

module _ {W : Type 0} (P : ProofInterface) (before : Log) where
  -- The proof accounts list exactly what has been created, and hold back nothing but writes.
  abbrev pub Tracked : (W × Log) × ProofAccounts → Type 0
  Tracked (v, s) =
      Built P before v.1 s.contexts s.records
      × All (λ (t : Staged). IsWrite P t.tail_write) s.staged
