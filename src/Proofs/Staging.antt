-- ===== src/Proofs/Staging.antt =====
-- remit/src/proofs.rs: what `stage_from_record` has written when it succeeds.
use token_22_cts.Prelude.{
  ℕ, ◌+◌, ◌≡◌, refl, sym, ap, ◌∙◌, subst, true, Option, some, List, [], ◌∷◌, ◌++◌, length, take,
  arith,
}
use token_22_cts.Solana.{Bytes, Address, Keypair, Instruction}
use token_22_cts.Error.{Error, Result, ok}
use token_22_cts.Cluster.{Cluster, Receipt}
use token_22_cts.Cluster.Inversion.{continue-ok, ok-injective}
use token_22_cts.Cluster.Recorded.{Log, is_ok, recorded}
use token_22_cts.Random.{Random, recorded_random}
use token_22_cts.Proofs.Interface.{ProofInstruction, Proof, ProofInterface}
use token_22_cts.Proofs.Units.{compute_units}
use token_22_cts.Proofs.Chunk.{largest_chunk}
use token_22_cts.Proofs.Record.{fill}
use token_22_cts.Proofs.Filling.{Fills, fill-Fills}
use token_22_cts.Proofs.{
  Staged, ProofAccounts, context_info, create_context_account, stage_from_record,
}

module _ {W : Type 0} (P : ProofInterface) (C : Cluster W) (R : Random W)
    (instruction : ProofInstruction) (proof : Proof) (v : W × Log) (s : ProofAccounts) where
  -- The first transaction for a record account: its creation, its initialization, and a write.
  abbrev pub opening_with : Address → Bytes → List Instruction
  opening_with account chunk =
      let space = P.writable_start_index + length proof.bytes in
      P.create_account (C.payer v.0) account
        (C.minimum_balance_for_rent_exemption space (R.new_keypair v.0).1) space P.record_program
      ∷ P.record_initialize account (C.payer v.0)
      ∷ P.record_write account (C.payer v.0) 0 chunk
      ∷ []

  -- How many bytes that write takes.
  abbrev pub first_len : Address → ℕ
  first_len account = largest_chunk P.wire (C.payer v.0) proof.bytes (opening_with account)

  abbrev pub Stages : Address → W × Log → ProofAccounts → Type 0
  Stages address v' s' =
      (key : Keypair) × (staged : Staged) × (s' ≡ record {
        contexts = s.contexts;
        records = s.records ++ (key.pubkey ∷ []);
        staged = s.staged ++ (staged ∷ []);
      })
      × (staged.context.pubkey ≡ address)
      × (staged.verify
          ≡ P.encode_verify_proof_from_account instruction
              (some (context_info address (C.payer v.0))) key.pubkey P.writable_start_index)
      × ((w : W) × (lamports : ℕ) × (staged.create
            ≡ P.create_account (C.payer w) staged.context.pubkey lamports proof.context_len
                P.proof_program))
      × (staged.units ≡ compute_units instruction)
      × Fills P (C.payer v.0) key.pubkey proof.bytes (first_len key.pubkey)
          (record {
            instructions = opening_with key.pubkey (take (first_len key.pubkey) proof.bytes);
            signers = key ∷ [];
            landed = true;
          }
            ∷ v.1)
          v'.1 staged.tail_write

  refilled :
      (key : Keypair) (tail : Option Instruction) (log' : Log)
      (sent : Result Receipt Error × (W × Log)) (receipt : Receipt)
      (filled : Result (Option Instruction) Error × (W × Log))
      → sent.0 ≡ ok receipt
      → filled.0 ≡ ok tail
      → fill P
          (recorded C)
          (C.payer v.0)
          key.pubkey
          proof.bytes
          (length proof.bytes)
          (first_len key.pubkey)
          sent.1
        ≡ filled
      → sent.1.1
        ≡ record {
          instructions = opening_with key.pubkey (take (first_len key.pubkey) proof.bytes);
          signers = key ∷ [];
          landed = is_ok sent.0;
        }
          ∷ v.1
      → filled.1.1 ≡ log'
      → Fills P
          (C.payer v.0)
          key.pubkey
          proof.bytes
          (first_len key.pubkey)
          (record {
            instructions = opening_with key.pubkey (take (first_len key.pubkey) proof.bytes);
            signers = key ∷ [];
            landed = true;
          }
            ∷ v.1)
          log'
          tail
  refilled key tail log' sent receipt filled landed wrote run logged same =
      let fills =
        fill-Fills P C (C.payer v.0) key.pubkey proof.bytes (length proof.bytes)
          (first_len key.pubkey) tail sent.1 filled.1 (omega arith)
          (run ∙ λ i. (wrote i, filled.1)) in
      subst (λ l. Fills P (C.payer v.0) key.pubkey proof.bytes (first_len key.pubkey) l log' tail)
        (logged ∙ rw landed)
        (subst
          (λ l. Fills P (C.payer v.0) key.pubkey proof.bytes (first_len key.pubkey) sent.1.1 l tail)
          same fills)

  -- When `stage_from_record` succeeds on some cluster, it has created a record account in a first
  -- transaction that landed and carries the first bytes of the proof, and has then written further
  -- chunks in order, each in a transaction of its own that fits in a packet and landed, until the
  -- one write that is kept back holds the rest: with it the account holds the whole proof. The
  -- record is remembered for closing, and one staged proof is added, which creates the context account
  -- that is returned, and whose verification reads the record and writes that account.
  pub stage_from_record-Stages :
      (address : Address) (v' : W × Log) (s' : ProofAccounts)
      → stage_from_record P (recorded C) (recorded_random R) instruction proof (v, s)
        ≡ (ok address, (v', s'))
      → Stages address v' s'
  unfolding stage_from_record create_context_account
  stage_from_record-Stages address v' s' h =
      let key = (R.new_keypair v.0).0 in
      let u : W × Log = ((R.new_keypair v.0).1, v.1) in
      let sent =
        (recorded C).send (opening_with key.pubkey (take (first_len key.pubkey) proof.bytes))
          (key ∷ []) u in
      let (receipt, landed, h1) = continue-ok sent.0 _ (sent.1, s) h in
      let filled =
        fill P (recorded C) (C.payer v.0) key.pubkey proof.bytes (length proof.bytes)
          (first_len key.pubkey) sent.1 in
      let (tail, wrote, h2) =
        continue-ok filled.0 _ (filled.1, record s { records = s.records ++ (key.pubkey ∷ []) })
          h1 in
      let context = (R.new_keypair filled.1.0).0 in
      let same : context.pubkey ≡ address = ok-injective (ap (λ r. r.0) h2) in
      let staged : Staged = record {
        context = context;
        tail_write = tail;
        create =
            create_context_account P (recorded C) (recorded_random R) proof.context_len
              context.pubkey ((R.new_keypair filled.1.0).1, filled.1.1);
        verify =
            P.encode_verify_proof_from_account instruction
              (some (context_info context.pubkey (C.payer v.0))) key.pubkey P.writable_start_index;
        units = compute_units instruction;
      } in
      (
        key,
        staged,
        sym (ap (λ r. r.1.1) h2),
        same,
        ap
            (λ a.
              P.encode_verify_proof_from_account instruction (some (context_info a (C.payer v.0)))
                key.pubkey P.writable_start_index)
            same,
        ((R.new_keypair filled.1.0).1, _, refl),
        refl,
        refilled key tail v'.1 sent receipt filled landed wrote refl refl (ap (λ r. r.1.0.1) h2),
      )
