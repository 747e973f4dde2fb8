-- ===== src/Proofs.antt =====
-- remit/src/proofs.rs: the proof accounts of one confidential operation. The methods take `&mut self`,
-- so they are flows over the world together with the proof accounts; those that take `self` are flows
-- over the world.
pub mod Interface
pub mod Units
pub mod Chunk
pub mod Record
pub mod Filling
pub mod Close
pub mod Consume
pub mod Packing
pub mod Spent
pub mod Spending
pub mod Staging
pub mod Verified
pub mod Finishing
pub mod Trail
pub mod Tracking
pub mod Clearing
pub mod Ending
pub mod Budget
pub mod Calm
pub mod Few
pub mod Rounds
use token_22_cts.Prelude.{
  ℕ, suc, ◌+◌, ◌<◌, ◌^◌, Bool, true, false, not, ◌&&◌, Option, none, some, List, [], ◌∷◌, ◌++◌, map,
  ltb, if◌then◌else◌, length, drop, take,
}
use token_22_cts.Solana.{Bytes, Address, Keypair, Instruction}
use token_22_cts.Error.{
  Error, invalid, does_not_fit_next_to_create, proofs_do_not_fit, Result, ok, err, panicked,
  and_then,
}
use token_22_cts.Cluster.{
  Cluster, Receipt, Flow, pure, fail, lift, gets, ◌>>=◌, ◌>>◌, fits_in_one_transaction,
  with_compute_unit_limit,
}
use token_22_cts.Random.{Random}
use Interface.{ProofInstruction, close_context_state, ContextStateInfo, Proof, ProofInterface}
use Units.{compute_units, overhead_units, record_close_units, record_write_units, sum_u32}
use Chunk.{largest_chunk}
use Record.{fill}

-- `Staged`
pub record Staged : Type 0 where
  pub context : Keypair
  pub tail_write : Option Instruction
  pub create : Instruction
  pub verify : Instruction
  pub units : ℕ

pub record ProofAccounts : Type 0 where
  pub contexts : List Address
  pub records : List Address
  pub staged : List Staged

-- `ProofAccounts::default`
abbrev pub no_accounts : ProofAccounts
no_accounts = record { contexts = []; records = []; staged = [] }

-- A method on `&mut self`, and a step of one that leaves the accounts alone or changes them only.
abbrev pub Method : Type 0 → Type 0 → Type 0
Method W A = Flow (W × ProofAccounts) A

abbrev pub on_world : {W A : Type 0} → Flow W A → Method W A
on_world m (w, s) = let (r, w') = m w in (r, (w', s))

abbrev pub draw : {W A : Type 0} → (W → A × W) → Flow W A
draw f w = let (a, w') = f w in (ok a, w')

abbrev pub modify : {W : Type 0} → (ProofAccounts → ProofAccounts) → Method W (Unit {0})
modify f (w, s) = (ok tt, (w, f s))

abbrev pub context_info : Address → Address → ContextStateInfo
context_info context authority = record {
  context_state_account = context;
  context_state_authority = authority;
}

-- `if test { return Err(e) }`
abbrev pub refuse_if : {W : Type 0} → Bool → Error → Flow W (Unit {0})
refuse_if test e = lift (if test then err e else ok tt)

module _ {W : Type 0} (P : ProofInterface) (C : Cluster W) (R : Random W) where
  unfoldable pub create_context_account : ℕ → Address → W → Instruction
  create_context_account context_len context w =
      P.create_account (C.payer w) context (C.minimum_balance_for_rent_exemption context_len w)
        context_len P.proof_program

  -- `ProofAccounts::verify`
  unfoldable pub verify : ProofInstruction → Proof → Method W Address
  unfolding create_context_account compute_units
  verify instruction proof = do
    payer ← on_world (gets C.payer)
    context ← on_world (draw R.new_keypair)
    create ← on_world (gets (create_context_account proof.context_len context.pubkey))
    let transaction = with_compute_unit_limit P.wire (compute_units instruction + overhead_units) (
        create
        ∷ P.encode_verify_proof instruction (some (context_info context.pubkey payer)) proof
        ∷ [])
    refuse_if (not (fits_in_one_transaction P.wire transaction payer))
        (invalid does_not_fit_next_to_create)
    on_world (C.send transaction (context ∷ []))
    modify (λ s. record s { contexts = s.contexts ++ (context.pubkey ∷ []) })
    pure context.pubkey

  -- `ProofAccounts::stage_from_record`
  unfoldable pub stage_from_record : ProofInstruction → Proof → Method W Address
  unfolding create_context_account compute_units largest_chunk fill
  stage_from_record instruction proof = do
    payer ← on_world (gets C.payer)
    key ← on_world (draw R.new_keypair)
    let account = key.pubkey
    let space = P.writable_start_index + length proof.bytes
    rent ← on_world (gets (C.minimum_balance_for_rent_exemption space))
    let opening = λ (chunk : Bytes).
        P.create_account payer account rent space P.record_program
        ∷ P.record_initialize account payer
        ∷ P.record_write account payer 0 chunk
        ∷ []
    let offset = largest_chunk P.wire payer proof.bytes opening
    on_world (C.send (opening (take offset proof.bytes)) (key ∷ []))
    modify (λ s. record s { records = s.records ++ (account ∷ []) })
    tail_write ← on_world (fill P C payer account proof.bytes (length proof.bytes) offset)
    context ← on_world (draw R.new_keypair)
    create ← on_world (gets (create_context_account proof.context_len context.pubkey))
    modify (λ s. record s {
      staged =
          s.staged
          ++ (record {
            context = context;
            tail_write = tail_write;
            create = create;
            verify =
                P.encode_verify_proof_from_account instruction
                  (some (context_info context.pubkey payer)) account P.writable_start_index;
            units = compute_units instruction;
          }
              ∷ []);
    })
    pure context.pubkey
