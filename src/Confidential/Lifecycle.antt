-- ===== src/Confidential/Lifecycle.antt =====
-- remit/src/confidential.rs: configuring and approving an account, depositing, and applying the pending
-- balance.
use token_22_cts.Prelude.{ℕ, ◌+◌, List, [], ◌∷◌, ltb, if◌then◌else◌}
use token_22_cts.Solana.{Address, Keypair, Instruction, u64_mod}
use token_22_cts.Error.{Error, Result, ok, panicked}
use token_22_cts.Cluster.{Cluster, Flow, pure, lift, gets, asks, try, ◌>>=◌, ◌>>◌}
use token_22_cts.Token22.{
  Token22, Built, confidential_transfer_account, confidential_transfer_fee_amount,
}
use token_22_cts.State.{load_mint, load_account, require_confidential}
use token_22_cts.Proofs.{draw}
use token_22_cts.Confidential.Interface.{ConfidentialInterface, instruction_offset}
use token_22_cts.Confidential.{
  ConfidentialKeys, crypto_error, maximum_pending_balance_credits, available_balance,
  pending_balance,
}

-- `a + b` on `u64`, with the overflow check.
unfoldable pub add_u64 : ℕ → ℕ → Result ℕ Error
add_u64 a b = if ltb (a + b) u64_mod then ok (a + b) else panicked

unfoldable pub reallocate_instruction : Token22 → Address → Address → Address → Built
reallocate_instruction T token_account payer owner =
    T.reallocate T.id token_account payer owner []
      (confidential_transfer_account ∷ confidential_transfer_fee_amount ∷ [])

module _ {W : Type 0} (T : Token22) (Z : ConfidentialInterface W) where
  unfoldable pub configure_instructions :
      Address → Address → Address → ConfidentialKeys → Flow W (List Instruction)
  configure_instructions token_account mint authority keys = do
    proof ←
        λ w. let (r, w') = Z.build_pubkey_validity_proof_data keys.elgamal w in (crypto_error r, w')
    decryptable_zero ← draw (Z.ae_encrypt keys.ae 0)
    try (
        Z.configure_account T.id token_account mint decryptable_zero maximum_pending_balance_credits
          authority [] (instruction_offset 1 proof))

module _ {W : Type 0} (T : Token22) (Z : ConfidentialInterface W) (C : Cluster W) where
  unfoldable pub configure_account : Address → Keypair → ConfidentialKeys → Flow W (Unit {0})
  unfolding reallocate_instruction configure_instructions
  configure_account token_account owner keys = do
    account ← asks (load_account T C token_account)
    payer ← gets C.payer
    reallocate ← try (reallocate_instruction T token_account payer owner.pubkey)
    configure ← configure_instructions T Z token_account account.mint owner.pubkey keys
    C.send (reallocate ∷ configure) (owner ∷ [])
    pure tt

  unfoldable pub approve_account : Address → Keypair → Flow W (Unit {0})
  approve_account token_account confidential_authority = do
    account ← asks (load_account T C token_account)
    instruction ←
        try (Z.approve_account T.id token_account account.mint confidential_authority.pubkey [])
    C.send (instruction ∷ []) (confidential_authority ∷ [])
    pure tt

  unfoldable pub deposit : Address → Keypair → ℕ → Flow W (Unit {0})
  deposit token_account owner amount = do
    account ← asks (load_account T C token_account)
    mint ← asks (load_mint T C account.mint)
    instruction ←
        try (Z.deposit T.id token_account mint.address amount mint.decimals owner.pubkey [])
    C.send (instruction ∷ []) (owner ∷ [])
    pure tt

  unfoldable pub apply_pending_balance : Address → Keypair → ConfidentialKeys → Flow W ℕ
  unfolding add_u64
  apply_pending_balance token_account owner keys = do
    account ← asks (load_account T C token_account)
    available ← lift (available_balance Z account keys)
    pending ← lift (pending_balance Z account keys)
    new_available ← lift (add_u64 available pending)
    new_decryptable ← draw (Z.ae_encrypt keys.ae new_available)
    state ← lift (require_confidential account)
    instruction ← try (
        Z.apply_pending_balance T.id token_account state.pending_balance_credit_counter
          new_decryptable owner.pubkey [])
    C.send (instruction ∷ []) (owner ∷ [])
    pure new_available
