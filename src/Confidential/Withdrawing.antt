-- ===== src/Confidential/Withdrawing.antt =====
-- remit/src/confidential.rs: a withdrawal goes through with its proof, or leaves nothing open.
use token_22_cts.Prelude.{ℕ, ◌+◌, ◌≡◌, refl, sym, ◌∙◌, subst, List, [], ◌∷◌}
use token_22_cts.Solana.{Bytes, Address, Keypair, Instruction}
use token_22_cts.Error.{ok}
use token_22_cts.Cluster.{Cluster}
use token_22_cts.Cluster.Inversion.{ok-injective}
use token_22_cts.Cluster.Recorded.{Log, recorded}
use token_22_cts.Random.{Random, recorded_random}
use token_22_cts.Token22.{Token22, ConfidentialTransferAccount}
use token_22_cts.State.{
  AccountSnapshot, MintSnapshot, load_mint, load_account, require_confidential,
}
use token_22_cts.Transfer.{sub_u64}
use token_22_cts.Proofs.Interface.{ProofInterface, verify_ciphertext_commitment_equality}
use token_22_cts.Proofs.Units.{compute_units}
use token_22_cts.Proofs.{ProofAccounts}
use token_22_cts.Confidential.Interface.{
  ConfidentialInterface, WithdrawProof, recorded_confidential,
}
use token_22_cts.Confidential.{
  ConfidentialKeys, crypto_error, available_balance, elgamal_ciphertext,
}
use token_22_cts.Confidential.PreparingWithdraw.{
  Withdraws, prepare_withdraw-Tracked, prepare_withdraw-Withdraws,
}
use token_22_cts.Confidential.Checking.{crypto_error-ok}
use token_22_cts.Confidential.Closing.{sub_u64-ok}
use token_22_cts.Confidential.Debit.{require_covered}
use token_22_cts.Confidential.Settling.{Settles, early, late, run_prepared-Settles}
use token_22_cts.Confidential.Withdraw.{
  withdraw, withdraw_against, prepare_withdraw, withdraw_units,
}

module _ {W : Type 0} (T : Token22) (P : ProofInterface) (Z : ConfidentialInterface W)
    (C : Cluster W) (R : Random W) where
  -- What is sent for a withdrawal: the proofs are drawn for this amount and the balance that was
  -- read, and the new decryptable balance is what is left of it.
  abbrev pub Takes :
      Address
      → Keypair
      → ConfidentialKeys
      → ℕ
      → W × Log
      → W × Log
      → ProofAccounts
      → List Instruction
      → Type 0
  Takes token_account owner keys amount v x accounts instructions =
      let Zr = recorded_confidential {L = Log} Z in
      (a : AccountSnapshot) × (m : MintSnapshot) × (state : ConfidentialTransferAccount)
      × (available : ℕ) × (ciphertext : Bytes) × (proof : WithdrawProof) × (remaining : ℕ) × (u : W)
      × (load_account T (recorded C) token_account v ≡ ok a)
      × (load_mint T (recorded C) a.mint v ≡ ok m)
      × (require_confidential a ≡ ok state)
      × (available_balance Zr a keys ≡ ok available)
      × (elgamal_ciphertext Zr state.available_balance ≡ ok ciphertext)
      × (Z.withdraw_proof_data ciphertext available amount keys.elgamal v.0 ≡ (ok proof, u))
      × (remaining + amount ≡ available)
      × Withdraws T P Z C R token_account m.address m.decimals owner.pubkey amount
          (Z.ae_encrypt keys.ae remaining u).0 proof ((Z.ae_encrypt keys.ae remaining u).1, v.1) x
          accounts instructions

  -- On every cluster and from every state a withdrawal ends in one of four ways. It succeeds: the range
  -- proof that it drew was written to a record, and one last transaction that landed verified it from
  -- that record, ran the Token-2022 withdrawal of the amount with it and with the equality proof that it
  -- drew, and closed the range context and the record. It fails and has sent nothing. It panics. Or it
  -- fails after exactly the accounts that it had created were handed to `close`: unless closing them
  -- failed too, every one was closed.
  pub withdraw-Settles :
      (token_account : Address) (owner : Keypair) (keys : ConfidentialKeys) (amount : ℕ)
      (v : W × Log)
      → Settles P C
          (Takes token_account owner keys amount v)
          (owner ∷ [])
          (withdraw_units + compute_units verify_ciphertext_commitment_equality)
          v.1
          (withdraw T P
            (recorded_confidential Z)
            (recorded C)
            (recorded_random R)
            token_account
            owner
            keys
            amount
            v)
  unfolding withdraw withdraw_against
  withdraw-Settles token_account owner keys amount v =
      let Uses = Takes token_account owner keys amount v in
      let Zr = recorded_confidential {L = Log} Z in
      let Cr = recorded C in
      let n = withdraw_units + compute_units verify_ciphertext_commitment_equality in
      early P C Uses (owner ∷ []) n v.1 (load_account T Cr token_account v) _ v refl λ a la.
        early P C Uses (owner ∷ []) n v.1 (available_balance Zr a keys) _ v refl λ available has.
          early P C Uses (owner ∷ []) n v.1 (require_covered available amount) _ v refl λ _ _.
            early P C Uses (owner ∷ []) n v.1 (require_confidential a) _ v refl λ state on.
              early P C Uses (owner ∷ []) n v.1 (elgamal_ciphertext Zr state.available_balance) _ v
                refl
                λ ciphertext parsed.
                  early P C Uses (owner ∷ []) n v.1 (load_account T Cr token_account v) _ v refl
                    λ b lb.
                      early P C Uses (owner ∷ []) n v.1 (load_mint T Cr b.mint v) _ v refl λ m lm.
                        let drawn =
                          Zr.withdraw_proof_data ciphertext available amount keys.elgamal v in
                        early P C Uses (owner ∷ []) n v.1 (crypto_error drawn.0) _ drawn.1 refl
                          λ proof proved.
                            early P C Uses (owner ∷ []) n v.1 (sub_u64 available amount) _ drawn.1
                              refl
                              λ remaining left.
                                let encrypted = Zr.ae_encrypt keys.ae remaining drawn.1 in
                                late P C Uses (owner ∷ []) n v.1 _ _ (
                                  run_prepared-Settles P C Uses (owner ∷ []) n v.1
                                    (prepare_withdraw T P Zr Cr (recorded_random R) token_account
                                      m.address m.decimals owner.pubkey amount encrypted.0 proof)
                                    encrypted.1
                                    (prepare_withdraw-Tracked T P Z C R token_account m.address
                                      m.decimals owner.pubkey amount encrypted.0 proof encrypted.1)
                                    λ instructions h. (
                                      a,
                                      m,
                                      state,
                                      available,
                                      ciphertext,
                                      proof,
                                      remaining,
                                      drawn.1.0,
                                      la,
                                      subst
                                          (λ (x : AccountSnapshot). load_mint T Cr x.mint v ≡ ok m)
                                          (ok-injective (sym lb ∙ la)) lm,
                                      on,
                                      has,
                                      parsed,
                                      (λ i. (crypto_error-ok drawn.0 proved i, drawn.1.0)),
                                      sub_u64-ok available amount remaining left,
                                      prepare_withdraw-Withdraws T P Z C R token_account m.address
                                          m.decimals owner.pubkey amount encrypted.0 proof
                                          encrypted.1 instructions h,
                                    ))
