-- ===== src/Confidential/Audit.antt =====
-- remit/src/confidential.rs: the auditor reads the amount of a transfer.
use native.Mathlib.Nat.{div-add-mod'}
use token_22_cts.Prelude.{ℕ, ◌/◌, ◌%◌, ◌^◌, ◌<◌, ◌≡◌, sym, ap, ◌∙◌, subst, Option, some, arith}
use token_22_cts.Solana.{Bytes, Address, Keypair, u64_mod}
use token_22_cts.Error.{ok}
use token_22_cts.Cluster.{Cluster}
use token_22_cts.Cluster.Inversion.{ok-injective}
use token_22_cts.Random.{ElGamalKeypair, Random}
use token_22_cts.Token22.{Token22, ConfidentialTransferMint}
use token_22_cts.State.{AccountSnapshot, MintSnapshot, load_account, load_mint}
use token_22_cts.Proofs.Interface.{ProofInterface}
use token_22_cts.Confidential.Interface.{ConfidentialInterface, TransferProof}
use token_22_cts.Confidential.{ConfidentialKeys, decrypt_u32}
use token_22_cts.Confidential.Balances.{decrypt_lo_hi_iff}
use token_22_cts.Confidential.Checking.{inputs-Checked, transfer-ok}
use token_22_cts.Confidential.Debit.{auditor_key}
use token_22_cts.Confidential.Transfer.{ConfidentialTransfer, audit, transfer}

-- The ciphertexts decrypt, under this secret, to the low bits of the amount and to the rest.
abbrev pub Encrypts : {W : Type 0} → ConfidentialInterface W → Bytes → ℕ → TransferProof → Type 0
Encrypts Z secret n proof =
    (decrypt_u32 Z secret proof.ciphertext_lo ≡ ok (n % 2 ^ Z.transfer_amount_lo_bits))
    × (decrypt_u32 Z secret proof.ciphertext_hi ≡ ok (n / 2 ^ Z.transfer_amount_lo_bits))

-- What the proof crate promises an auditor: whatever it draws a proof from, with this auditor's key,
-- holds the amount for that auditor.
abbrev pub Auditable : {W : Type 0} → ConfidentialInterface W → ElGamalKeypair → Type 0
Auditable {W} Z auditor =
    (ciphertext decryptable : Bytes) (n : ℕ) (elgamal : ElGamalKeypair)
    (ae destination withheld : Bytes) (points maximum : ℕ) (w u : W) (proof : TransferProof)
    → Z.transfer_with_fee_split_proof_data ciphertext decryptable n elgamal ae destination
        (some auditor.pubkey) withheld points maximum w
      ≡ (ok proof, u)
    → Encrypts Z auditor.secret n proof

auditor_key-some :
    {W : Type 0} (T : Token22) (Z : ConfidentialInterface W) (C : Cluster W) (o k : Option Bytes)
    (pod key : Bytes)
    → auditor_key T Z C o ≡ ok k
    → o ≡ some pod
    → Z.elgamal_pubkey_try_from pod ≡ some key
    → k ≡ some key
unfolding auditor_key
auditor_key-some T Z C o k pod key h named parsed = ground arith

some-injective : {A : Type 0} {a b : A} → ◌≡◌ {A = Option A} (some a) (some b) → a ≡ b
some-injective h = cc

module _ {W : Type 0} (T : Token22) (P : ProofInterface) (Z : ConfidentialInterface W)
    (C : Cluster W) (R : Random W) (source destination : Address) (owner : Keypair)
    (keys : ConfidentialKeys) (amount : ℕ) (w : W) where
  -- If the mint of the source names an auditor's key and the proof crate encrypts the amount for it,
  -- then the auditor of a transfer that succeeded reads from it exactly the amount that was sent.
  pub transfer-audit :
      (auditor : ElGamalKeypair) (a : AccountSnapshot) (m : MintSnapshot)
      (confidential_mint : ConfidentialTransferMint) (pod : Bytes) (t : ConfidentialTransfer)
      (w' : W)
      → Auditable Z auditor
      → amount < u64_mod
      → load_account T C source w ≡ ok a
      → load_mint T C a.mint w ≡ ok m
      → m.confidential ≡ some confidential_mint
      → confidential_mint.auditor_elgamal_pubkey ≡ some pod
      → Z.elgamal_pubkey_try_from pod ≡ some auditor.pubkey
      → transfer T P Z C R source destination owner keys amount w ≡ (ok t, w')
      → audit Z t auditor ≡ ok amount
  unfolding audit auditor_key
  transfer-audit auditor a m cm pod t w' promise small la lm has named parsed h =
      let (inputs, proof, u, read, drawn, same) =
        transfer-ok T P Z C R source destination owner keys amount w t w' h in
      let (a', la', lm', balance, enough, quoted, now, (cm', has', key)) =
        inputs-Checked T Z C source destination keys amount w inputs read in
      let one = ok-injective (sym la' ∙ la) in
      let mint =
        ok-injective (sym lm' ∙ ap (λ (x : AccountSnapshot). load_mint T C x.mint w) one ∙ lm) in
      let configured : cm' ≡ cm =
        some-injective (sym has' ∙ ap (λ (x : MintSnapshot). x.confidential) mint ∙ has) in
      let audited =
        auditor_key-some T Z C _ inputs.auditor pod auditor.pubkey key
          (ap (λ (x : ConfidentialTransferMint). x.auditor_elgamal_pubkey) configured ∙ named)
          parsed in
      let (low, high) =
        promise inputs.available_ciphertext inputs.decryptable amount keys.elgamal keys.ae
          inputs.destination_pubkey inputs.withdraw_withheld
          inputs.schedule.transfer_fee_basis_points inputs.schedule.maximum_fee w u proof
          (ap
              (λ k.
                Z.transfer_with_fee_split_proof_data inputs.available_ciphertext inputs.decryptable
                  amount keys.elgamal keys.ae inputs.destination_pubkey k inputs.withdraw_withheld
                  inputs.schedule.transfer_fee_basis_points inputs.schedule.maximum_fee w)
              (sym audited)
            ∙ drawn) in
      let bits = 2 ^ Z.transfer_amount_lo_bits in
      subst (λ x. audit Z x auditor ≡ ok amount) (sym same)
        ((decrypt_lo_hi_iff Z auditor.secret proof.ciphertext_lo proof.ciphertext_hi amount).1
          (amount / bits, amount % bits, high, low, sym (div-add-mod' amount bits), small))
