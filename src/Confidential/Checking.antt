-- ===== src/Confidential/Checking.antt =====
-- remit/src/confidential.rs: what the checks of a transfer's inputs have established when they pass.
use token_22_cts.Prelude.{ℕ, String, ◌≤◌, ◌≡◌, some, refl, sym, ap, subst, [], ◌∷◌, arith}
use token_22_cts.Solana.{Address, Keypair}
use token_22_cts.Error.{
  crypto, invalid, no_confidential_mint, no_confidential_fee_config, Result, ok, err, panicked,
  ok_or,
}
use token_22_cts.Cluster.{Cluster}
use token_22_cts.Cluster.Inversion.{continue-ok, and_then-ok, ok-injective, ok_or-ok}
use token_22_cts.Random.{Random}
use token_22_cts.Token22.{Token22, ConfidentialTransferMint}
use token_22_cts.State.{
  AccountSnapshot, load_account, load_mint, require_confidential, require_transfer_fee,
}
use token_22_cts.Transfer.{expected_fee, sub_u64}
use token_22_cts.Proofs.Interface.{ProofInterface}
use token_22_cts.Confidential.Interface.{ConfidentialInterface, TransferProof}
use token_22_cts.Confidential.{
  ConfidentialKeys, available_balance, crypto_error, elgamal_ciphertext,
}
use token_22_cts.Confidential.Debit.{
  run_prepared, TransferInputs, auditor_key, require_covered, transfer_inputs,
}
use token_22_cts.Confidential.Transfer.{
  ConfidentialTransfer, transfer, prepare_transfer, transfer_with_fee_units,
}

pub crypto_error-ok : {A : Type 0} (r : Result A String) {a : A} → crypto_error r ≡ ok a → r ≡ ok a
crypto_error-ok (ok a) h = cc
crypto_error-ok (err e) h = cc
crypto_error-ok panicked h = cc

module _ {W : Type 0} (T : Token22) (Z : ConfidentialInterface W) (C : Cluster W)
    (source destination : Address) (keys : ConfidentialKeys) (amount : ℕ) (w : W) where
  require_covered-le : (n : ℕ) {u : Unit {0}} → require_covered n amount ≡ ok u → amount ≤ n
  require_covered-le n h = ground arith

  -- What the checks of a transfer have established.
  abbrev pub Checked : TransferInputs → Type 0
  Checked inputs =
      (a : AccountSnapshot) × (load_account T C source w ≡ ok a)
      × (load_mint T C a.mint w ≡ ok inputs.mint)
      × (available_balance Z a keys ≡ ok inputs.available)
      × (amount ≤ inputs.available)
      × (expected_fee T inputs.mint (C.epoch w) amount ≡ ok inputs.fee)
      × (inputs.epoch ≡ C.epoch w)
      × ((confidential_mint : ConfidentialTransferMint) × (inputs.mint.confidential
            ≡ some confidential_mint)
          × (auditor_key T Z C confidential_mint.auditor_elgamal_pubkey ≡ ok inputs.auditor))

  pub inputs-Checked :
      (inputs : TransferInputs)
      → transfer_inputs T Z C source destination keys amount w ≡ ok inputs
      → Checked inputs
  unfolding transfer_inputs
  inputs-Checked inputs h =
      let (a, la, h1) = and_then-ok (load_account T C source w) _ h in
      let (b, lb, h2) = and_then-ok (load_account T C destination w) _ h1 in
      let (m, lm, h3) = and_then-ok (load_mint T C a.mint w) _ h2 in
      let (s, ls, h4) = and_then-ok (require_confidential a) _ h3 in
      let (n, has, h5) = and_then-ok (available_balance Z a keys) _ h4 in
      let (u, covered, h6) = and_then-ok (require_covered n amount) _ h5 in
      let (d, ld, h7) = and_then-ok (require_confidential b) _ h6 in
      let (k1, l1, h8) =
        and_then-ok
          (ok_or (Z.elgamal_pubkey_try_from d.elgamal_pubkey)
            (crypto "invalid destination ElGamal pubkey"))
          _ h7 in
      let (cm, l2, h9) = and_then-ok (ok_or m.confidential (invalid no_confidential_mint)) _ h8 in
      let (k3, l3, h10) = and_then-ok (auditor_key T Z C cm.auditor_elgamal_pubkey) _ h9 in
      let (fs, l4, h11) =
        and_then-ok (ok_or m.confidential_fee (invalid no_confidential_fee_config)) _ h10 in
      let (k5, l5, h12) =
        and_then-ok
          (ok_or (Z.elgamal_pubkey_try_from fs.withdraw_withheld_authority_elgamal_pubkey)
            (crypto "invalid withdraw-withheld ElGamal pubkey"))
          _ h11 in
      let (k6, l6, h13) = and_then-ok (require_transfer_fee m) _ h12 in
      let (fee, quoted, h14) = and_then-ok (expected_fee T m (C.epoch w) amount) _ h13 in
      let (k7, l7, h15) = and_then-ok (elgamal_ciphertext Z s.available_balance) _ h14 in
      let (k8, l8, h16) =
        and_then-ok
          (ok_or (Z.ae_ciphertext_try_from s.decryptable_available_balance)
            (crypto "invalid decryptable balance"))
          _ h15 in
      subst Checked (ok-injective h16) (
        a,
        la,
        lm,
        has,
        require_covered-le n covered,
        quoted,
        refl,
        (cm, ok_or-ok m.confidential _ l2, l3),
      )

module _ {W : Type 0} (T : Token22) (P : ProofInterface) (Z : ConfidentialInterface W)
    (C : Cluster W) (R : Random W) (source destination : Address) (owner : Keypair)
    (keys : ConfidentialKeys) (amount : ℕ) (w : W) where
  -- A transfer that succeeded has read its inputs and drawn its proof, and returns what they say.
  abbrev pub Returns : ConfidentialTransfer → Type 0
  Returns t =
      (inputs : TransferInputs) × (proof : TransferProof) × (u : W) × (transfer_inputs T Z C source
          destination keys amount w
        ≡ ok inputs)
      × (Z.transfer_with_fee_split_proof_data inputs.available_ciphertext inputs.decryptable amount
            keys.elgamal keys.ae inputs.destination_pubkey inputs.auditor inputs.withdraw_withheld
            inputs.schedule.transfer_fee_basis_points inputs.schedule.maximum_fee w
          ≡ (ok proof, u))
      × (t ≡ record {
        amount = amount;
        fee = inputs.fee;
        epoch = inputs.epoch;
        auditor_ciphertext_lo = proof.ciphertext_lo;
        auditor_ciphertext_hi = proof.ciphertext_hi;
      })

  pub transfer-ok :
      (t : ConfidentialTransfer) (w' : W)
      → transfer T P Z C R source destination owner keys amount w ≡ (ok t, w')
      → Returns t
  unfolding transfer
  transfer-ok t w' h =
      let (inputs, read, h1) =
        continue-ok (transfer_inputs T Z C source destination keys amount w) _ w h in
      let drawn =
        Z.transfer_with_fee_split_proof_data inputs.available_ciphertext inputs.decryptable amount
          keys.elgamal keys.ae inputs.destination_pubkey inputs.auditor inputs.withdraw_withheld
          inputs.schedule.transfer_fee_basis_points inputs.schedule.maximum_fee w in
      let (proof, l1, h2) = continue-ok (crypto_error drawn.0) _ drawn.1 h1 in
      let (remaining, l2, h3) = continue-ok (sub_u64 inputs.available amount) _ drawn.1 h2 in
      let encrypted = Z.ae_encrypt keys.ae remaining drawn.1 in
      let sent =
        run_prepared P C
          (prepare_transfer T P Z C R source inputs.mint.address destination owner.pubkey
            encrypted.0 proof)
          (owner ∷ []) transfer_with_fee_units encrypted.1 in
      let (receipt, l4, h5) = continue-ok sent.0 _ sent.1 h3 in
      (
        inputs,
        proof,
        drawn.1,
        read,
        (λ i. (crypto_error-ok drawn.0 l1 i, drawn.1)),
        sym (ok-injective (ap (λ r. r.0) h5)),
      )
