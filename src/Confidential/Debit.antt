-- ===== src/Confidential/Debit.antt =====
-- remit/src/confidential.rs: what the two confidential debits share: the checks of a transfer's inputs,
-- and the run of the prepared instructions.
use token_22_cts.Prelude.{ℕ, Option, none, some, List, ltb, if◌then◌else◌}
use token_22_cts.Solana.{Bytes, Address, Keypair, Instruction}
use token_22_cts.Error.{
  Error, crypto, invalid, insufficient_confidential_balance, no_confidential_mint,
  no_confidential_fee_config, Result, ok, err, panicked, and_then, ok_or,
}
use token_22_cts.Cluster.{Cluster, Receipt, Flow}
use token_22_cts.Token22.{Token22, TransferFee}
use token_22_cts.State.{
  MintSnapshot, load_mint, load_account, require_confidential, require_transfer_fee,
}
use token_22_cts.Transfer.{expected_fee}
use token_22_cts.Proofs.Interface.{ProofInterface}
use token_22_cts.Proofs.{ProofAccounts, no_accounts, Method}
use token_22_cts.Proofs.Close.{close_after}
use token_22_cts.Proofs.Consume.{consume}
use token_22_cts.Confidential.Interface.{ConfidentialInterface}
use token_22_cts.Confidential.{ConfidentialKeys, available_balance, elgamal_ciphertext}

-- What `transfer` reads and checks before it draws its proofs.
pub record TransferInputs : Type 0 where
  pub mint : MintSnapshot
  pub available : ℕ
  pub destination_pubkey : Bytes
  pub auditor : Option Bytes
  pub withdraw_withheld : Bytes
  pub epoch : ℕ
  pub schedule : TransferFee
  pub fee : ℕ
  pub available_ciphertext : Bytes
  pub decryptable : Bytes

-- `if available < amount { return Err(..) }`
abbrev pub require_covered : ℕ → ℕ → Result (Unit {0}) Error
require_covered available amount =
    if ltb available amount then err (insufficient_confidential_balance available amount) else ok tt

module _ {W : Type 0} (T : Token22) (Z : ConfidentialInterface W) (C : Cluster W) where
  -- `.get().map(ElGamalPubkey::try_from).transpose()`
  unfoldable pub auditor_key : Option Bytes → Result (Option Bytes) Error
  auditor_key none = ok none
  auditor_key (some key) =
      and_then (ok_or (Z.elgamal_pubkey_try_from key) (crypto "invalid auditor ElGamal pubkey"))
        λ k. ok (some k)

  unfoldable pub transfer_inputs :
      Address → Address → ConfidentialKeys → ℕ → W → Result TransferInputs Error
  unfolding auditor_key
  transfer_inputs source destination keys amount w =
      and_then (load_account T C source w) λ source_account.
        and_then (load_account T C destination w) λ destination_account.
          and_then (load_mint T C source_account.mint w) λ mint.
            and_then (require_confidential source_account) λ source_state.
              and_then (available_balance Z source_account keys) λ available.
                and_then (require_covered available amount) λ _.
                  and_then (require_confidential destination_account) λ destination_state.
                    and_then
                      (ok_or (Z.elgamal_pubkey_try_from destination_state.elgamal_pubkey)
                        (crypto "invalid destination ElGamal pubkey"))
                      λ destination_pubkey.
                        and_then (ok_or mint.confidential (invalid no_confidential_mint))
                          λ confidential_mint.
                            and_then (auditor_key confidential_mint.auditor_elgamal_pubkey)
                              λ auditor.
                                and_then
                                  (ok_or mint.confidential_fee (invalid no_confidential_fee_config))
                                  λ fee_state.
                                    and_then
                                      (ok_or
                                        (Z.elgamal_pubkey_try_from
                                          fee_state.withdraw_withheld_authority_elgamal_pubkey)
                                        (crypto "invalid withdraw-withheld ElGamal pubkey"))
                                      λ withdraw_withheld.
                                        and_then (require_transfer_fee mint) λ fee_config.
                                          and_then (expected_fee T mint (C.epoch w) amount) λ fee.
                                            and_then
                                              (elgamal_ciphertext Z source_state.available_balance)
                                              λ available_ciphertext.
                                                and_then
                                                  (ok_or
                                                    (Z.ae_ciphertext_try_from
                                                      source_state.decryptable_available_balance)
                                                    (crypto "invalid decryptable balance"))
                                                  λ decryptable. ok (record {
                                                    mint = mint;
                                                    available = available;
                                                    destination_pubkey = destination_pubkey;
                                                    auditor = auditor;
                                                    withdraw_withheld = withdraw_withheld;
                                                    epoch = C.epoch w;
                                                    schedule =
                                                        T.get_epoch_fee fee_config (C.epoch w);
                                                    fee = fee;
                                                    available_ciphertext = available_ciphertext;
                                                    decryptable = decryptable;
                                                  })

module _ {W : Type 0} (P : ProofInterface) (C : Cluster W) where
  -- The `match prepared { .. }` and the `consume` after it.
  unfoldable pub finish :
      Result (List Instruction) Error × (W × ProofAccounts)
      → List Keypair
      → ℕ
      → Result Receipt Error × W
  unfolding consume close_after
  finish (ok instructions, (w, accounts)) signers units =
      consume P C accounts instructions signers units w
  finish (err e, (w, accounts)) signers units = close_after P C accounts (err e) w
  finish (panicked, (w, accounts)) signers units = (panicked, w)

  -- A prepared debit, from no proof accounts.
  unfoldable pub run_prepared : Method W (List Instruction) → List Keypair → ℕ → Flow W Receipt
  unfolding finish
  run_prepared prepare signers units w = finish (prepare (w, no_accounts)) signers units
