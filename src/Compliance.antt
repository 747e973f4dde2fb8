-- ===== src/Compliance.antt =====
-- remit/src/compliance.rs: seizure by the permanent delegate.
pub mod Seizure
pub mod Bundle
use token_22_cts.Prelude.{ℕ, List, [], ◌∷◌, if◌then◌else◌}
use token_22_cts.Solana.{Address, Keypair, Instruction}
use token_22_cts.Error.{Error, Result}
use token_22_cts.Cluster.{Cluster, Flow, Receipt, pure, lift, gets, asks, try, ◌>>=◌, ◌>>◌}
use token_22_cts.Token22.{Token22}
use token_22_cts.State.{AccountSnapshot, is_frozen, load_mint, load_account}
use token_22_cts.Transfer.{FeeTransfer, expected_fee}

module _ {W : Type 0} (T : Token22) (C : Cluster W) where
  -- The branch of `seize` on a frozen account: one transaction.
  unfoldable pub send_refreezing :
      Address → Address → Keypair → Keypair → Instruction → Flow W Receipt
  send_refreezing from mint freeze_authority permanent_delegate transfer = do
    thaw ← try (T.thaw_account T.id from mint freeze_authority.pubkey [])
    freeze ← try (T.freeze_account T.id from mint freeze_authority.pubkey [])
    C.send (thaw ∷ transfer ∷ freeze ∷ []) (freeze_authority ∷ permanent_delegate ∷ [])

  unfoldable pub seize : Address → Address → Keypair → Keypair → ℕ → Flow W FeeTransfer
  unfolding send_refreezing
  seize from to freeze_authority permanent_delegate amount = do
    account ← asks (load_account T C from)
    mint ← asks (load_mint T C account.mint)
    epoch ← gets C.epoch
    fee ← lift (expected_fee T mint epoch amount)
    transfer ← try (
        T.transfer_checked_with_fee T.id from mint.address to permanent_delegate.pubkey [] amount
          mint.decimals fee)
    if is_frozen account
        then send_refreezing from mint.address freeze_authority permanent_delegate transfer
        else C.send (transfer ∷ []) (permanent_delegate ∷ [])
    pure (record { amount = amount; fee = fee; epoch = epoch })
