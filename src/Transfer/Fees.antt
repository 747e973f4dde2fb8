-- ===== src/Transfer/Fees.antt =====
-- remit/src/transfer.rs: the fee of a transfer.
use token_22_cts.Prelude.{ℕ, ◌≡◌, some, arith}
use token_22_cts.Solana.{Address, Keypair}
use token_22_cts.Error.{ok}
use token_22_cts.Cluster.{Cluster}
use token_22_cts.Token22.{Token22, TransferFeeConfig}
use token_22_cts.State.{
  AccountSnapshot, MintSnapshot, load_account, load_mint, require_transfer_fee,
}
use token_22_cts.Transfer.{FeeTransfer, expected_fee, transfer_with_fee}

module _ {W : Type 0} (T : Token22) (C : Cluster W) (source destination : Address)
    (authority : Keypair) (amount : ℕ) (w w' : W) (t : FeeTransfer) where
  -- The stated amount, fee and epoch are those of the call and of the schedule of the source's mint.
  abbrev pub StatesFee : Type 0
  StatesFee =
      (a : AccountSnapshot) × (m : MintSnapshot) × (config : TransferFeeConfig) × (load_account T C
          source w
        ≡ ok a)
      × (load_mint T C a.mint w ≡ ok m)
      × (m.transfer_fee ≡ some config)
      × (T.calculate_epoch_fee config (C.epoch w) amount ≡ some t.fee)
      × (t.amount ≡ amount)
      × (t.epoch ≡ C.epoch w)

  -- The fee that a successful transfer states is the one that the schedule of the source's mint, as
  -- it stands at the call, gives for the amount in the epoch that the cluster reports at the call.
  pub transfer_with_fee-fee :
      transfer_with_fee T C source destination authority amount w ≡ (ok t, w') → StatesFee
  unfolding transfer_with_fee expected_fee require_transfer_fee
  transfer_with_fee-fee h = ground arith
