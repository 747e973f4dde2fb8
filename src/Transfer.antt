-- ===== src/Transfer.antt =====
-- remit/src/transfer.rs: public transfers with their fee, fee changes and fee collection.
pub mod Fees
pub mod Flows
use token_22_cts.Prelude.{ℕ, ◌-◌, ◌^◌, Option, List, [], ◌∷◌, leb, if◌then◌else◌}
use token_22_cts.Solana.{Address, Keypair}
use token_22_cts.Error.{Error, invalid, fee_overflows, Result, ok, err, panicked, and_then, ok_or}
use token_22_cts.Cluster.{Cluster, Flow, pure, lift, gets, asks, try, ◌>>=◌, ◌>>◌}
use token_22_cts.Token22.{Token22}
use token_22_cts.State.{
  MintSnapshot, AccountSnapshot, require_transfer_fee, load_mint, load_account,
}

pub record FeeTransfer : Type 0 where
  pub amount : ℕ
  pub fee : ℕ
  pub epoch : ℕ

-- `a - b` on `u64`: an underflow panics, since the overflow checks stay on.
unfoldable pub sub_u64 : ℕ → ℕ → Result ℕ Error
sub_u64 a b = if leb b a then ok (a - b) else panicked

-- `FeeTransfer::net`
unfoldable pub net : FeeTransfer → Result ℕ Error
unfolding sub_u64
net t = sub_u64 t.amount t.fee

unfoldable pub expected_fee : Token22 → MintSnapshot → ℕ → ℕ → Result ℕ Error
expected_fee T mint epoch amount =
    and_then (require_transfer_fee mint)
      λ config. ok_or (T.calculate_epoch_fee config epoch amount) (invalid (fee_overflows amount))

module _ {W : Type 0} (T : Token22) (C : Cluster W) where
  unfoldable pub transfer_with_fee : Address → Address → Keypair → ℕ → Flow W FeeTransfer
  transfer_with_fee source destination authority amount = do
    account ← asks (load_account T C source)
    mint ← asks (load_mint T C account.mint)
    epoch ← gets C.epoch
    fee ← lift (expected_fee T mint epoch amount)
    instruction ← try (
        T.transfer_checked_with_fee T.id source account.mint destination authority.pubkey [] amount
          mint.decimals fee)
    C.send (instruction ∷ []) (authority ∷ [])
    pure (record { amount = amount; fee = fee; epoch = epoch })

  unfoldable pub set_transfer_fee : Address → Keypair → ℕ → ℕ → Flow W (Unit {0})
  set_transfer_fee mint fee_authority basis_points maximum_fee = do
    instruction ←
        try (T.set_transfer_fee T.id mint fee_authority.pubkey [] basis_points maximum_fee)
    C.send (instruction ∷ []) (fee_authority ∷ [])
    pure tt

  unfoldable pub collect_fees : Address → List Address → Address → Keypair → Flow W ℕ
  unfolding sub_u64
  collect_fees mint sources treasury withdraw_authority = do
    before ← asks (load_account T C treasury)
    harvest ← try (T.harvest_withheld_tokens_to_mint T.id mint sources)
    withdraw ←
        try (T.withdraw_withheld_tokens_from_mint T.id mint treasury withdraw_authority.pubkey [])
    C.send (harvest ∷ withdraw ∷ []) (withdraw_authority ∷ [])
    after ← asks (load_account T C treasury)
    lift (sub_u64 after.amount before.amount)
