-- ===== src/Confidential.antt =====
-- remit/src/confidential.rs: keys, decryption and balances. The operations that send are in Lifecycle
-- (configure, approve, deposit, apply), Transfer and Withdraw.
pub mod Interface
pub mod Balances
pub mod Lifecycle
pub mod Debit
pub mod Transfer
pub mod Withdraw
pub mod Checking
pub mod Guards
pub mod Audit
pub mod Settling
pub mod Holding
pub mod Budgeting
pub mod Steady
pub mod Reading
pub mod Calm
pub mod CalmWithdraw
pub mod Preparing
pub mod PreparingWithdraw
pub mod Closing
pub mod Withdrawing
use token_22_cts.Prelude.{ℕ, ◌+◌, ◌*◌, ◌^◌, Option, none, some, String, ltb, ◌==◌, if◌then◌else◌}
use token_22_cts.Solana.{Bytes, Address, Keypair, u64_mod}
use token_22_cts.Error.{
  Error, crypto, invalid, stale_decryptable_balance, no_confidential_fee_amount, Result, ok, err,
  panicked, and_then, ok_or, to_option,
}
use token_22_cts.Random.{ElGamalKeypair}
use token_22_cts.State.{AccountSnapshot, require_confidential}
use Interface.{ConfidentialInterface}

-- `MAXIMUM_PENDING_BALANCE_CREDITS`
abbrev pub maximum_pending_balance_credits : ℕ
maximum_pending_balance_credits = 65_536

pub record ConfidentialKeys : Type 0 where
  pub elgamal : ElGamalKeypair
  pub ae : Bytes

-- `map_err(|error| Error::Crypto(error.to_string()))`
abbrev pub crypto_error : {A : Type 0} → Result A String → Result A Error
crypto_error (ok a) = ok a
crypto_error (err message) = err (crypto message)
crypto_error panicked = panicked

-- `checked_mul` and `checked_add` of `u64`.
abbrev pub checked_u64 : ℕ → Option ℕ
checked_u64 n = if ltb n u64_mod then some n else none

-- `Option::and_then`
abbrev pub option_then : {A B : Type 0} → Option A → (A → Option B) → Option B
option_then none f = none
option_then (some a) f = f a

module _ {W : Type 0} (Z : ConfidentialInterface W) where
  -- `ConfidentialKeys::derive`
  unfoldable pub derive : Keypair → Address → Result ConfidentialKeys Error
  derive owner token_account =
      and_then (crypto_error (Z.derive_confidential_keys owner token_account))
        λ (elgamal, ae). ok (record { elgamal = elgamal; ae = ae })

  unfoldable pub elgamal_ciphertext : Bytes → Result Bytes Error
  elgamal_ciphertext pod =
      ok_or (Z.elgamal_ciphertext_try_from pod) (crypto "invalid ElGamal ciphertext")

  unfoldable pub decrypt_u32 : Bytes → Bytes → Result ℕ Error
  unfolding elgamal_ciphertext
  decrypt_u32 secret pod = and_then (elgamal_ciphertext pod) λ ciphertext.
      ok_or (Z.elgamal_decrypt_u32 secret ciphertext)
        (crypto "ciphertext does not decrypt to a 32-bit amount")

  unfoldable pub decrypt_lo_hi : Bytes → Bytes → Bytes → Result ℕ Error
  unfolding decrypt_u32
  decrypt_lo_hi secret lo hi = and_then (decrypt_u32 secret hi) λ high.
      ok_or
        (option_then (checked_u64 (high * 2 ^ Z.transfer_amount_lo_bits)) λ shifted.
          option_then (to_option (decrypt_u32 secret lo)) λ low. checked_u64 (shifted + low))
        (crypto "lo/hi amounts overflow or fail to decrypt")

  unfoldable pub available_balance : AccountSnapshot → ConfidentialKeys → Result ℕ Error
  available_balance account keys = and_then (require_confidential account) λ state.
      let expected = state.expected_pending_balance_credit_counter in
      let actual = state.actual_pending_balance_credit_counter in
      let decrypted =
        and_then
          (ok_or (Z.ae_ciphertext_try_from state.decryptable_available_balance)
            (crypto "invalid decryptable balance"))
          λ decryptable.
            ok_or (Z.ae_decrypt keys.ae decryptable)
              (crypto "decryptable balance does not decrypt with this AE key") in
      if expected == actual
      then decrypted
      else err (invalid (stale_decryptable_balance account.address expected actual))

  unfoldable pub pending_balance : AccountSnapshot → ConfidentialKeys → Result ℕ Error
  unfolding decrypt_lo_hi
  pending_balance account keys = and_then (require_confidential account) λ confidential.
      decrypt_lo_hi keys.elgamal.secret confidential.pending_balance_lo
        confidential.pending_balance_hi

  unfoldable pub withheld_confidential_fee : AccountSnapshot → ElGamalKeypair → Result ℕ Error
  unfolding decrypt_u32
  withheld_confidential_fee account withdraw_withheld_authority =
      and_then (ok_or account.confidential_withheld (invalid no_confidential_fee_amount))
        λ withheld. decrypt_u32 withdraw_withheld_authority.secret withheld.withheld_amount
