-- ===== src/Confidential/Balances.antt =====
-- remit/src/confidential.rs: what decryption recovers, and when a balance may be trusted.
use token_22_cts.Prelude.{ℕ, ◌+◌, ◌*◌, ◌^◌, ◌<◌, ◌≡◌, ◌↔◌, ◌==◌, some, refl, arith}
use token_22_cts.Solana.{Bytes, u64_mod}
use token_22_cts.Error.{Error, Result, ok, err, panicked, ok_or, to_option}
use token_22_cts.Cluster.Inversion.{and_then-ok, ok_or-ok, test-ok}
use token_22_cts.Token22.{ConfidentialTransferAccount}
use token_22_cts.State.{AccountSnapshot, require_confidential}
use token_22_cts.Confidential.Interface.{ConfidentialInterface}
use token_22_cts.Confidential.{
  ConfidentialKeys, decrypt_u32, decrypt_lo_hi, checked_u64, option_then, available_balance,
}

module _ {W : Type 0} (Z : ConfidentialInterface W) (secret lo hi : Bytes) where
  -- The amount split into the two ciphertexts.
  abbrev pub Recombines : ℕ → Type 0
  Recombines n =
      (high : ℕ) × (low : ℕ) × (decrypt_u32 Z secret hi ≡ ok high)
      × (decrypt_u32 Z secret lo ≡ ok low)
      × (n ≡ high * 2 ^ Z.transfer_amount_lo_bits + low)
      × (n < u64_mod)

  to_option-some : {A E : Type 0} (r : Result A E) {a : A} → to_option r ≡ some a → r ≡ ok a
  to_option-some (ok a) h = cc
  to_option-some (err e) h = cc
  to_option-some panicked h = cc

  combine :
      (shift high low n : ℕ)
      → option_then (checked_u64 (high * shift)) (λ s. checked_u64 (s + low)) ≡ some n
      → (n ≡ high * shift + low) × (n < u64_mod)
  combine shift high low n h = ground arith

  joined :
      (shift high n : ℕ) (r : Result ℕ Error)
      → option_then
          (checked_u64 (high * shift))
          (λ s. option_then (to_option r) λ low. checked_u64 (s + low))
        ≡ some n
      → (low : ℕ) × (r ≡ ok low) × (n ≡ high * shift + low) × (n < u64_mod)
  joined shift high n (ok low) h =
      let (sum, bound) = combine shift high low n h in (low, refl, sum, bound)
  joined shift high n (err e) h = ground arith
  joined shift high n panicked h = ground arith

  parts : (n : ℕ) → decrypt_lo_hi Z secret lo hi ≡ ok n → Recombines n
  unfolding decrypt_lo_hi
  parts n h =
      let (high, upper, h1) = and_then-ok (decrypt_u32 Z secret hi) _ h in
      let (low, lower, sum, bound) =
        joined (2 ^ Z.transfer_amount_lo_bits) high n (decrypt_u32 Z secret lo) (ok_or-ok _ _ h1) in
      (high, low, upper, lower, sum, bound)

  whole : (n : ℕ) → Recombines n → decrypt_lo_hi Z secret lo hi ≡ ok n
  unfolding decrypt_lo_hi
  whole n (high, low, upper, lower, sum, bound) =
      rw (upper, lower) (assemble (2 ^ Z.transfer_amount_lo_bits) high low sum)
    where
      assemble :
          (shift high low : ℕ)
          → n ≡ high * shift + low
          → ok_or
              (option_then (checked_u64 (high * shift)) (λ s. checked_u64 (s + low)))
              (Error.crypto "lo/hi amounts overflow or fail to decrypt")
            ≡ ok n
      assemble shift high low sum = ground arith

  -- Decrypting an amount split into two ciphertexts gives `n` exactly if both halves decrypt and `n`
  -- is the high half shifted by the bits of the low half, plus the low half, and is a `u64`.
  pub decrypt_lo_hi_iff : (n : ℕ) → (decrypt_lo_hi Z secret lo hi ≡ ok n) ↔ Recombines n
  decrypt_lo_hi_iff n = (parts n, whole n)

module _ {W : Type 0} (Z : ConfidentialInterface W) (account : AccountSnapshot)
    (keys : ConfidentialKeys) where
  -- The decryptable balance of a configured account whose counters agree.
  abbrev pub Trusted : ℕ → Type 0
  Trusted n =
      (state : ConfidentialTransferAccount) × (ciphertext : Bytes) × (account.confidential
        ≡ some state)
      × (state.expected_pending_balance_credit_counter
          ≡ state.actual_pending_balance_credit_counter)
      × (Z.ae_ciphertext_try_from state.decryptable_available_balance ≡ some ciphertext)
      × (Z.ae_decrypt keys.ae ciphertext ≡ some n)

  -- `available_balance` gives `n` exactly if the account is configured, its expected and its actual
  -- pending-balance credit counters agree, and its decryptable balance decrypts to `n`.
  pub available_balance_iff : (n : ℕ) → (available_balance Z account keys ≡ ok n) ↔ Trusted n
  unfolding available_balance require_confidential
  available_balance_iff n = (read, shown)
    where
      read : available_balance Z account keys ≡ ok n → Trusted n
      read h =
          let (state, has, h1) = and_then-ok (require_confidential account) _ h in
          let (same, h2) =
            test-ok
              (state.expected_pending_balance_credit_counter
                == state.actual_pending_balance_credit_counter)
              _ _ h1 in
          let (ciphertext, parsed, h3) = and_then-ok _ _ h2 in
          (state, ciphertext, ok_or-ok _ _ has, ground arith, ok_or-ok _ _ parsed, ok_or-ok _ _ h3)

      shown : Trusted n → available_balance Z account keys ≡ ok n
      shown (state, ciphertext, has, same, parsed, decrypted) = ground arith
