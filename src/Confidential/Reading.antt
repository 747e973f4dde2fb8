-- ===== src/Confidential/Reading.antt =====
-- remit/src/confidential.rs: what the debits read and check does not panic.
use token_22_cts.Prelude.{
  ℕ, ◌≡◌, ◌≢◌, refl, Option, none, some, Bool-cases, inl, inr, ltb, ◌==◌, ◌≤◌, String, arith,
}
use token_22_cts.Solana.{Bytes, Address}
use token_22_cts.Error.{Result, ok, err, panicked, and_then, ok_or, to_option}
use token_22_cts.Cluster.{Cluster}
use token_22_cts.Token22.{Token22, AccountState, MintState, TokenAccountState}
use token_22_cts.State.{
  AccountSnapshot, decode_default_state, decode_mint, decode_account, fetch, load_mint,
  load_account, require_confidential, require_transfer_fee,
}
use token_22_cts.Transfer.{expected_fee, sub_u64}
use token_22_cts.Confidential.Interface.{ConfidentialInterface}
use token_22_cts.Confidential.{
  ConfidentialKeys, elgamal_ciphertext, available_balance, crypto_error,
}
use token_22_cts.Confidential.Debit.{auditor_key, require_covered, transfer_inputs}
use token_22_cts.Confidential.Steady.{from_program-calm}

and_then-calm :
    {A B E : Type 0} (r : Result A E) (f : A → Result B E)
    → r ≢ panicked
    → ((a : A) → r ≡ ok a → f a ≢ panicked)
    → and_then r f ≢ panicked
and_then-calm (ok a) f h g = g a refl
and_then-calm (err e) f h g = λ p. cc
and_then-calm panicked f h g = absurd (h refl)

pub ok-calm : {A E : Type 0} {a : A} → ◌≢◌ {A = Result A E} (ok a) panicked
ok-calm p = cc

pub err-calm : {A E : Type 0} {e : E} → ◌≢◌ {A = Result A E} (err e) panicked
err-calm p = cc

pub ok_or-calm : {A E : Type 0} (o : Option A) (e : E) → ok_or o e ≢ panicked
ok_or-calm none e p = cc
ok_or-calm (some a) e p = cc

pub crypto_error-calm :
    {A : Type 0} (r : Result A String) → r ≢ panicked → crypto_error r ≢ panicked
crypto_error-calm (ok a) h = λ p. cc
crypto_error-calm (err e) h = λ p. cc
crypto_error-calm panicked h = absurd (h refl)

pub sub_u64-calm : (a b : ℕ) → b ≤ a → sub_u64 a b ≢ panicked
unfolding sub_u64
sub_u64-calm a b h = ground arith

-- The decoders of Token-2022 do not panic, nor does the list of extensions of what they decode.
abbrev pub DecodesCalmly : Token22 → Type 0
DecodesCalmly T =
    ((bytes : Bytes) → T.unpack_mint bytes ≢ panicked)
    × ((bytes : Bytes) (s : MintState) → T.unpack_mint bytes ≡ ok s → s.extension_types ≢ panicked)
    × ((bytes : Bytes) → T.unpack_account bytes ≢ panicked)
    × ((bytes : Bytes) (s : TokenAccountState)
        → T.unpack_account bytes ≡ ok s
        → s.extension_types ≢ panicked)

module _ {W : Type 0} (T : Token22) (C : Cluster W) (decodes : DecodesCalmly T) (address : Address)
    (w : W) where
  default_state-calm : (byte : Option ℕ) → decode_default_state T byte ≢ panicked
  unfolding decode_default_state
  default_state-calm none = ok-calm
  default_state-calm (some byte) = tested (T.account_state_try_from byte) refl
    where
      tested :
          (o : Option AccountState)
          → T.account_state_try_from byte ≡ o
          → decode_default_state T (some byte) ≢ panicked
      tested none h = rw (decode_default_state, h) err-calm
      tested (some s) h = rw (decode_default_state, h) ok-calm

  pub load_account-calm : load_account T C address w ≢ panicked
  unfolding load_account fetch decode_account
  load_account-calm =
      let (_, _, unpacks, types) = decodes in
      and_then-calm (fetch C address w) _ (ok_or-calm (C.account_data address w) _) λ bytes _.
        from_program-calm _ (
          and_then-calm (T.unpack_account bytes) _ (unpacks bytes) λ s unpacked.
            and_then-calm s.extension_types _ (types bytes s unpacked) λ extensions _. ok-calm)

  pub load_mint-calm : load_mint T C address w ≢ panicked
  unfolding load_mint fetch decode_mint
  load_mint-calm =
      let (unpacks, types, _, _) = decodes in
      and_then-calm (fetch C address w) _ (ok_or-calm (C.account_data address w) _) λ bytes _.
        from_program-calm _ (
          and_then-calm (T.unpack_mint bytes) _ (unpacks bytes) λ s unpacked.
            and_then-calm (decode_default_state T (to_option s.default_state)) _
              (default_state-calm (to_option s.default_state))
              λ state _.
                and_then-calm s.extension_types _ (types bytes s unpacked) λ extensions _. ok-calm)

module _ {W : Type 0} (T : Token22) (Z : ConfidentialInterface W) (C : Cluster W)
    (decodes : DecodesCalmly T) (source destination : Address) (keys : ConfidentialKeys)
    (amount : ℕ) (w : W) where
  pub available_balance-calm : (a : AccountSnapshot) → available_balance Z a keys ≢ panicked
  unfolding available_balance require_confidential
  available_balance-calm a =
      and_then-calm (require_confidential a) _ (ok_or-calm a.confidential _) λ state _.
        elim (Bool-cases (
          state.expected_pending_balance_credit_counter
          == state.actual_pending_balance_credit_counter)) [
            | inl same ↦ rw same (
                and_then-calm
                  (ok_or (Z.ae_ciphertext_try_from state.decryptable_available_balance) _) _
                  (ok_or-calm (Z.ae_ciphertext_try_from state.decryptable_available_balance) _)
                  λ d _. ok_or-calm (Z.ae_decrypt keys.ae d) _)
            | inr stale ↦ rw stale err-calm
          ]

  pub require_covered-calm : (n : ℕ) → require_covered n amount ≢ panicked
  require_covered-calm n = elim (Bool-cases (ltb n amount)) [
    | inl less ↦ rw less err-calm
    | inr covered ↦ rw covered ok-calm
  ]

  auditor_key-calm : (key : Option Bytes) → auditor_key T Z C key ≢ panicked
  unfolding auditor_key
  auditor_key-calm none = ok-calm
  auditor_key-calm (some key) =
      and_then-calm (ok_or (Z.elgamal_pubkey_try_from key) _) _
        (ok_or-calm (Z.elgamal_pubkey_try_from key) _) λ k _. ok-calm

  expected_fee-calm : (m : _) → expected_fee T m (C.epoch w) amount ≢ panicked
  unfolding expected_fee require_transfer_fee
  expected_fee-calm m =
      and_then-calm (require_transfer_fee m) _ (ok_or-calm m.transfer_fee _)
        λ config _. ok_or-calm (T.calculate_epoch_fee config (C.epoch w) amount) _

  pub transfer_inputs-calm : transfer_inputs T Z C source destination keys amount w ≢ panicked
  unfolding transfer_inputs require_confidential require_transfer_fee elgamal_ciphertext
  transfer_inputs-calm = and_then-calm _ _ (load_account-calm T C decodes source w) λ a _.
      and_then-calm _ _ (load_account-calm T C decodes destination w) λ b _.
        and_then-calm _ _ (load_mint-calm T C decodes a.mint w) λ m _.
          and_then-calm _ _ (ok_or-calm a.confidential _) λ s _.
            and_then-calm _ _ (available_balance-calm a) λ n _.
              and_then-calm _ _ (require_covered-calm n) λ _ _.
                and_then-calm _ _ (ok_or-calm b.confidential _) λ d _.
                  and_then-calm _ _ (ok_or-calm (Z.elgamal_pubkey_try_from d.elgamal_pubkey) _)
                    λ k1 _. and_then-calm _ _ (ok_or-calm m.confidential _) λ cm _.
                      and_then-calm _ _ (auditor_key-calm cm.auditor_elgamal_pubkey) λ k2 _.
                        and_then-calm _ _ (ok_or-calm m.confidential_fee _) λ fs _.
                          and_then-calm _ _
                            (ok_or-calm
                              (Z.elgamal_pubkey_try_from
                                fs.withdraw_withheld_authority_elgamal_pubkey)
                              _)
                            λ k3 _. and_then-calm _ _ (ok_or-calm m.transfer_fee _) λ config _.
                              and_then-calm _ _ (expected_fee-calm m) λ fee _.
                                and_then-calm _ _
                                  (ok_or-calm (Z.elgamal_ciphertext_try_from s.available_balance) _)
                                  λ k4 _.
                                    and_then-calm _ _
                                      (ok_or-calm
                                        (Z.ae_ciphertext_try_from s.decryptable_available_balance)
                                        _)
                                      λ k5 _. ok-calm
