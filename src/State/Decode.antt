-- ===== src/State/Decode.antt =====
-- remit/src/state.rs: what a decoded snapshot tells about the bytes it was read from, and the errors of
-- loading one.
use token_22_cts.Prelude.{ℕ, ◌≡◌, ◌↔◌, ◌≢◌, refl, sym, ap, Option, none, some}
use token_22_cts.Solana.{Bytes, Address, ProgramError}
use token_22_cts.Error.{account_not_found, Result, ok, err, panicked, to_option, ok_or, and_then}
use token_22_cts.Cluster.{Cluster, from_program}
use token_22_cts.Cluster.Inversion.{and_then-ok, ok-injective, from_program-ok}
use token_22_cts.Token22.{Token22, MintState}
use token_22_cts.State.{
  MintSnapshot, decode_default_state, decode_mint, decode_account, fetch, load_mint, load_account,
}

module _ (T : Token22) where
  -- The fields of a decoded mint that the flows and the agent rely on.
  pub decode_mint-ok :
      (address : Address) (bytes : Bytes) (lamports : ℕ) (m : MintSnapshot)
      → decode_mint T address bytes lamports ≡ ok m
      → (s : MintState) × (T.unpack_mint bytes ≡ ok s)
        × (m.address ≡ address)
        × (m.decimals ≡ s.decimals)
        × (m.transfer_fee ≡ to_option s.transfer_fee)
  unfolding decode_mint
  decode_mint-ok address bytes lamports m h =
      let h0 = from_program-ok _ h in
      let (s, unpacked, h1) = and_then-ok (T.unpack_mint bytes) _ h0 in
      let (d, state, h2) = and_then-ok (decode_default_state T (to_option s.default_state)) _ h1 in
      let (extensions, typed, h3) = and_then-ok s.extension_types _ h2 in
      let same = ok-injective h3 in
      (
        s,
        unpacked,
        sym (ap (λ (x : MintSnapshot). x.address) same),
        sym (ap (λ (x : MintSnapshot). x.decimals) same),
        sym (ap (λ (x : MintSnapshot). x.transfer_fee) same),
      )

module _ {W : Type 0} (T : Token22) (C : Cluster W) (address : Address) (w : W) where
  from_program-ne-not_found :
      {A : Type 0} (r : Result A ProgramError) → from_program r ≢ err (account_not_found address)
  from_program-ne-not_found (ok a) h = cc
  from_program-ne-not_found (err e) h = cc
  from_program-ne-not_found panicked h = cc

  absent :
      {A : Type 0} (o : Option Bytes) (decode : Bytes → Result A ProgramError)
      → (and_then (ok_or o (account_not_found address)) (λ bytes. from_program (decode bytes))
          ≡ err (account_not_found address))
        ↔ (o ≡ none)
  absent none decode = (λ h. refl, λ h. refl)
  absent (some bytes) decode = (λ h. absurd (from_program-ne-not_found (decode bytes) h), λ h. cc)

  -- Loading an account or a mint reports `AccountNotFound` exactly if there is no account at the
  -- address: data that does not decode is reported as another error.
  pub load_account-not_found :
      ((load_account T C address w ≡ err (account_not_found address))
        ↔ (C.account_data address w ≡ none))
      × ((load_mint T C address w ≡ err (account_not_found address))
          ↔ (C.account_data address w ≡ none))
  unfolding load_account load_mint fetch decode_account decode_mint
  load_account-not_found =
      (absent (C.account_data address w) _, absent (C.account_data address w) _)
