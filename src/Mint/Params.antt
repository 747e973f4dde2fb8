-- ===== src/Mint/Params.antt =====
-- remit/src/mint.rs: the extensions of the two versions, the authorities and the parameters of a mint.
use token_22_cts.Prelude.{ℕ, List, [], ◌∷◌, String}
use token_22_cts.Solana.{Keypair}
use token_22_cts.Random.{ElGamalKeypair, Random}
use token_22_cts.Token22.{
  ExtensionType, transfer_fee_config, metadata_pointer, default_account_state, mint_close_authority,
  permanent_delegate, confidential_transfer_mint, confidential_transfer_fee_config,
}

-- `V1_EXTENSIONS`
abbrev pub v1_extensions : List ExtensionType
v1_extensions =
    transfer_fee_config ∷ metadata_pointer ∷ default_account_state ∷ mint_close_authority ∷ []

-- `V2_ADDED_EXTENSIONS`
abbrev pub v2_added_extensions : List ExtensionType
v2_added_extensions =
    permanent_delegate ∷ confidential_transfer_mint ∷ confidential_transfer_fee_config ∷ []

pub record Authorities : Type 0 where
  pub mint : Keypair
  pub freeze : Keypair
  pub fee_config : Keypair
  pub fee_withdraw : Keypair
  pub close : Keypair
  pub metadata : Keypair

pub record ComplianceAuthorities : Type 0 where
  pub seizure : Keypair
  pub confidential : Keypair
  pub auditor : ElGamalKeypair
  pub fee_withdraw_elgamal : ElGamalKeypair

module _ {W : Type 0} (R : Random W) where
  -- `Authorities::generate`
  unfoldable pub generate_authorities : W → Authorities × W
  generate_authorities w0 =
      let (mint, w1) = R.new_keypair w0 in
      let (freeze, w2) = R.new_keypair w1 in
      let (fee_config, w3) = R.new_keypair w2 in
      let (fee_withdraw, w4) = R.new_keypair w3 in
      let (close, w5) = R.new_keypair w4 in
      let (metadata, w6) = R.new_keypair w5 in
      (
        record {
          mint = mint;
          freeze = freeze;
          fee_config = fee_config;
          fee_withdraw = fee_withdraw;
          close = close;
          metadata = metadata;
        },
        w6,
      )

  -- `ComplianceAuthorities::generate`
  unfoldable pub generate_compliance : W → ComplianceAuthorities × W
  generate_compliance w0 =
      let (seizure, w1) = R.new_keypair w0 in
      let (confidential, w2) = R.new_keypair w1 in
      let (auditor, w3) = R.new_elgamal w2 in
      let (fee_withdraw_elgamal, w4) = R.new_elgamal w3 in
      (
        record {
          seizure = seizure;
          confidential = confidential;
          auditor = auditor;
          fee_withdraw_elgamal = fee_withdraw_elgamal;
        },
        w4,
      )

pub record StablecoinParams : Type 0 where
  pub decimals : ℕ
  pub transfer_fee_basis_points : ℕ
  pub maximum_fee : ℕ
  pub name : String
  pub symbol : String
  pub uri : String
  pub additional_metadata : List (String × String)

-- `StablecoinParams::default`
abbrev pub default_params : StablecoinParams
default_params = record {
  decimals = 6;
  transfer_fee_basis_points = 25;
  maximum_fee = 2_500_000;
  name = "Remit USD";
  symbol = "rUSD";
  uri = "https://example.com/rusd/metadata.json";
  additional_metadata =
      ("issuer", "Remit Labs Ltd.")
      ∷ ("peg", "1 rUSD = 1 USD")
      ∷ ("kyc", "required; new accounts start frozen")
      ∷ [];
}
