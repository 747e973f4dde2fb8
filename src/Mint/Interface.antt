-- ===== src/Mint/Interface.antt =====
-- What remit/src/mint.rs calls of the interface crates of Token-2022, of the token metadata and of the
-- system program. Nothing is assumed of these functions.
use token_22_cts.Prelude.{ℕ, Bool, Option, List, String}
use token_22_cts.Solana.{Bytes, Address, Instruction, ProgramError}
use token_22_cts.Error.{Result}
use token_22_cts.Token22.{AccountState, ExtensionType, TokenMetadata, Built}

pub record MintInterface : Type 0 where
  pub try_calculate_account_len : List ExtensionType → Result ℕ ProgramError
  -- `size_of::<ExtensionType>()` and `size_of::<Length>()`
  pub size_of_extension_type : ℕ
  pub size_of_length : ℕ
  pub get_packed_len : TokenMetadata → Result ℕ ProgramError
  -- `Option<Address>::try_into` for an optional address that cannot be zero; none is a refusal.
  pub optional_non_zero : Option Address → Option (Option Address)
  pub create_account : Address → Address → ℕ → ℕ → Address → Instruction
  pub initialize_transfer_fee_config :
      Address → Address → Option Address → Option Address → ℕ → ℕ → Built
  pub initialize_metadata_pointer : Address → Address → Option Address → Option Address → Built
  pub initialize_default_account_state : Address → Address → AccountState → Built
  pub initialize_mint_close_authority : Address → Address → Option Address → Built
  pub initialize_permanent_delegate : Address → Address → Address → Built
  pub initialize_confidential_mint :
      Address → Address → Option Address → Bool → Option Bytes → Built
  pub initialize_confidential_fee_config : Address → Address → Option Address → Bytes → Built
  pub initialize_mint2 : Address → Address → Address → Option Address → ℕ → Built
  pub initialize_metadata :
      Address → Address → Address → Address → Address → String → String → String → Instruction
  -- `update_field` with `Field::Key`
  pub update_field : Address → Address → Address → String → String → Instruction
