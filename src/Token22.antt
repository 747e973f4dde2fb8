-- ===== src/Token22.antt =====
-- The Token-2022 interface crates, which are not part of the repository: their data, as far as the
-- library reads it, and the record `Token22` of the functions that it calls. Nothing is assumed of
-- those functions here; a theorem that relies on one names what it relies on.
use token_22_cts.Prelude.{ℕ, Bool, Option, List, String}
use token_22_cts.Solana.{Bytes, Address, Instruction, ProgramError}
use token_22_cts.Error.{Result}

pub data AccountState : Type 0 where
  uninitialized initialized frozen : AccountState

-- The extensions that the sources name, and the others by their number.
pub data ExtensionType : Type 0 where
  transfer_fee_config metadata_pointer default_account_state : ExtensionType
  mint_close_authority permanent_delegate confidential_transfer_mint : ExtensionType
  confidential_transfer_fee_config confidential_transfer_account : ExtensionType
  confidential_transfer_fee_amount immutable_owner cpi_guard : ExtensionType
  other : ℕ → ExtensionType

-- One fee schedule, and the two that a mint keeps.
pub record TransferFee : Type 0 where
  pub epoch : ℕ
  pub maximum_fee : ℕ
  pub transfer_fee_basis_points : ℕ

pub record TransferFeeConfig : Type 0 where
  pub older_transfer_fee : TransferFee
  pub newer_transfer_fee : TransferFee

pub record MetadataPointer : Type 0 where
  pub authority : Option Address
  pub metadata_address : Option Address

pub record ConfidentialTransferMint : Type 0 where
  pub auditor_elgamal_pubkey : Option Bytes

pub record ConfidentialTransferFeeConfig : Type 0 where
  pub withdraw_withheld_authority_elgamal_pubkey : Bytes

pub record ConfidentialTransferFeeAmount : Type 0 where
  pub withheld_amount : Bytes

pub record ConfidentialTransferAccount : Type 0 where
  pub elgamal_pubkey : Bytes
  pub pending_balance_lo : Bytes
  pub pending_balance_hi : Bytes
  pub available_balance : Bytes
  pub decryptable_available_balance : Bytes
  pub pending_balance_credit_counter : ℕ
  pub expected_pending_balance_credit_counter : ℕ
  pub actual_pending_balance_credit_counter : ℕ

pub record TokenMetadata : Type 0 where
  pub update_authority : Option Address
  pub mint : Address
  pub name : String
  pub symbol : String
  pub uri : String
  pub additional_metadata : List (String × String)

-- What `StateWithExtensions::<Mint>::unpack` gives: the base fields, and what `get_extension`
-- returns for each extension that is asked for.
pub record MintState : Type 0 where
  pub decimals : ℕ
  pub supply : ℕ
  pub mint_authority : Option Address
  pub freeze_authority : Option Address
  pub extension_types : Result (List ExtensionType) ProgramError
  pub transfer_fee : Result TransferFeeConfig ProgramError
  pub pointer : Result MetadataPointer ProgramError
  pub default_state : Result ℕ ProgramError
  pub close : Result (Option Address) ProgramError
  pub delegate : Result (Option Address) ProgramError
  pub confidential : Result ConfidentialTransferMint ProgramError
  pub confidential_fee : Result ConfidentialTransferFeeConfig ProgramError
  pub metadata : Result TokenMetadata ProgramError

-- The same for `StateWithExtensions::<Account>::unpack`.
pub record TokenAccountState : Type 0 where
  pub mint : Address
  pub owner : Address
  pub amount : ℕ
  pub state : AccountState
  pub delegate : Option Address
  pub delegated_amount : ℕ
  pub extension_types : Result (List ExtensionType) ProgramError
  pub transfer_fee_amount : Result ℕ ProgramError
  pub lock_cpi : Result Bool ProgramError
  pub confidential : Result ConfidentialTransferAccount ProgramError
  pub confidential_fee_amount : Result ConfidentialTransferFeeAmount ProgramError

abbrev pub Built : Type 0
Built = Result Instruction ProgramError

-- The functions. An instruction builder takes the arguments that the Rust function takes, in order.
pub record Token22 : Type 0 where
  pub id : Address
  pub unpack_mint : Bytes → Result MintState ProgramError
  pub unpack_account : Bytes → Result TokenAccountState ProgramError
  pub account_state_try_from : ℕ → Option AccountState
  pub calculate_epoch_fee : TransferFeeConfig → ℕ → ℕ → Option ℕ
  pub get_epoch_fee : TransferFeeConfig → ℕ → TransferFee
  pub transfer_checked_with_fee :
      Address → Address → Address → Address → Address → List Address → ℕ → ℕ → ℕ → Built
  pub set_transfer_fee : Address → Address → Address → List Address → ℕ → ℕ → Built
  pub harvest_withheld_tokens_to_mint : Address → Address → List Address → Built
  pub withdraw_withheld_tokens_from_mint :
      Address → Address → Address → Address → List Address → Built
  pub thaw_account : Address → Address → Address → Address → List Address → Built
  pub freeze_account : Address → Address → Address → Address → List Address → Built
  pub update_default_account_state :
      Address → Address → Address → List Address → AccountState → Built
  pub get_associated_token_address : Address → Address → Address → Address
  pub create_associated_token_account : Address → Address → Address → Address → Instruction
  pub mint_to_checked : Address → Address → Address → Address → List Address → ℕ → ℕ → Built
  pub approve_checked :
      Address → Address → Address → Address → Address → List Address → ℕ → ℕ → Built
  pub reallocate : Address → Address → Address → Address → List Address → List ExtensionType → Built
  pub enable_cpi_guard : Address → Address → Address → List Address → Built
  pub close_account : Address → Address → Address → Address → List Address → Built
