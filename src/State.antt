-- ===== src/State.antt =====
-- remit/src/state.rs: decoding of mints and token accounts.
pub mod Decode
use token_22_cts.Prelude.{ℕ, Bool, true, false, Option, none, some, List, length}
use token_22_cts.Solana.{Bytes, Address, ProgramError, invalid_account_data}
use token_22_cts.Error.{
  Error, program, account_not_found, invalid, no_transfer_fee_config, not_confidential, Result, ok,
  err, and_then, to_option, ok_or,
}
use token_22_cts.Cluster.{Cluster, from_program}
use token_22_cts.Token22.{
  Token22, AccountState, uninitialized, initialized, frozen, ExtensionType, TransferFeeConfig,
  MetadataPointer, ConfidentialTransferMint, ConfidentialTransferFeeConfig, TokenMetadata,
  ConfidentialTransferAccount, ConfidentialTransferFeeAmount, MintState, TokenAccountState,
}

pub record MintSnapshot : Type 0 where
  pub address : Address
  pub decimals : ℕ
  pub supply : ℕ
  pub mint_authority : Option Address
  pub freeze_authority : Option Address
  pub extensions : List ExtensionType
  pub transfer_fee : Option TransferFeeConfig
  pub metadata_pointer : Option MetadataPointer
  pub default_account_state : Option AccountState
  pub close_authority : Option Address
  pub permanent_delegate : Option Address
  pub confidential : Option ConfidentialTransferMint
  pub confidential_fee : Option ConfidentialTransferFeeConfig
  pub metadata : Option TokenMetadata
  pub data_len : ℕ
  pub lamports : ℕ

pub record AccountSnapshot : Type 0 where
  pub address : Address
  pub mint : Address
  pub owner : Address
  pub amount : ℕ
  pub state : AccountState
  pub delegate : Option Address
  pub delegated_amount : ℕ
  pub extensions : List ExtensionType
  pub withheld_fee : Option ℕ
  pub cpi_guard : Option Bool
  pub confidential : Option ConfidentialTransferAccount
  pub confidential_withheld : Option ConfidentialTransferFeeAmount
  pub data_len : ℕ
  pub lamports : ℕ

-- `Option::and_then` with the identity: an extension that holds no address gives none.
abbrev join : {A : Type 0} → Option (Option A) → Option A
join none = none
join (some o) = o

module _ (T : Token22) where
  -- `.map(AccountState::try_from).transpose().map_err(..)`
  unfoldable pub decode_default_state : Option ℕ → Result (Option AccountState) ProgramError
  decode_default_state none = ok none
  decode_default_state (some byte) = elim (T.account_state_try_from byte) [
    | none ↦ err invalid_account_data
    | some s ↦ ok (some s)
  ]

  -- `MintSnapshot::decode`
  unfoldable pub decode_mint : Address → Bytes → ℕ → Result MintSnapshot Error
  unfolding decode_default_state
  decode_mint address bytes lamports = from_program (
      and_then (T.unpack_mint bytes) λ mint.
        and_then (decode_default_state (to_option mint.default_state)) λ default_account_state.
          and_then mint.extension_types λ extensions. ok (record {
            address = address;
            decimals = mint.decimals;
            supply = mint.supply;
            mint_authority = mint.mint_authority;
            freeze_authority = mint.freeze_authority;
            extensions = extensions;
            transfer_fee = to_option mint.transfer_fee;
            metadata_pointer = to_option mint.pointer;
            default_account_state = default_account_state;
            close_authority = join (to_option mint.close);
            permanent_delegate = join (to_option mint.delegate);
            confidential = to_option mint.confidential;
            confidential_fee = to_option mint.confidential_fee;
            metadata = to_option mint.metadata;
            data_len = length bytes;
            lamports = lamports;
          }))

  -- `AccountSnapshot::decode`
  unfoldable pub decode_account : Address → Bytes → ℕ → Result AccountSnapshot Error
  decode_account address bytes lamports = from_program (
      and_then (T.unpack_account bytes) λ account. and_then account.extension_types λ extensions.
        ok (record {
          address = address;
          mint = account.mint;
          owner = account.owner;
          amount = account.amount;
          state = account.state;
          delegate = account.delegate;
          delegated_amount = account.delegated_amount;
          extensions = extensions;
          withheld_fee = to_option account.transfer_fee_amount;
          cpi_guard = to_option account.lock_cpi;
          confidential = to_option account.confidential;
          confidential_withheld = to_option account.confidential_fee_amount;
          data_len = length bytes;
          lamports = lamports;
        }))

-- `MintSnapshot::require_transfer_fee`
unfoldable pub require_transfer_fee : MintSnapshot → Result TransferFeeConfig Error
require_transfer_fee mint = ok_or mint.transfer_fee (invalid (no_transfer_fee_config mint.address))

abbrev pub is_frozen_state : AccountState → Bool
is_frozen_state frozen = true
is_frozen_state uninitialized = false
is_frozen_state initialized = false

-- `AccountSnapshot::is_frozen`
abbrev pub is_frozen : AccountSnapshot → Bool
is_frozen account = is_frozen_state account.state

-- `AccountSnapshot::require_confidential`
unfoldable pub require_confidential : AccountSnapshot → Result ConfidentialTransferAccount Error
require_confidential account =
    ok_or account.confidential (invalid (not_confidential account.address))

module _ {W : Type 0} (C : Cluster W) where
  unfoldable pub fetch : Address → W → Result Bytes Error
  fetch address w = ok_or (C.account_data address w) (account_not_found address)

module _ {W : Type 0} (T : Token22) (C : Cluster W) where
  unfoldable pub load_mint : Address → W → Result MintSnapshot Error
  load_mint address w =
      and_then (fetch C address w) λ bytes. decode_mint T address bytes (C.lamports address w)

  unfoldable pub load_account : Address → W → Result AccountSnapshot Error
  load_account address w =
      and_then (fetch C address w) λ bytes. decode_account T address bytes (C.lamports address w)
