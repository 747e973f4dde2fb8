-- ===== src/Mint.antt =====
-- remit/src/mint.rs: the plan of a mint, its creation and its end.
pub mod Params
pub mod Interface
pub mod Plan
use token_22_cts.Prelude.{ℕ, ◌+◌, false, Option, none, some, List, [], ◌∷◌, ◌++◌, map, String}
use token_22_cts.Solana.{Bytes, Address, Keypair, Instruction, ProgramError, invalid_argument}
use token_22_cts.Error.{Error, Result, ok, err, and_then}
use token_22_cts.Cluster.{Cluster, Flow, from_program, pure, lift, gets, asks, try, ◌>>=◌, ◌>>◌}
use token_22_cts.Random.{ElGamalKeypair, Random}
use token_22_cts.Token22.{
  Token22, ExtensionType, transfer_fee_config, metadata_pointer, default_account_state,
  mint_close_authority, permanent_delegate, confidential_transfer_mint,
  confidential_transfer_fee_config, frozen, TokenMetadata,
}
use Interface.{MintInterface}
pub use Params.{
  v1_extensions, v2_added_extensions, Authorities, ComplianceAuthorities, generate_authorities,
  generate_compliance, StablecoinParams, default_params,
}

abbrev pub ExtensionInit : Type 0
ExtensionInit = ExtensionType × Instruction

pub record MintPlan : Type 0 where
  pub mint : Address
  pub extensions : List ExtensionType
  pub space : ℕ
  pub metadata_len : ℕ
  pub lamports : ℕ
  pub initialize : List Instruction
  pub metadata : List Instruction

-- The map of `iter().map(|(extension, _)| *extension)`, and of the instructions.
abbrev pub extensions_of : List ExtensionInit → List ExtensionType
extensions_of = map (λ (e, i). e)

abbrev pub instructions_of : List ExtensionInit → List Instruction
instructions_of = map (λ (e, i). i)

module _ (T : Token22) (M : MintInterface) where
  -- `StablecoinParams::token_metadata`
  unfoldable pub token_metadata :
      StablecoinParams → Address → Address → Result TokenMetadata ProgramError
  token_metadata params mint update_authority = elim (M.optional_non_zero (some update_authority)) [
    | none ↦ err invalid_argument
    | some authority ↦ ok (record {
      update_authority = authority;
      mint = mint;
      name = params.name;
      symbol = params.symbol;
      uri = params.uri;
      additional_metadata = params.additional_metadata;
    })
  ]

  unfoldable pub metadata_tlv_len : TokenMetadata → Result ℕ ProgramError
  metadata_tlv_len metadata =
      and_then (M.get_packed_len metadata)
        λ packed. ok (M.size_of_extension_type + M.size_of_length + packed)

  unfoldable pub v1_extension_inits :
      Address → Authorities → StablecoinParams → Result (List ExtensionInit) ProgramError
  v1_extension_inits mint authorities params =
      and_then
        (M.initialize_transfer_fee_config T.id mint (some authorities.fee_config.pubkey)
          (some authorities.fee_withdraw.pubkey) params.transfer_fee_basis_points
          params.maximum_fee)
        λ fee.
          and_then
            (M.initialize_metadata_pointer T.id mint (some authorities.metadata.pubkey) (some mint))
            λ pointer. and_then (M.initialize_default_account_state T.id mint frozen) λ default.
              and_then (M.initialize_mint_close_authority T.id mint (some authorities.close.pubkey))
                λ close. ok (
                  (transfer_fee_config, fee)
                  ∷ (metadata_pointer, pointer)
                  ∷ (default_account_state, default)
                  ∷ (mint_close_authority, close)
                  ∷ [])

  unfoldable pub v2_added_extension_inits :
      Address → Authorities → ComplianceAuthorities → Result (List ExtensionInit) ProgramError
  v2_added_extension_inits mint authorities compliance =
      and_then (M.initialize_permanent_delegate T.id mint compliance.seizure.pubkey) λ delegate.
        and_then
          (M.initialize_confidential_mint T.id mint (some compliance.confidential.pubkey) false
            (some compliance.auditor.pubkey))
          λ confidential.
            and_then
              (M.initialize_confidential_fee_config T.id mint (some authorities.fee_withdraw.pubkey)
                compliance.fee_withdraw_elgamal.pubkey)
              λ fee. ok (
                (permanent_delegate, delegate)
                ∷ (confidential_transfer_mint, confidential)
                ∷ (confidential_transfer_fee_config, fee)
                ∷ [])

  -- The token-metadata instructions: `Initialize`, then an `UpdateField` for each extra pair.
  unfoldable pub metadata_instructions : Address → Authorities → StablecoinParams → List Instruction
  metadata_instructions mint authorities params =
      M.initialize_metadata T.id mint authorities.metadata.pubkey mint authorities.mint.pubkey
        params.name params.symbol params.uri
      ∷ map (λ (key, value). M.update_field T.id mint authorities.metadata.pubkey key value)
          params.additional_metadata

  module _ {W : Type 0} (C : Cluster W) where
    unfoldable pub plan_from_inits :
        Address → Authorities → StablecoinParams → List ExtensionInit → W → Result MintPlan Error
    unfolding token_metadata metadata_tlv_len
    plan_from_inits mint authorities params inits w =
        let extensions = extensions_of inits in
        from_program (
          and_then (M.try_calculate_account_len extensions) λ space.
            and_then (token_metadata params mint authorities.metadata.pubkey) λ stored.
              and_then (metadata_tlv_len stored) λ metadata_len.
                and_then
                  (M.initialize_mint2 T.id mint authorities.mint.pubkey
                    (some authorities.freeze.pubkey) params.decimals)
                  λ initialize_mint.
                    let lamports = C.minimum_balance_for_rent_exemption (space + metadata_len) w in
                    ok (record {
                      mint = mint;
                      extensions = extensions;
                      space = space;
                      metadata_len = metadata_len;
                      lamports = lamports;
                      initialize =
                          M.create_account (C.payer w) mint lamports space T.id
                          ∷ (instructions_of inits ++ (initialize_mint ∷ []));
                      metadata = metadata_instructions mint authorities params;
                    }))

    unfoldable pub plan_v1 : Address → Authorities → StablecoinParams → W → Result MintPlan Error
    unfolding v1_extension_inits plan_from_inits
    plan_v1 mint authorities params w =
        and_then (from_program (v1_extension_inits mint authorities params))
          λ inits. plan_from_inits mint authorities params inits w

    unfoldable pub plan_v2 :
        Address → Authorities → ComplianceAuthorities → StablecoinParams → W → Result MintPlan Error
    unfolding v1_extension_inits v2_added_extension_inits plan_from_inits
    plan_v2 mint authorities compliance params w =
        and_then (from_program (v1_extension_inits mint authorities params)) λ inits.
          and_then (from_program (v2_added_extension_inits mint authorities compliance))
            λ added. plan_from_inits mint authorities params (inits ++ added) w

module _ {W : Type 0} (C : Cluster W) where
  unfoldable pub create_mint : MintPlan → Keypair → Authorities → Flow W (Unit {0})
  create_mint plan mint authorities = do
    C.send plan.initialize (mint ∷ [])
    C.send plan.metadata (authorities.mint ∷ authorities.metadata ∷ [])
    pure tt

module _ {W : Type 0} (T : Token22) (M : MintInterface) (C : Cluster W) where
  unfoldable pub create_v1 : Keypair → Authorities → StablecoinParams → Flow W MintPlan
  unfolding plan_v1 create_mint
  create_v1 mint authorities params = do
    plan ← asks (plan_v1 T M C mint.pubkey authorities params)
    create_mint C plan mint authorities
    pure plan

  unfoldable pub create_v2 :
      Keypair → Authorities → ComplianceAuthorities → StablecoinParams → Flow W MintPlan
  unfolding plan_v2 create_mint
  create_v2 mint authorities compliance params = do
    plan ← asks (plan_v2 T M C mint.pubkey authorities compliance params)
    create_mint C plan mint authorities
    pure plan

  unfoldable pub close_mint : Address → Keypair → Address → Flow W (Unit {0})
  close_mint mint close_authority destination = do
    instruction ← try (T.close_account T.id mint destination close_authority.pubkey [])
    C.send (instruction ∷ []) (close_authority ∷ [])
    pure tt
