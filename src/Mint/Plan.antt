-- ===== src/Mint/Plan.antt =====
-- remit/src/mint.rs: the order and the size of a planned mint, and the transactions that create it.
use mathlib.Core.List.{map-append}
use token_22_cts.Prelude.{
  ◌+◌, ◌≡◌, ◌⊎◌, refl, ◌∙◌, subst, true, false, List, [], ◌∷◌, ◌++◌, some, arith,
}
use token_22_cts.Solana.{Address, Keypair, Instruction}
use token_22_cts.Error.{ok}
use token_22_cts.Cluster.{Cluster, from_program}
use token_22_cts.Cluster.Inversion.{and_then-ok, ok-injective, from_program-ok}
use token_22_cts.Cluster.Recorded.{Log, Outcome, is_ok, recorded, log_of}
use token_22_cts.Token22.{Token22, TokenMetadata}
use token_22_cts.Mint.Interface.{MintInterface}
use token_22_cts.Mint.{
  v1_extensions, v2_added_extensions, Authorities, ComplianceAuthorities, StablecoinParams,
  ExtensionInit, MintPlan, extensions_of, instructions_of, token_metadata, metadata_tlv_len,
  v1_extension_inits, v2_added_extension_inits, metadata_instructions, plan_from_inits, plan_v1,
  plan_v2, create_mint,
}

module _ {W : Type 0} (T : Token22) (M : MintInterface) (C : Cluster W) (mint : Address)
    (authorities : Authorities) (params : StablecoinParams) (w : W) where
  -- The plan of a mint that is given these extensions by these initializers: the account is created
  -- first, with the space of the extensions and the rent for that space and the metadata, then the
  -- extensions are initialized in order, and `InitializeMint2` is last.
  abbrev pub PlanOf : List ExtensionInit → MintPlan → Type 0
  PlanOf inits plan =
      (stored : TokenMetadata) × (initialize_mint : Instruction) × (plan.mint ≡ mint)
      × (plan.extensions ≡ extensions_of inits)
      × (M.try_calculate_account_len (extensions_of inits) ≡ ok plan.space)
      × (token_metadata T M params mint authorities.metadata.pubkey ≡ ok stored)
      × (metadata_tlv_len T M stored ≡ ok plan.metadata_len)
      × (plan.lamports ≡ C.minimum_balance_for_rent_exemption (plan.space + plan.metadata_len) w)
      × (M.initialize_mint2 T.id mint authorities.mint.pubkey (some authorities.freeze.pubkey)
            params.decimals
          ≡ ok initialize_mint)
      × (plan.initialize
          ≡ M.create_account (C.payer w) mint plan.lamports plan.space T.id
            ∷ (instructions_of inits ++ (initialize_mint ∷ [])))
      × (plan.metadata ≡ metadata_instructions T M mint authorities params)

  plan_from_inits-PlanOf :
      (inits : List ExtensionInit) (plan : MintPlan)
      → plan_from_inits T M C mint authorities params inits w ≡ ok plan
      → PlanOf inits plan
  unfolding plan_from_inits
  plan_from_inits-PlanOf inits plan h =
      let h0 = from_program-ok _ h in
      let (space, sized, h1) =
        and_then-ok (M.try_calculate_account_len (extensions_of inits)) _ h0 in
      let (stored, made, h2) =
        and_then-ok (token_metadata T M params mint authorities.metadata.pubkey) _ h1 in
      let (metadata_len, measured, h3) = and_then-ok (metadata_tlv_len T M stored) _ h2 in
      let (initialize_mint, built, h4) =
        and_then-ok
          (M.initialize_mint2 T.id mint authorities.mint.pubkey (some authorities.freeze.pubkey)
            params.decimals)
          _ h3 in
      subst (PlanOf inits) (ok-injective h4)
        (stored, initialize_mint, refl, refl, sized, made, measured, refl, built, refl, refl)

  v1-extensions :
      (inits : List ExtensionInit)
      → v1_extension_inits T M mint authorities params ≡ ok inits
      → extensions_of inits ≡ v1_extensions
  unfolding v1_extension_inits
  v1-extensions inits h = ground arith

  abbrev pub PlanOfV1 : MintPlan → Type 0
  PlanOfV1 plan =
      (inits : List ExtensionInit) × (v1_extension_inits T M mint authorities params ≡ ok inits)
      × (plan.extensions ≡ v1_extensions)
      × PlanOf inits plan

  -- A version 1 plan gives the mint exactly the extensions of `V1_EXTENSIONS`, initialized in that
  -- order, between the creation of the account, whose size is that of those extensions and whose
  -- rent covers the metadata too, and `InitializeMint2`.
  pub plan_v1-PlanOf :
      (plan : MintPlan) → plan_v1 T M C mint authorities params w ≡ ok plan → PlanOfV1 plan
  unfolding plan_v1
  plan_v1-PlanOf plan h =
      let (inits, built, h1) =
        and_then-ok (from_program (v1_extension_inits T M mint authorities params)) _ h in
      let planned = plan_from_inits-PlanOf inits plan h1 in
      let made = from_program-ok _ built in
      (inits, made, planned.3 ∙ v1-extensions inits made, planned)

  module _ (compliance : ComplianceAuthorities) where
    v2_added-extensions :
        (added : List ExtensionInit)
        → v2_added_extension_inits T M mint authorities compliance ≡ ok added
        → extensions_of added ≡ v2_added_extensions
    unfolding v2_added_extension_inits
    v2_added-extensions added h = ground arith

    abbrev pub PlanOfV2 : MintPlan → Type 0
    PlanOfV2 plan =
        (inits : List ExtensionInit) × (added : List ExtensionInit) × (v1_extension_inits T M mint
            authorities params
          ≡ ok inits)
        × (v2_added_extension_inits T M mint authorities compliance ≡ ok added)
        × (plan.extensions ≡ v1_extensions ++ v2_added_extensions)
        × PlanOf (inits ++ added) plan

    -- A version 2 plan gives the mint the extensions of version 1, by the same instructions, and then
    -- those of `V2_ADDED_EXTENSIONS`, again between the creation of the account and
    -- `InitializeMint2`.
    pub plan_v2-PlanOf :
        (plan : MintPlan)
        → plan_v2 T M C mint authorities compliance params w ≡ ok plan
        → PlanOfV2 plan
    unfolding plan_v2
    plan_v2-PlanOf plan h =
        let (inits, built, h1) =
          and_then-ok (from_program (v1_extension_inits T M mint authorities params)) _ h in
        let (added, built', h2) =
          and_then-ok (from_program (v2_added_extension_inits T M mint authorities compliance)) _
            h1 in
        let planned = plan_from_inits-PlanOf (inits ++ added) plan h2 in
        let made = from_program-ok _ built in
        let made' = from_program-ok _ built' in
        (
          inits,
          added,
          made,
          made',
          planned.3 ∙ map-append (λ (e, i). e) inits added ∙ λ i.
              v1-extensions inits made i ++ v2_added-extensions added made' i,
          planned,
        )

module _ {W : Type 0} (C : Cluster W) (v : W × Log) where
  -- The account is created and initialized in a first transaction, and the metadata written in a
  -- second one, which is sent only if the first has landed.
  abbrev pub Creates : MintPlan → Keypair → Authorities → Outcome W (Unit {0}) → Type 0
  Creates plan mint authorities r =
      ((is_ok r.0 ≡ false)
        × (log_of r
            ≡ record { instructions = plan.initialize; signers = mint ∷ []; landed = false } ∷ v.1))
      ⊎ (log_of r
          ≡ record {
            instructions = plan.metadata;
            signers = authorities.mint ∷ authorities.metadata ∷ [];
            landed = is_ok r.0;
          }
            ∷ record { instructions = plan.initialize; signers = mint ∷ []; landed = true }
            ∷ v.1)

  -- On every cluster `create_mint` sends the initialization, signed by the mint's key. If that does
  -- not land the call fails and nothing more is sent; otherwise the metadata is sent, signed by the
  -- mint and the metadata authority, and the call succeeds exactly if that lands too.
  pub create_mint-Creates :
      (plan : MintPlan) (mint : Keypair) (authorities : Authorities)
      → Creates plan mint authorities (create_mint (recorded C) plan mint authorities v)
  unfolding create_mint
  create_mint-Creates plan mint authorities = ground arith
