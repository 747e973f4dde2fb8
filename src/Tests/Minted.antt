-- ===== src/Tests/Minted.antt =====
-- The theorems on mints, run on the sample.
use token_22_cts.Prelude.{◌+◌, ◌≡◌, refl, some, List, [], ◌∷◌, length}
use token_22_cts.Solana.{Instruction}
use token_22_cts.Error.{ok}
use token_22_cts.Cluster.Recorded.{Log, recorded}
use token_22_cts.Random.{ElGamalKeypair}
use token_22_cts.Mint.Interface.{MintInterface}
use token_22_cts.Mint.{
  Authorities, ComplianceAuthorities, default_params, MintPlan, v1_extensions, v2_added_extensions,
  token_metadata, metadata_tlv_len, v1_extension_inits, v2_added_extension_inits,
  metadata_instructions, plan_from_inits, plan_v1, plan_v2, create_mint,
}
use token_22_cts.Prelude.{◌++◌}
use token_22_cts.Mint.Plan.{
  PlanOfV1, PlanOfV2, Creates, plan_v1-PlanOf, plan_v2-PlanOf, create_mint-Creates,
}
use token_22_cts.Tests.Sample.{Chain, at, key, toy, start}
use token_22_cts.Tests.Toy.{cluster}
use token_22_cts.Tests.Staged.{plain}

abbrev pub minting : MintInterface
minting = record {
  try_calculate_account_len = λ types. ok (82 + length types);
  size_of_extension_type = 2;
  size_of_length = 2;
  get_packed_len = λ metadata. ok 200;
  optional_non_zero = λ address. some address;
  create_account = λ payer account lamports space owner. plain (20 ∷ []);
  initialize_transfer_fee_config = λ id mint config withdraw points maximum. ok (plain (21 ∷ []));
  initialize_metadata_pointer = λ id mint authority address. ok (plain (22 ∷ []));
  initialize_default_account_state = λ id mint state. ok (plain (23 ∷ []));
  initialize_mint_close_authority = λ id mint authority. ok (plain (24 ∷ []));
  initialize_permanent_delegate = λ id mint delegate. ok (plain (25 ∷ []));
  initialize_confidential_mint = λ id mint authority approve auditor. ok (plain (26 ∷ []));
  initialize_confidential_fee_config = λ id mint authority elgamal. ok (plain (27 ∷ []));
  initialize_mint2 = λ id mint authority freeze decimals. ok (plain (28 ∷ []));
  initialize_metadata = λ id metadata update mint authority name symbol uri. plain (29 ∷ []);
  update_field = λ id metadata update field value. plain (30 ∷ []);
}

abbrev authorities : Authorities
authorities = record {
  mint = key 20;
  freeze = key 21;
  fee_config = key 22;
  fee_withdraw = key 23;
  close = key 24;
  metadata = key 25;
}

abbrev elgamal : ElGamalKeypair
elgamal = record { pubkey = at 50; secret = at 52 }

abbrev compliance : ComplianceAuthorities
compliance = record {
  seizure = key 26;
  confidential = key 27;
  auditor = elgamal;
  fee_withdraw_elgamal = elgamal;
}

abbrev updates : List Instruction
updates = plain (29 ∷ []) ∷ plain (30 ∷ []) ∷ plain (30 ∷ []) ∷ plain (30 ∷ []) ∷ []

abbrev first_plan : MintPlan
first_plan = record {
  mint = at 8;
  extensions = v1_extensions;
  space = 86;
  metadata_len = 204;
  lamports = 300;
  initialize =
      plain (20 ∷ [])
      ∷ plain (21 ∷ [])
      ∷ plain (22 ∷ [])
      ∷ plain (23 ∷ [])
      ∷ plain (24 ∷ [])
      ∷ plain (28 ∷ [])
      ∷ [];
  metadata = updates;
}

abbrev second_plan : MintPlan
second_plan = record {
  mint = at 8;
  extensions = v1_extensions ++ v2_added_extensions;
  space = 89;
  metadata_len = 204;
  lamports = 303;
  initialize =
      plain (20 ∷ [])
      ∷ plain (21 ∷ [])
      ∷ plain (22 ∷ [])
      ∷ plain (23 ∷ [])
      ∷ plain (24 ∷ [])
      ∷ plain (25 ∷ [])
      ∷ plain (26 ∷ [])
      ∷ plain (27 ∷ [])
      ∷ plain (28 ∷ [])
      ∷ [];
  metadata = updates;
}

planned_v1 : plan_v1 toy minting cluster (at 8) authorities default_params start ≡ ok first_plan
unfolding plan_v1 v1_extension_inits plan_from_inits token_metadata metadata_tlv_len
    metadata_instructions
planned_v1 = refl

plan_v1-PlanOf_example :
    PlanOfV1 toy minting cluster (at 8) authorities default_params start first_plan
plan_v1-PlanOf_example =
    plan_v1-PlanOf toy minting cluster (at 8) authorities default_params start first_plan planned_v1

planned_v2 :
    plan_v2 toy minting cluster (at 8) authorities compliance default_params start ≡ ok second_plan
unfolding plan_v2 v1_extension_inits v2_added_extension_inits plan_from_inits token_metadata
    metadata_tlv_len metadata_instructions
planned_v2 = refl

plan_v2-PlanOf_example :
    PlanOfV2 toy minting cluster (at 8) authorities default_params start compliance second_plan
plan_v2-PlanOf_example =
    plan_v2-PlanOf toy minting cluster (at 8) authorities default_params start compliance
      second_plan planned_v2

abbrev log_start : Chain × Log
log_start = (start, [])

create_mint-Creates_example :
    Creates cluster log_start first_plan
      (key 8)
      authorities
      (create_mint (recorded cluster) first_plan (key 8) authorities log_start)
create_mint-Creates_example = create_mint-Creates cluster log_start first_plan (key 8) authorities
