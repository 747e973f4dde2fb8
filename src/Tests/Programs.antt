-- ===== src/Tests/Programs.antt =====
-- The theorems on the two on-chain programs, run on the sample's mint.
use token_22_cts.Prelude.{
  ℕ, suc, ◌<◌, ◌≡◌, refl, none, some, List, [], ◌∷◌, map, All, IsByte, from_le_bytes, arith,
}
use token_22_cts.Solana.{Bytes, AccountMeta, u64_mod}
use token_22_cts.Error.{ok}
use token_22_cts.Token22.{transfer_fee_config, frozen}
use token_22_cts.State.{MintSnapshot, decode_mint, decode_default_state}
use token_22_cts.Program.{AccountInfo, Runtime}
use token_22_cts.Agent.{
  execute_mandate, agent_id, pack, unpack, prepare, pay, mandate_address, process_instruction,
  execute_mandate_instruction,
}
use token_22_cts.Agent.Codec.{pack-unpack}
use token_22_cts.Agent.Mandate.{FailsOrPays, process_instruction-pays}
use token_22_cts.Agent.Client.{SameFee, prepare-execute_mandate, epoch_fee-expected_fee}
use token_22_cts.Probe
use token_22_cts.Probe.{ProbeInstruction, forward_approve}
use token_22_cts.Probe.Forward.{FailsOrForwards, process_instruction-forwards}
use token_22_cts.Tests.Sample.{at, coin_at, schedule, toy}

-- A runtime that counts its calls, and derives one address.
abbrev pub runtime : Runtime ℕ
runtime = record {
  clock_epoch = λ v. ok 4;
  find_program_address = λ seeds id. (at 60, 250);
  invoke_signed = λ i accounts seeds v. (ok tt, suc v);
}

abbrev pub info : ℕ → AccountInfo
info n = record { key = at n; owner = at 0; borrowed = ok (1 ∷ 6 ∷ []) }

abbrev infos : List AccountInfo
infos = info 2 ∷ info 7 ∷ info 3 ∷ info 60 ∷ info 0 ∷ []

abbrev pub packed : Bytes
packed = 0 ∷ 160 ∷ 15 ∷ 0 ∷ 0 ∷ 0 ∷ 0 ∷ 0 ∷ 0 ∷ []

abbrev packed_approve : Bytes
packed_approve = 1 ∷ 160 ∷ 15 ∷ 0 ∷ 0 ∷ 0 ∷ 0 ∷ 0 ∷ 0 ∷ []

is_u64 : 4_000 < u64_mod
is_u64 = omega arith

pub packed-All : All IsByte packed
packed-All = ground arith

unpacked : unpack packed ≡ ok (execute_mandate 4_000)
unfolding unpack from_le_bytes
unpacked = refl

pack-unpack_example : pack (execute_mandate 4_000) ≡ packed
pack-unpack_example = pack-unpack packed (execute_mandate 4_000) packed-All unpacked

process_instruction-pays_example :
    FailsOrPays toy runtime agent_id infos packed 0
      (process_instruction toy runtime agent_id infos packed 0)
process_instruction-pays_example = process_instruction-pays toy runtime agent_id infos packed 0

keys_match :
    map (λ (x : AccountInfo). x.key) infos
    ≡ map
        (λ (m : AccountMeta). m.pubkey)
        (execute_mandate_instruction toy runtime (at 2) coin_at (at 3) 4_000).accounts
unfolding execute_mandate_instruction mandate_address
keys_match = refl

prepare-execute_mandate_example :
    prepare toy runtime agent_id infos
      (execute_mandate_instruction toy runtime (at 2) coin_at (at 3) 4_000).instruction_data
      0
    ≡ pay toy runtime
        (record {
          first = info 2;
          second = info 7;
          third = info 3;
          fourth = info 60;
          fifth = info 0;
        })
        4_000
        (mandate_address toy runtime (at 2) (at 3) 4_000).1
        0
prepare-execute_mandate_example =
    prepare-execute_mandate toy runtime 0 (at 2) coin_at (at 3) 4_000 (info 2) (info 7) (info 3)
      (info 60) (info 0) is_u64 keys_match

abbrev pub coin_shot : MintSnapshot
coin_shot = record {
  address = coin_at;
  decimals = 6;
  supply = 1_000;
  mint_authority = some (at 20);
  freeze_authority = some (at 21);
  extensions = transfer_fee_config ∷ [];
  transfer_fee = some schedule;
  metadata_pointer = none;
  default_account_state = some frozen;
  close_authority = none;
  permanent_delegate = some (at 22);
  confidential = some (record { auditor_elgamal_pubkey = some (at 54) });
  confidential_fee = some (record { withdraw_withheld_authority_elgamal_pubkey = at 51 });
  metadata = none;
  data_len = 2;
  lamports = 1;
}

coin_decodes : decode_mint toy coin_at (1 ∷ 6 ∷ []) 1 ≡ ok coin_shot
unfolding decode_mint decode_default_state
coin_decodes = refl

epoch_fee-expected_fee_example : SameFee toy runtime 0 (info 7) 4 4_000 coin_shot schedule
epoch_fee-expected_fee_example =
    epoch_fee-expected_fee toy runtime 0 (info 7) (1 ∷ 6 ∷ []) coin_at 1 4 4_000 coin_shot schedule
      refl refl refl coin_decodes refl

process_instruction-forwards_example :
    FailsOrForwards toy runtime infos packed_approve 0
      (Probe.process_instruction toy runtime Probe.probe_id infos packed_approve 0)
process_instruction-forwards_example =
    process_instruction-forwards toy runtime Probe.probe_id infos packed_approve 0
