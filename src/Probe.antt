-- ===== src/Probe.antt =====
-- programs/cpi-guard-probe/src/lib.rs: the program that forwards its owner's signature.
pub mod Codec
pub mod Forward
use token_22_cts.Prelude.{
  ℕ, true, false, Option, none, some, List, [], ◌∷◌, ◌==◌, if◌then◌else◌, length, to_le_bytes,
  from_le_bytes,
}
use token_22_cts.Solana.{
  Bytes, Address, AccountMeta, Instruction, ProgramError, invalid_instruction_data,
  arithmetic_overflow,
}
use token_22_cts.Error.{Result, ok, err, panicked, and_then, ok_or, to_option}
use token_22_cts.Token22.{Token22, TransferFeeConfig}
use token_22_cts.Program.{
  AccountInfo, Runtime, Invocation, conclude, FiveAccounts, next_five, writable, read_only,
}

-- `declare_id!`: the bytes of PrbYbnB8WGBgCumTLHbUzWUe8hks2bA4KYHYaQXGTKW.
abbrev pub probe_id : Address
probe_id =
    5 ∷ 218 ∷ 219 ∷ 16 ∷ 182 ∷ 115 ∷ 174 ∷ 177 ∷ 21 ∷ 87 ∷ 192 ∷ 52 ∷ 149 ∷ 134 ∷ 253 ∷ 0 ∷ 44 ∷ 77
    ∷ 209 ∷ 113 ∷ 37 ∷ 226 ∷ 156 ∷ 150 ∷ 228 ∷ 198 ∷ 23 ∷ 91 ∷ 67 ∷ 236 ∷ 149 ∷ 49 ∷ []

pub data ProbeInstruction : Type 0 where
  forward_owner_transfer : ℕ → ProbeInstruction
  forward_approve : ℕ → ProbeInstruction

-- `ProbeInstruction::pack`
unfoldable pub pack : ProbeInstruction → Bytes
pack (forward_owner_transfer amount) = 0 ∷ to_le_bytes 8 amount
pack (forward_approve amount) = 1 ∷ to_le_bytes 8 amount

-- `ProbeInstruction::unpack`: first the amount, then the tag.
unfoldable pub unpack : Bytes → Result ProbeInstruction ProgramError
unpack [] = err invalid_instruction_data
unpack (tag ∷ rest) =
    if length rest == 8
    then if tag == 0
      then ok (forward_owner_transfer (from_le_bytes rest))
      else if tag == 1
      then ok (forward_approve (from_le_bytes rest))
      else err invalid_instruction_data
    else err invalid_instruction_data

module _ {V : Type 0} (T : Token22) (rt : Runtime V) where
  unfoldable pub read_mint : AccountInfo → Result (ℕ × Option TransferFeeConfig) ProgramError
  read_mint mint = and_then mint.borrowed λ bytes.
      and_then (T.unpack_mint bytes) λ state. ok (state.decimals, to_option state.transfer_fee)

  unfoldable pub fee_of : Option TransferFeeConfig → ℕ → V → Result ℕ ProgramError
  fee_of none amount v = ok 0
  fee_of (some config) amount v =
      and_then (rt.clock_epoch v)
        λ epoch. ok_or (T.calculate_epoch_fee config epoch amount) arithmetic_overflow

  -- The instruction that the owner's signature is forwarded to.
  unfoldable pub forwarded :
      FiveAccounts
      → ℕ
      → Option TransferFeeConfig
      → V
      → ProbeInstruction
      → Result Instruction ProgramError
  unfolding fee_of
  forwarded accounts decimals fee_config v (forward_owner_transfer amount) =
      and_then (fee_of fee_config amount v) λ fee.
        T.transfer_checked_with_fee accounts.fifth.key accounts.first.key accounts.second.key
          accounts.third.key accounts.fourth.key [] amount decimals fee
  forwarded accounts decimals fee_config v (forward_approve amount) =
      T.approve_checked accounts.fifth.key accounts.first.key accounts.second.key accounts.third.key
        accounts.fourth.key [] amount decimals

  -- `process_instruction` up to its call of Token-2022.
  unfoldable pub prepare : List AccountInfo → Bytes → V → Result Invocation ProgramError
  unfolding unpack next_five read_mint forwarded
  prepare infos instruction_data v = and_then (unpack instruction_data) λ instruction.
      and_then (next_five infos) λ accounts.
        and_then (read_mint accounts.second) λ (decimals, fee_config).
          and_then (forwarded accounts decimals fee_config v instruction) λ forward. ok (record {
            instruction = forward;
            accounts =
                accounts.first ∷ accounts.second ∷ accounts.third ∷ accounts.fourth ∷ accounts.fifth
                ∷ [];
            signer_seeds = [];
          })

  unfoldable pub process_instruction :
      Address → List AccountInfo → Bytes → V → Result (Unit {0}) ProgramError × V
  unfolding prepare
  process_instruction program_id infos instruction_data v =
      conclude rt (prepare infos instruction_data v) v

module _ (T : Token22) where
  -- `instruction::build`
  unfoldable pub build_instruction :
      AccountMeta → Address → Address → Address → ProbeInstruction → Instruction
  unfolding pack
  build_instruction target source mint owner instruction = record {
    program_id = probe_id;
    accounts =
        writable source
        ∷ read_only mint
        ∷ target
        ∷ record { pubkey = owner; is_signer = true; is_writable = false }
        ∷ read_only T.id
        ∷ [];
    instruction_data = pack instruction;
  }

  -- `instruction::forward_owner_transfer`
  unfoldable pub owner_transfer_instruction :
      Address → Address → Address → Address → ℕ → Instruction
  unfolding build_instruction
  owner_transfer_instruction source mint destination owner amount =
      build_instruction (writable destination) source mint owner (forward_owner_transfer amount)

  -- `instruction::forward_approve`
  unfoldable pub approve_instruction : Address → Address → Address → Address → ℕ → Instruction
  unfolding build_instruction
  approve_instruction source mint delegate owner amount =
      build_instruction (read_only delegate) source mint owner (forward_approve amount)
