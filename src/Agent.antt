-- ===== src/Agent.antt =====
-- programs/remit-agent/src/lib.rs: the program that pays a mandate.
pub mod Mandate
pub mod Codec
pub mod Client
pub mod Binding
use token_22_cts.Prelude.{
  ℕ, Option, none, some, List, [], ◌∷◌, not, ◌==◌, bytes_eq, if◌then◌else◌, length, to_le_bytes,
  from_le_bytes,
}
use token_22_cts.Solana.{
  Bytes, Address, Instruction, ProgramError, custom, invalid_instruction_data,
}
use token_22_cts.Error.{Result, ok, err, panicked, and_then, ok_or, to_option}
use token_22_cts.Token22.{Token22, TransferFeeConfig}
use token_22_cts.Program.{
  AccountInfo, Runtime, Invocation, conclude, FiveAccounts, next_five, writable, read_only,
}

-- `declare_id!`: the bytes of AgntJP3i95tX9ruhfrkoA5Z12LVug6YMjhFJpBJ4AWAT.
abbrev pub agent_id : Address
agent_id =
    143 ∷ 234 ∷ 183 ∷ 51 ∷ 210 ∷ 26 ∷ 142 ∷ 239 ∷ 164 ∷ 131 ∷ 95 ∷ 80 ∷ 24 ∷ 100 ∷ 235 ∷ 214 ∷ 119
    ∷ 18 ∷ 215 ∷ 104 ∷ 179 ∷ 173 ∷ 255 ∷ 17 ∷ 227 ∷ 14 ∷ 237 ∷ 238 ∷ 63 ∷ 171 ∷ 154 ∷ 112 ∷ []

-- `MANDATE_SEED`
abbrev pub mandate_seed : Bytes
mandate_seed = 109 ∷ 97 ∷ 110 ∷ 100 ∷ 97 ∷ 116 ∷ 101 ∷ []

pub data AgentError : Type 0 where
  wrong_token_program mandate_mismatch mint_not_owned_by_token_2022 fee_overflow : AgentError

-- `From<AgentError> for ProgramError`
unfoldable pub agent_error : AgentError → ProgramError
agent_error wrong_token_program = custom 6000
agent_error mandate_mismatch = custom 6001
agent_error mint_not_owned_by_token_2022 = custom 6002
agent_error fee_overflow = custom 6003

pub data AgentInstruction : Type 0 where
  execute_mandate : ℕ → AgentInstruction

abbrev pub amount_of : AgentInstruction → ℕ
amount_of (execute_mandate amount) = amount

-- `AgentInstruction::pack`
unfoldable pub pack : AgentInstruction → Bytes
pack (execute_mandate amount) = 0 ∷ to_le_bytes 8 amount

-- `AgentInstruction::unpack`
unfoldable pub unpack : Bytes → Result AgentInstruction ProgramError
unpack [] = err invalid_instruction_data
unpack (tag ∷ amount) =
    if tag == 0
    then if length amount == 8
      then ok (execute_mandate (from_le_bytes amount))
      else err invalid_instruction_data
    else err invalid_instruction_data

-- The seeds of the mandate PDA.
unfoldable pub mandate_seeds : Address → Address → ℕ → List Bytes
mandate_seeds source destination amount =
    mandate_seed ∷ source ∷ destination ∷ to_le_bytes 8 amount ∷ []

module _ {V : Type 0} (T : Token22) (rt : Runtime V) where
  unfoldable pub mandate_address : Address → Address → ℕ → Address × ℕ
  unfolding mandate_seeds
  mandate_address source destination amount =
      rt.find_program_address (mandate_seeds source destination amount) agent_id

  unfoldable pub read_mint : AccountInfo → Result (ℕ × Option TransferFeeConfig) ProgramError
  unfolding agent_error
  read_mint mint =
      if bytes_eq mint.owner T.id
      then (and_then mint.borrowed λ bytes.
          and_then (T.unpack_mint bytes) λ state. ok (state.decimals, to_option state.transfer_fee))
      else err (agent_error mint_not_owned_by_token_2022)

  unfoldable pub epoch_fee : Option TransferFeeConfig → ℕ → V → Result ℕ ProgramError
  unfolding agent_error
  epoch_fee none amount v = ok 0
  epoch_fee (some config) amount v =
      and_then (rt.clock_epoch v)
        λ epoch. ok_or (T.calculate_epoch_fee config epoch amount) (agent_error fee_overflow)

  -- `process_instruction` after its two checks, for the bump that the derivation gave.
  unfoldable pub pay : FiveAccounts → ℕ → ℕ → V → Result Invocation ProgramError
  unfolding read_mint epoch_fee mandate_seeds
  pay accounts amount bump v =
      let source = accounts.first in
      let mint = accounts.second in
      let destination = accounts.third in
      let mandate = accounts.fourth in
      let token_program = accounts.fifth in
      and_then (read_mint mint) λ (decimals, fee_config).
        and_then (epoch_fee fee_config amount v) λ fee.
          and_then
            (T.transfer_checked_with_fee token_program.key source.key mint.key destination.key
              mandate.key [] amount decimals fee)
            λ transfer. ok (record {
              instruction = transfer;
              accounts = source ∷ mint ∷ destination ∷ mandate ∷ token_program ∷ [];
              signer_seeds =
                  (mandate_seed
                    ∷ source.key
                    ∷ destination.key
                    ∷ to_le_bytes 8 amount
                    ∷ (bump ∷ [])
                    ∷ [])
                  ∷ [];
            })

  -- `process_instruction` up to its call of Token-2022.
  unfoldable pub prepare : Address → List AccountInfo → Bytes → V → Result Invocation ProgramError
  unfolding unpack next_five agent_error mandate_seeds pay bytes_eq
  prepare program_id infos instruction_data v = and_then (unpack instruction_data) λ instruction.
      let amount = amount_of instruction in
      and_then (next_five infos) λ accounts.
        let (expected, bump) =
          rt.find_program_address (mandate_seeds accounts.first.key accounts.third.key amount)
            program_id in
        if bytes_eq accounts.fifth.key T.id
        then if bytes_eq accounts.fourth.key expected
          then pay accounts amount bump v
          else err (agent_error mandate_mismatch)
        else err (agent_error wrong_token_program)

  unfoldable pub process_instruction :
      Address → List AccountInfo → Bytes → V → Result (Unit {0}) ProgramError × V
  unfolding prepare
  process_instruction program_id infos instruction_data v =
      conclude rt (prepare program_id infos instruction_data v) v

  -- `instruction::execute_mandate`
  unfoldable pub execute_mandate_instruction : Address → Address → Address → ℕ → Instruction
  unfolding mandate_address pack
  execute_mandate_instruction source mint destination amount =
      let (mandate, bump) = mandate_address source destination amount in
      record {
        program_id = agent_id;
        accounts =
            writable source
            ∷ read_only mint
            ∷ writable destination
            ∷ read_only mandate
            ∷ read_only T.id
            ∷ [];
        instruction_data = pack (execute_mandate amount);
      }
