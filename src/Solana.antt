-- ===== src/Solana.antt =====
-- The types of the Solana crates that the library's own code takes apart: byte strings, addresses,
-- keys, instructions and the error types. The rest of those crates is a parameter (see Cluster).
use token_22_cts.Prelude.{ℕ, ◌^◌, ◌≡◌, List, Bool, String, length}

abbrev pub Bytes : Type 0
Bytes = List ℕ

-- An address is 32 bytes; the operations only compare addresses and pass their bytes on.
abbrev pub Address : Type 0
Address = Bytes

abbrev pub IsAddress : Address → Type 0
IsAddress a = length a ≡ 32

abbrev pub u32_mod : ℕ
u32_mod = 2 ^ 32

abbrev pub u64_mod : ℕ
u64_mod = 2 ^ 64

-- What the library reads of a signing key is its public key.
pub record Keypair : Type 0 where
  pub pubkey : Address

pub record AccountMeta : Type 0 where
  pub pubkey : Address
  pub is_signer : Bool
  pub is_writable : Bool

pub record Instruction : Type 0 where
  pub program_id : Address
  pub accounts : List AccountMeta
  pub instruction_data : Bytes

-- The errors that the sources name, and the others by their number.
pub data ProgramError : Type 0 where
  custom : ℕ → ProgramError
  invalid_argument invalid_account_data invalid_instruction_data : ProgramError
  not_enough_account_keys arithmetic_overflow : ProgramError
  other : ℕ → ProgramError

pub data InstructionError : Type 0 where
  custom : ℕ → InstructionError
  other : ℕ → InstructionError

pub data TransactionError : Type 0 where
  instruction_error : ℕ → InstructionError → TransactionError
  other : ℕ → TransactionError

-- `log` is one line of a program's log.
abbrev pub Logs : Type 0
Logs = List String
