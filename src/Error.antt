-- ===== src/Error.antt =====
-- remit/src/error.rs: the error type that every flow shares, and its accessors.
-- A `format!` text of `Error::Invalid` is one constructor of `Reason` with the values that it shows.
pub mod Codes
use token_22_cts.Prelude.{ℕ, Option, none, some, List, [], String}
use token_22_cts.Solana.{
  Address, Logs, ProgramError, InstructionError, TransactionError, instruction_error,
}

pub data Reason : Type 0 where
  fee_overflows : ℕ → Reason
  no_transfer_fee_config : Address → Reason
  not_confidential : Address → Reason
  lacks_immutable_owner : Address → Reason
  kyc_already_approved : Address → Reason
  already_frozen : Address → Reason
  stale_decryptable_balance : Address → ℕ → ℕ → Reason
  no_confidential_fee_amount no_confidential_mint no_confidential_fee_config : Reason
  does_not_fit_next_to_create : Reason
  record_write_does_not_fit proofs_do_not_fit : Reason

pub data Error : Type 0 where
  transaction : TransactionError → Logs → Error
  transaction_too_large : ℕ → ℕ → Error
  account_not_found : Address → Error
  program : ProgramError → Error
  crypto : String → Error
  insufficient_confidential_balance : ℕ → ℕ → Error
  invalid : Reason → Error

-- A Rust `Result`, with `panicked` for an overflow check that stops the program (the release
-- profile keeps these checks).
pub data Result (A : Type 0) (E : Type 0) : Type 0 where
  ok : A → Result A E
  err : E → Result A E
  panicked : Result A E

-- Two fallible steps in a row.
abbrev pub and_then : {A B E : Type 0} → Result A E → (A → Result B E) → Result B E
and_then (ok a) f = f a
and_then (err e) f = err e
and_then panicked f = panicked

-- `Result::ok`, for a result that cannot panic: what is no value becomes `none`.
abbrev pub to_option : {A E : Type 0} → Result A E → Option A
to_option (ok a) = some a
to_option (err e) = none
to_option panicked = none

abbrev pub ok_or : {A E : Type 0} → Option A → E → Result A E
ok_or none e = err e
ok_or (some a) e = ok a

-- `Error::instruction_error`
pub find_instruction_error : Error → Option (ℕ × InstructionError)
find_instruction_error (transaction (instruction_error index e) logs) = some (index, e)
find_instruction_error _ = none

custom_code_of : InstructionError → Option ℕ
custom_code_of (InstructionError.custom code) = some code
custom_code_of (InstructionError.other n) = none

-- `Error::custom_code`
pub custom_code : Error → Option ℕ
unfolding find_instruction_error custom_code_of
custom_code e = elim (find_instruction_error e) [
  | none ↦ none
  | some (index, inner) ↦ custom_code_of inner
]

-- `Error::token_error`, over the interface crate's `TokenError::from_u32`.
pub token_error : {T : Type 0} → (ℕ → Option T) → Error → Option T
unfolding custom_code
token_error from_u32 e = elim (custom_code e) [ none ↦ none | some code ↦ from_u32 code ]

-- `Error::logs`
pub logs : Error → Logs
logs (transaction e lines) = lines
logs _ = []
