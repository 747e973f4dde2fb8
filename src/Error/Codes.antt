-- ===== src/Error/Codes.antt =====
-- remit/src/error.rs: what the accessors say of an error.
use token_22_cts.Prelude.{ℕ, ◌≡◌, ◌↔◌, refl, Option, some}
use token_22_cts.Solana.{Logs, InstructionError, instruction_error, TransactionError}
use token_22_cts.Error.{
  Error, transaction, transaction_too_large, account_not_found, program, crypto,
  insufficient_confidential_balance, invalid, token_error,
}

-- The transaction failed inside an instruction, with a custom code that `from_u32` decodes to `t`.
abbrev pub FailedWith : {T : Type 0} → (ℕ → Option T) → T → Error → Type 0
FailedWith from_u32 t e =
    (index : ℕ) × (code : ℕ) × (lines : Logs) × (e
      ≡ transaction (instruction_error index (InstructionError.custom code)) lines)
    × (from_u32 code ≡ some t)

sound :
    {T : Type 0} (from_u32 : ℕ → Option T) (e : Error) (t : T)
    → token_error from_u32 e ≡ some t
    → FailedWith from_u32 t e
unfolding token_error
sound from_u32 (transaction (instruction_error index (InstructionError.custom code)) lines) t h =
    (index, code, lines, refl, h)
sound from_u32 (transaction (instruction_error index (InstructionError.other n)) lines) t h = cc
sound from_u32 (transaction (TransactionError.other n) lines) t h = cc
sound from_u32 (transaction_too_large a b) t h = cc
sound from_u32 (account_not_found a) t h = cc
sound from_u32 (program a) t h = cc
sound from_u32 (crypto s) t h = cc
sound from_u32 (insufficient_confidential_balance a b) t h = cc
sound from_u32 (invalid r) t h = cc

-- `token_error` reports a Token-2022 error exactly for a transaction that failed inside an
-- instruction with a custom code that decodes to that error, whatever the index and the logs.
pub token_error_iff :
    {T : Type 0} (from_u32 : ℕ → Option T) (e : Error) (t : T)
    → (token_error from_u32 e ≡ some t) ↔ FailedWith from_u32 t e
unfolding token_error
token_error_iff from_u32 e t =
    (sound from_u32 e t, λ (index, code, lines, shape, decoded). rw shape decoded)
