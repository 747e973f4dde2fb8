-- ===== src/Program.antt =====
-- The on-chain runtime as the two programs see it (programs/remit-agent, programs/cpi-guard-probe): the
-- accounts that an instruction is given, the clock, the derivation of program addresses, and the call of
-- another program. `V` is the state of the chain.
use token_22_cts.Prelude.{ℕ, Bool, List, ◌∷◌}
use token_22_cts.Solana.{
  Bytes, Address, Instruction, AccountMeta, ProgramError, not_enough_account_keys,
}
use token_22_cts.Error.{Result, ok, err, panicked}

-- `data` is the outcome of `try_borrow_data`.
pub record AccountInfo : Type 0 where
  pub key : Address
  pub owner : Address
  pub borrowed : Result Bytes ProgramError

pub record Runtime (V : Type 0) : Type 0 where
  -- `Clock::get()?.epoch`
  pub clock_epoch : V → Result ℕ ProgramError
  pub find_program_address : List Bytes → Address → Address × ℕ
  -- `invoke_signed` with the seeds of its one signer, or `invoke` with none.
  pub invoke_signed :
      Instruction → List AccountInfo → List (List Bytes) → V → Result (Unit {0}) ProgramError × V

-- A call of another program: the last thing that either program does.
pub record Invocation : Type 0 where
  pub instruction : Instruction
  pub accounts : List AccountInfo
  pub signer_seeds : List (List Bytes)

-- The program's result: an error of its own, or the result of its call.
abbrev pub conclude :
    {V : Type 0}
    → Runtime V
    → Result Invocation ProgramError
    → V
    → Result (Unit {0}) ProgramError × V
conclude rt (ok i) v = rt.invoke_signed i.instruction i.accounts i.signer_seeds v
conclude rt (err e) v = (err e, v)
conclude rt panicked v = (panicked, v)

pub record FiveAccounts : Type 0 where
  pub first : AccountInfo
  pub second : AccountInfo
  pub third : AccountInfo
  pub fourth : AccountInfo
  pub fifth : AccountInfo

-- Five calls of `next_account_info`; accounts beyond the fifth are not looked at.
unfoldable pub next_five : List AccountInfo → Result FiveAccounts ProgramError
next_five (a ∷ b ∷ c ∷ d ∷ e ∷ rest) =
    ok (record { first = a; second = b; third = c; fourth = d; fifth = e })
next_five _ = err not_enough_account_keys

abbrev pub writable : Address → AccountMeta
writable a = record { pubkey = a; is_signer = Bool.false; is_writable = Bool.true }

abbrev pub read_only : Address → AccountMeta
read_only a = record { pubkey = a; is_signer = Bool.false; is_writable = Bool.false }
