-- ===== src/Cluster.antt =====
-- remit/src/cluster.rs: the boundary between the flows and the chain.
-- `W` is the state of the world outside the library: the chain, and the system's random source.
-- A flow is a function of the world that returns its result and the world it leaves.
pub mod Recorded
pub mod Ledger
pub mod Frame
pub mod Inversion
use token_22_cts.Prelude.{ℕ, ◌+◌, ◌*◌, Bool, Option, List, ◌∷◌, leb}
use token_22_cts.Solana.{Bytes, Address, Keypair, Instruction, Logs, ProgramError}
use token_22_cts.Error.{Error, program, Result, ok, err, panicked}

abbrev pub packet_data_size : ℕ
packet_data_size = 1232

pub record Receipt : Type 0 where
  pub compute_units : ℕ
  pub size : ℕ
  pub logs : Logs

abbrev pub Flow : Type 0 → Type 0 → Type 0
Flow W A = W → Result A Error × W

-- `trait Cluster`. The reads take `&self`, so they leave the world as it is; `send` changes it.
pub record Cluster (W : Type 0) : Type 0 where
  pub payer : W → Address
  pub account_data : Address → W → Option Bytes
  pub lamports : Address → W → ℕ
  pub epoch : W → ℕ
  pub minimum_balance_for_rent_exemption : ℕ → W → ℕ
  pub send : List Instruction → List Keypair → Flow W Receipt

module _ {W : Type 0} {A : Type 0} where
  abbrev pub pure : A → Flow W A
  pure a w = (ok a, w)

  abbrev pub fail : Error → Flow W A
  fail e w = (err e, w)

  abbrev pub lift : Result A Error → Flow W A
  lift r w = (r, w)

  -- A read through `&self`.
  abbrev pub gets : (W → A) → Flow W A
  gets f w = (ok (f w), w)

  -- A fallible read through `&self`.
  abbrev pub asks : (W → Result A Error) → Flow W A
  asks f w = (f w, w)

-- The `?` on a `ProgramError`, by `#[from]`.
abbrev pub from_program : {A : Type 0} → Result A ProgramError → Result A Error
from_program (ok a) = ok a
from_program (err e) = err (program e)
from_program panicked = panicked

abbrev pub try : {W A : Type 0} → Result A ProgramError → Flow W A
try r = lift (from_program r)

abbrev pub continue : {W A B : Type 0} → Result A Error → (A → Flow W B) → Flow W B
continue (ok a) f w = f a w
continue (err e) f w = (err e, w)
continue panicked f w = (panicked, w)

infixl 5 ◌>>=◌ ◌>>◌
abbrev pub ◌>>=◌ : {W A B : Type 0} → Flow W A → (A → Flow W B) → Flow W B
◌>>=◌ m f w = let (r, w') = m w in continue r f w'

abbrev pub ◌>>◌ : {W A B : Type 0} → Flow W A → Flow W B → Flow W B
m >> n = m >>= λ _. n

-- What the message and compute-budget crates give: the size of a legacy message and the number of
-- its signatures (`Message::new`, `serialize`), and `SetComputeUnitLimit`.
pub record Wire : Type 0 where
  pub num_required_signatures : List Instruction → Address → ℕ
  pub message_len : List Instruction → Address → ℕ
  pub set_compute_unit_limit : ℕ → Instruction

unfoldable pub transaction_size : Wire → List Instruction → Address → ℕ
transaction_size x instructions payer =
    1 + x.num_required_signatures instructions payer * 64 + x.message_len instructions payer

unfoldable pub fits_in_one_transaction : Wire → List Instruction → Address → Bool
fits_in_one_transaction x instructions payer =
    leb (transaction_size x instructions payer) packet_data_size

unfoldable pub with_compute_unit_limit : Wire → ℕ → List Instruction → List Instruction
with_compute_unit_limit x units instructions = x.set_compute_unit_limit units ∷ instructions
