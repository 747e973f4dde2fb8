-- ===== src/Tests/Sample.antt =====
-- A small chain on which the theorems are run: a few token accounts and a mint, kept as data that is
-- encoded to bytes, a program that thaws, freezes and transfers, and interface functions to match. It
-- satisfies what `Cluster/Ledger` asks of a chain.
use token_22_cts.Prelude.{
  ℕ, zero, suc, ◌*◌, ◌/◌, Bool, true, false, Option, none, some, List, [], ◌∷◌, ◌++◌, map, leb,
  if◌then◌else◌, bytes_eq,
}
use Prim.Native.Nat.{min}
use token_22_cts.Solana.{Bytes, Address, Keypair, Instruction, ProgramError, invalid_account_data}
use token_22_cts.Error.{Result, ok, err}
use token_22_cts.Token22.{
  Token22, AccountState, ExtensionType, initialized, frozen, immutable_owner, transfer_fee_config,
  TransferFee, TransferFeeConfig, ConfidentialTransferAccount, MintState, TokenAccountState,
}

pub data Cell : Type 0 where
  token : ℕ → Bool → Cell
  coin : ℕ → Cell

pub record Chain : Type 0 where
  pub cells : Address → Option Cell
  pub drawn : ℕ

-- An address is named by a small number.
abbrev pub at : ℕ → Address
at n = n ∷ []

abbrev pub key : ℕ → Keypair
key n = record { pubkey = at n }

abbrev pub coin_at : Address
coin_at = at 7

-- The fourth account has no fixed owner.
abbrev pub is_loose : Address → Bool
is_loose a = bytes_eq a (at 4)

abbrev pub encode : Bool → Cell → Bytes
encode false (token amount false) = 0 ∷ amount ∷ 0 ∷ []
encode false (token amount true) = 0 ∷ amount ∷ 1 ∷ []
encode true (token amount false) = 2 ∷ amount ∷ 0 ∷ []
encode true (token amount true) = 2 ∷ amount ∷ 1 ∷ []
encode loose (coin decimals) = 1 ∷ decimals ∷ []

abbrev pub put : Address → Cell → Chain → Chain
put a c w = record w { cells = λ b. if bytes_eq b a then some c else w.cells b }

abbrev pub schedule : TransferFeeConfig
schedule = record {
  older_transfer_fee = record { epoch = 0; maximum_fee = 50; transfer_fee_basis_points = 100 };
  newer_transfer_fee = record { epoch = 9; maximum_fee = 50; transfer_fee_basis_points = 500 };
}

-- 100 units of encrypted balance under the trivial cipher, which adds nothing.
abbrev pub hidden : ConfidentialTransferAccount
hidden = record {
  elgamal_pubkey = at 50;
  pending_balance_lo = 30 ∷ [];
  pending_balance_hi = 2 ∷ [];
  available_balance = 100 ∷ [];
  decryptable_available_balance = 100 ∷ [];
  pending_balance_credit_counter = 3;
  expected_pending_balance_credit_counter = 4;
  actual_pending_balance_credit_counter = 4;
}

abbrev pub extensions_of : Bool → List ExtensionType
extensions_of loose = if loose then [] else immutable_owner ∷ []

abbrev pub token_state : Bool → ℕ → AccountState → TokenAccountState
token_state loose amount state = record {
  mint = coin_at;
  owner = at 40;
  amount = amount;
  state = state;
  delegate = none;
  delegated_amount = 0;
  extension_types = ok (extensions_of loose);
  transfer_fee_amount = ok 0;
  lock_cpi = ok false;
  confidential = ok hidden;
  confidential_fee_amount = err invalid_account_data;
}

abbrev pub unpack_token : Bytes → Result TokenAccountState ProgramError
unpack_token (zero ∷ amount ∷ zero ∷ []) = ok (token_state false amount initialized)
unpack_token (zero ∷ amount ∷ suc flag ∷ []) = ok (token_state false amount frozen)
unpack_token (suc (suc zero) ∷ amount ∷ zero ∷ []) = ok (token_state true amount initialized)
unpack_token (suc (suc zero) ∷ amount ∷ suc flag ∷ []) = ok (token_state true amount frozen)
unpack_token _ = err invalid_account_data

abbrev unpack_coin : Bytes → Result MintState ProgramError
unpack_coin (suc tag ∷ decimals ∷ []) = ok (record {
  decimals = decimals;
  supply = 1_000;
  mint_authority = some (at 20);
  freeze_authority = some (at 21);
  extension_types = ok (transfer_fee_config ∷ []);
  transfer_fee = ok schedule;
  pointer = err invalid_account_data;
  default_state = ok 2;
  close = ok none;
  delegate = ok (some (at 22));
  confidential = ok (record { auditor_elgamal_pubkey = some (at 54) });
  confidential_fee = ok (record { withdraw_withheld_authority_elgamal_pubkey = at 51 });
  metadata = err invalid_account_data;
})
unpack_coin _ = err invalid_account_data

abbrev fee_at : TransferFeeConfig → ℕ → TransferFee
fee_at config epoch =
    if leb config.newer_transfer_fee.epoch epoch
    then config.newer_transfer_fee
    else config.older_transfer_fee

abbrev call : List Address → Bytes → Instruction
call addresses bytes = record {
  program_id = at 0;
  accounts = map (λ a. record { pubkey = a; is_signer = false; is_writable = true }) addresses;
  instruction_data = bytes;
}

abbrev pub toy : Token22
toy = record {
  id = at 0;
  unpack_mint = unpack_coin;
  unpack_account = unpack_token;
  account_state_try_from = λ n. some frozen;
  calculate_epoch_fee = λ config epoch amount.
      let fee = fee_at config epoch in
      some (min amount (min fee.maximum_fee (amount * fee.transfer_fee_basis_points / 10_000)));
  get_epoch_fee = fee_at;
  transfer_checked_with_fee = λ id source mint destination authority signers amount decimals fee.
      ok (call (source ∷ destination ∷ []) (3 ∷ amount ∷ fee ∷ []));
  set_transfer_fee = λ id mint authority signers points maximum. ok (call (mint ∷ []) (9 ∷ []));
  harvest_withheld_tokens_to_mint = λ id mint sources. ok (call (mint ∷ sources) (9 ∷ []));
  withdraw_withheld_tokens_from_mint =
      λ id mint treasury authority signers. ok (call (treasury ∷ []) (4 ∷ []));
  thaw_account = λ id account mint authority signers. ok (call (account ∷ []) (1 ∷ []));
  freeze_account = λ id account mint authority signers. ok (call (account ∷ []) (2 ∷ []));
  update_default_account_state = λ id mint authority signers state. ok (call (mint ∷ []) (9 ∷ []));
  get_associated_token_address = λ owner mint id. owner ++ mint;
  create_associated_token_account = λ payer owner mint id. call (owner ∷ []) (9 ∷ []);
  mint_to_checked = λ id mint destination authority signers amount decimals.
      ok (call (destination ∷ []) (9 ∷ []));
  approve_checked =
      λ id source mint delegate owner signers amount decimals. ok (call (source ∷ []) (9 ∷ []));
  reallocate = λ id account payer owner signers types. ok (call (account ∷ []) (9 ∷ []));
  enable_cpi_guard = λ id account owner signers. ok (call (account ∷ []) (9 ∷ []));
  close_account = λ id account destination authority signers. ok (call (account ∷ []) (9 ∷ []));
}

-- A frozen account, two that are not, a frozen one without a fixed owner, and the mint.
abbrev pub start : Chain
start = record {
  cells = λ a.
      if bytes_eq a (at 1)
      then some (token 5_000 true)
      else if bytes_eq a (at 2)
      then some (token 5_000 false)
      else if bytes_eq a (at 3)
      then some (token 0 false)
      else if bytes_eq a (at 4)
      then some (token 700 true)
      else if bytes_eq a coin_at
      then some (coin 6)
      else none;
  drawn = 0;
}
