-- ===== src/Cluster/Ledger.antt =====
-- What the flows rely on of the chain, as an interface: a transaction runs its instructions in order
-- and is atomic, and the Token-2022 instructions of the seizure and of the KYC desk do to a token
-- account what their documentation says. A theorem that takes a `Ledger` holds of every chain that
-- behaves so; Tests/Toy has one.
use token_22_cts.Prelude.{ℕ, ◌-◌, ◌≤◌, ◌≡◌, ◌≢◌, true, Option, none, some, List, [], ◌∷◌, arith}
use token_22_cts.Solana.{Address, Keypair, Instruction}
use token_22_cts.Error.{ok}
use token_22_cts.Cluster.{Cluster}
use token_22_cts.Cluster.Recorded.{is_ok}
use token_22_cts.Token22.{Token22, initialized, frozen}
use token_22_cts.State.{AccountSnapshot, load_account}

-- The instructions of a transaction, one after the other; the first that fails ends it.
abbrev pub run : {W : Type 0} → (Instruction → W → Option W) → List Instruction → W → Option W
run execute [] w = some w
run execute (i ∷ is) w = elim (execute i w) [ none ↦ none | some w' ↦ run execute is w' ]

-- The account has lost the amount, and has kept its state, its owner, its mint and its extensions.
-- (A transfer by the account's delegate also lowers the delegated amount.)
abbrev pub Debited : AccountSnapshot → ℕ → AccountSnapshot → Type 0
Debited a amount a' =
    (a'.amount ≡ a.amount - amount)
    × (a'.state ≡ a.state)
    × (a'.owner ≡ a.owner)
    × (a'.mint ≡ a.mint)
    × (a'.extensions ≡ a.extensions)

pub record Ledger {W : Type 0} (T : Token22) (C : Cluster W) : Type 0 where
  pub execute : Instruction → W → Option W
  -- A transaction that lands has run all its instructions.
  pub send_ok :
      (is : List Instruction) (keys : List Keypair) (w : W)
      → is_ok (C.send is keys w).0 ≡ true
      → run execute is w ≡ some (C.send is keys w).1
  -- `ThawAccount` makes the account usable, and changes nothing else of it.
  pub thaw_executes :
      (account mint authority : Address) (i : Instruction) (w w' : W) (a : AccountSnapshot)
      → T.thaw_account T.id account mint authority [] ≡ ok i
      → execute i w ≡ some w'
      → load_account T C account w ≡ ok a
      → load_account T C account w' ≡ ok (record a { state = initialized })
  -- `FreezeAccount` freezes the account, and changes nothing else of it.
  pub freeze_executes :
      (account mint authority : Address) (i : Instruction) (w w' : W) (a : AccountSnapshot)
      → T.freeze_account T.id account mint authority [] ≡ ok i
      → execute i w ≡ some w'
      → load_account T C account w ≡ ok a
      → load_account T C account w' ≡ ok (record a { state = frozen })
  -- A transfer to another account needs a source that is not frozen and holds the amount, and
  -- debits it.
  pub transfer_executes :
      (source mint destination authority : Address) (amount decimals fee : ℕ) (i : Instruction)
      (w w' : W) (a : AccountSnapshot)
      → T.transfer_checked_with_fee T.id source mint destination authority [] amount decimals fee
        ≡ ok i
      → execute i w ≡ some w'
      → source ≢ destination
      → load_account T C source w ≡ ok a
      → (a.state ≡ initialized)
        × (amount ≤ a.amount)
        × ((a' : AccountSnapshot) × (load_account T C source w' ≡ ok a') × Debited a amount a')

-- The first instruction of a transaction that ran, and the rest.
pub run-cons :
    {W : Type 0} (execute : Instruction → W → Option W) (i : Instruction) (is : List Instruction)
    (w : W) {w' : W}
    → run execute (i ∷ is) w ≡ some w'
    → (v : W) × (execute i w ≡ some v) × (run execute is v ≡ some w')
run-cons execute i is w h = ground arith
