-- ===== src/Cluster/Frame.antt =====
-- What else the KYC desk relies on of the chain: a transaction that fails leaves every token account as
-- it was (its payer is not one), and the desk's instructions leave every token account but the one they
-- name. Tests/Toy has such a chain.
use token_22_cts.Prelude.{◌≡◌, ◌≢◌, false, some, List, []}
use token_22_cts.Solana.{Address, Keypair, Instruction}
use token_22_cts.Error.{ok}
use token_22_cts.Cluster.{Cluster}
use token_22_cts.Cluster.Recorded.{is_ok}
use token_22_cts.Cluster.Ledger.{Ledger}
use token_22_cts.Token22.{Token22, AccountState}
use token_22_cts.State.{AccountSnapshot, load_account}

pub record Frame {W : Type 0} {T : Token22} {C : Cluster W} (L : Ledger T C) : Type 0 where
  pub send_failed :
      (is : List Instruction) (keys : List Keypair) (w : W) (b : Address) (s : AccountSnapshot)
      → is_ok (C.send is keys w).0 ≡ false
      → load_account T C b w ≡ ok s
      → load_account T C b (C.send is keys w).1 ≡ ok s
  pub thaw_frames :
      (account mint authority : Address) (i : Instruction) (w w' : W) (b : Address)
      (s : AccountSnapshot)
      → T.thaw_account T.id account mint authority [] ≡ ok i
      → L.execute i w ≡ some w'
      → b ≢ account
      → load_account T C b w ≡ ok s
      → load_account T C b w' ≡ ok s
  pub freeze_frames :
      (account mint authority : Address) (i : Instruction) (w w' : W) (b : Address)
      (s : AccountSnapshot)
      → T.freeze_account T.id account mint authority [] ≡ ok i
      → L.execute i w ≡ some w'
      → b ≢ account
      → load_account T C b w ≡ ok s
      → load_account T C b w' ≡ ok s
  pub update_default_frames :
      (mint authority : Address) (state : AccountState) (i : Instruction) (w w' : W) (b : Address)
      (s : AccountSnapshot)
      → T.update_default_account_state T.id mint authority [] state ≡ ok i
      → L.execute i w ≡ some w'
      → load_account T C b w ≡ ok s
      → load_account T C b w' ≡ ok s
