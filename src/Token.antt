-- ===== src/Token.antt =====
-- remit/src/token.rs: plain token-account helpers.
use token_22_cts.Prelude.{ℕ, [], ◌∷◌}
use token_22_cts.Solana.{Address, Keypair}
use token_22_cts.Cluster.{Cluster, Flow, pure, gets, asks, try, ◌>>=◌, ◌>>◌}
use token_22_cts.Token22.{Token22, cpi_guard}
use token_22_cts.State.{load_mint, load_account}

unfoldable pub associated_token_address : Token22 → Address → Address → Address
associated_token_address T owner mint = T.get_associated_token_address owner mint T.id

module _ {W : Type 0} (T : Token22) (C : Cluster W) where
  unfoldable pub create_token_account : Address → Address → Flow W Address
  unfolding associated_token_address
  create_token_account owner mint = do
    payer ← gets C.payer
    C.send (T.create_associated_token_account payer owner mint T.id ∷ []) []
    pure (associated_token_address T owner mint)

  unfoldable pub mint_to : Address → Address → Keypair → ℕ → Flow W (Unit {0})
  mint_to mint destination mint_authority amount = do
    snapshot ← asks (load_mint T C mint)
    instruction ←
        try (
          T.mint_to_checked T.id mint destination mint_authority.pubkey [] amount snapshot.decimals)
    C.send (instruction ∷ []) (mint_authority ∷ [])
    pure tt

  unfoldable pub approve : Address → Address → Keypair → ℕ → Flow W (Unit {0})
  approve source delegate owner amount = do
    account ← asks (load_account T C source)
    mint ← asks (load_mint T C account.mint)
    instruction ←
        try
          (T.approve_checked T.id source account.mint delegate owner.pubkey [] amount mint.decimals)
    C.send (instruction ∷ []) (owner ∷ [])
    pure tt

  unfoldable pub enable_cpi_guard : Address → Keypair → Flow W (Unit {0})
  enable_cpi_guard token_account owner = do
    payer ← gets C.payer
    reallocate ← try (T.reallocate T.id token_account payer owner.pubkey [] (cpi_guard ∷ []))
    enable ← try (T.enable_cpi_guard T.id token_account owner.pubkey [])
    C.send (reallocate ∷ enable ∷ []) (owner ∷ [])
    pure tt
