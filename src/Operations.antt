-- ===== src/Operations.antt =====
-- The operations of remit/src/transfer.rs, remit/src/token.rs, remit/src/kyc.rs, remit/src/mint.rs and
-- remit/src/confidential.rs that read, build instructions and send one transaction, against one account
-- of what they all do.
use token_22_cts.Prelude.{ℕ, ◌≡◌, Option, none, some, List, [], ◌∷◌, arith}
use token_22_cts.Solana.{Address, Keypair, Instruction}
use token_22_cts.Error.{Error, Result, ok, err, panicked, and_then}
use token_22_cts.Cluster.{Cluster, Flow, from_program, continue}
use token_22_cts.Cluster.Recorded.{Log, is_ok, recorded}
use token_22_cts.Token22.{
  Token22, AccountState, cpi_guard, confidential_transfer_account, confidential_transfer_fee_amount,
}
use token_22_cts.State.{fetch, load_mint, load_account}
use token_22_cts.Transfer.{set_transfer_fee}
use token_22_cts.Token.{
  associated_token_address, create_token_account, mint_to, approve, enable_cpi_guard,
}
use token_22_cts.Kyc.{set_default_account_state}
use token_22_cts.Mint.Interface.{MintInterface}
use token_22_cts.Mint.{close_mint}
use token_22_cts.Confidential.Interface.{
  instruction_offset, ConfidentialInterface, recorded_confidential,
}
use token_22_cts.Confidential.{ConfidentialKeys, crypto_error}
use token_22_cts.Confidential.Lifecycle.{
  configure_instructions, reallocate_instruction, configure_account, approve_account, deposit,
}

pub data Operation : Type 0 where
  setting_transfer_fee : Address → Keypair → ℕ → ℕ → Operation
  creating_token_account : Address → Address → Operation
  minting : Address → Address → Keypair → ℕ → Operation
  approving : Address → Address → Keypair → ℕ → Operation
  enabling_cpi_guard : Address → Keypair → Operation
  setting_default_state : Address → Keypair → AccountState → Operation
  closing_mint : Address → Keypair → Address → Operation
  configuring : Address → Keypair → ConfidentialKeys → Operation
  approving_account : Address → Keypair → Operation
  depositing : Address → Keypair → ℕ → Operation

-- A success with this value, and any other outcome as it is.
abbrev pub giving : {A B : Type 0} → (A → B) → Result A Error → Result B Error
giving f (ok a) = ok (f a)
giving f (err e) = err e
giving f panicked = panicked

-- An operation with what it returns: an address, or nothing.
abbrev pub returning : {W A : Type 0} → (A → Option Address) → Flow W A → Flow W (Option Address)
returning f m w = let (r, w') = m w in (giving f r, w')

-- The instructions of a transaction and its signers, and what is returned if it lands.
abbrev pub Transaction : Type 0
Transaction = (List Instruction × List Keypair) × Option Address

module _ {W : Type 0} (T : Token22) (M : MintInterface) (Z : ConfidentialInterface W)
    (C : Cluster W) where
  -- The code.
  abbrev pub perform : Operation → Flow W (Option Address)
  perform (setting_transfer_fee mint authority points maximum) =
      returning (λ _. none) (set_transfer_fee T C mint authority points maximum)
  perform (creating_token_account owner mint) = returning some (create_token_account T C owner mint)
  perform (minting mint destination authority amount) =
      returning (λ _. none) (mint_to T C mint destination authority amount)
  perform (approving source delegate owner amount) =
      returning (λ _. none) (approve T C source delegate owner amount)
  perform (enabling_cpi_guard account owner) =
      returning (λ _. none) (enable_cpi_guard T C account owner)
  perform (setting_default_state mint authority state) =
      returning (λ _. none) (set_default_account_state T C mint authority state)
  perform (closing_mint mint authority destination) =
      returning (λ _. none) (close_mint T M C mint authority destination)
  perform (configuring account owner keys) =
      returning (λ _. none) (configure_account T Z C account owner keys)
  perform (approving_account account authority) =
      returning (λ _. none) (approve_account T Z C account authority)
  perform (depositing account owner amount) =
      returning (λ _. none) (deposit T Z C account owner amount)

module _ {W : Type 0} (T : Token22) (Z : ConfidentialInterface W) (C : Cluster W) where
  -- One instruction for one signer.
  abbrev one : Keypair → Result Instruction Error → Result Transaction Error
  one signer r = and_then r λ i. ok ((i ∷ [], signer ∷ []), none)

  -- The transaction that an operation stands for, by what the chain holds; only configuring an account
  -- draws from the random source.
  abbrev pub plan : Operation → Flow W Transaction
  plan (setting_transfer_fee mint authority points maximum) w = (
    one authority (from_program (T.set_transfer_fee T.id mint authority.pubkey [] points maximum)),
    w,
  )
  plan (creating_token_account owner mint) w = (
    ok (
      (T.create_associated_token_account (C.payer w) owner mint T.id ∷ [], []),
      some (T.get_associated_token_address owner mint T.id),
    ),
    w,
  )
  plan (minting mint destination authority amount) w = (
    and_then (load_mint T C mint w) λ m. one authority (
        from_program
          (T.mint_to_checked T.id mint destination authority.pubkey [] amount m.decimals)),
    w,
  )
  plan (approving source delegate owner amount) w = (
    and_then (load_account T C source w) λ a. and_then (load_mint T C a.mint w) λ m. one owner (
        from_program
          (T.approve_checked T.id source a.mint delegate owner.pubkey [] amount m.decimals)),
    w,
  )
  plan (enabling_cpi_guard account owner) w = (
    and_then (from_program (T.reallocate T.id account (C.payer w) owner.pubkey [] (cpi_guard ∷ [])))
        λ reallocate.
          and_then (from_program (T.enable_cpi_guard T.id account owner.pubkey []))
            λ enable. ok ((reallocate ∷ enable ∷ [], owner ∷ []), none),
    w,
  )
  plan (setting_default_state mint authority state) w = (
    one authority
        (from_program (T.update_default_account_state T.id mint authority.pubkey [] state)),
    w,
  )
  plan (closing_mint mint authority destination) w =
      (one authority (from_program (T.close_account T.id mint destination authority.pubkey [])), w)
  plan (approving_account account authority) w = (
    and_then (load_account T C account w) λ a.
        one authority (from_program (Z.approve_account T.id account a.mint authority.pubkey [])),
    w,
  )
  plan (depositing account owner amount) w = (
    and_then (load_account T C account w) λ a. and_then (load_mint T C a.mint w) λ m.
        one owner
          (from_program (Z.deposit T.id account m.address amount m.decimals owner.pubkey [])),
    w,
  )
  -- The account is made room for the two extensions of the confidential transfers, and is then
  -- configured for 65,536 credits with an encrypted zero, its proof in the next instruction.
  plan (configuring account owner keys) w =
      continue (load_account T C account w)
        (λ a.
          continue
            (from_program (
              T.reallocate T.id account (C.payer w) owner.pubkey []
                (confidential_transfer_account ∷ confidential_transfer_fee_amount ∷ [])))
            λ reallocate u.
              let (drawn, u1) = Z.build_pubkey_validity_proof_data keys.elgamal u in
              continue (crypto_error drawn)
                (λ proof u2.
                  let (zeroed, u3) = Z.ae_encrypt keys.ae 0 u2 in
                  (
                    and_then
                        (from_program (
                          Z.configure_account T.id account a.mint zeroed 65_536 owner.pubkey []
                            (instruction_offset 1 proof)))
                        λ configure. ok ((reallocate ∷ configure, owner ∷ []), none),
                    u3,
                  ))
                u1)
        w

module _ {W : Type 0} (C : Cluster W) where
  -- The plan, sent: nothing on a plan that fails, and else one transaction, and what is to be returned
  -- if it lands.
  abbrev pub carry_out :
      Result Transaction Error × W → Log → Result (Option Address) Error × (W × Log)
  carry_out (ok ((is, keys), value), w) log =
      let (r, w') = C.send is keys w in
      (
        giving (λ _. value) r,
        (w', record { instructions = is; signers = keys; landed = is_ok r } ∷ log),
      )
  carry_out (err e, w) log = (err e, (w, log))
  carry_out (panicked, w) log = (panicked, (w, log))

module _ {W : Type 0} (T : Token22) (M : MintInterface) (Z : ConfidentialInterface W)
    (C : Cluster W) where
  -- On every cluster each of these operations does exactly what its plan says: it returns the plan's
  -- error and sends nothing if there is no plan; else it sends the plan's instructions once, in one
  -- transaction, with the plan's signers, and returns the plan's value if it lands, or its error.
  pub perform-carry_out :
      (operation : Operation) (v : W × Log)
      → perform T M (recorded_confidential Z) (recorded C) operation v
        ≡ carry_out C (plan T Z C operation v.0) v.1
  unfolding set_transfer_fee create_token_account mint_to approve enable_cpi_guard
      set_default_account_state close_mint configure_account configure_instructions approve_account
      deposit load_account load_mint fetch associated_token_address reallocate_instruction
  perform-carry_out (setting_transfer_fee mint authority points maximum) v = ground arith
  perform-carry_out (creating_token_account owner mint) v = ground arith
  perform-carry_out (minting mint destination authority amount) v = ground arith
  perform-carry_out (approving source delegate owner amount) v = ground arith
  perform-carry_out (enabling_cpi_guard account owner) v = ground arith
  perform-carry_out (setting_default_state mint authority state) v = ground arith
  perform-carry_out (closing_mint mint authority destination) v = ground arith
  perform-carry_out (configuring account owner keys) v = ground arith
  perform-carry_out (approving_account account authority) v = ground arith
  perform-carry_out (depositing account owner amount) v = ground arith
