-- ===== src/Compliance/Bundle.antt =====
-- remit/src/compliance.rs: the one transaction of a seizure.
use token_22_cts.Prelude.{ℕ, ◌≡◌, ◌⊎◌, true, false, List, [], ◌∷◌, arith}
use token_22_cts.Solana.{Address, Keypair, Instruction}
use token_22_cts.Error.{ok}
use token_22_cts.Cluster.{Cluster}
use token_22_cts.Cluster.Recorded.{Log, Outcome, is_ok, recorded, log_of}
use token_22_cts.Token22.{Token22}
use token_22_cts.State.{AccountSnapshot, MintSnapshot, is_frozen, load_account, load_mint}
use token_22_cts.Transfer.{FeeTransfer, expected_fee}
use token_22_cts.Compliance.{send_refreezing, seize}

module _ {W : Type 0} (T : Token22) (C : Cluster W) (from to : Address) (desk delegate : Keypair)
    (amount : ℕ) (v : W × Log) where
  -- The transaction of a seizure from an account: the transfer alone, or the transfer between a thaw
  -- and a freeze if the account is frozen.
  abbrev pub Bundled :
      AccountSnapshot → MintSnapshot → Instruction → List Instruction → List Keypair → Type 0
  Bundled a m transfer instructions signers =
      ((is_frozen a ≡ false) × (instructions ≡ transfer ∷ []) × (signers ≡ delegate ∷ []))
      ⊎ ((thaw : Instruction) × (freeze : Instruction) × (is_frozen a ≡ true)
          × (T.thaw_account T.id from m.address desk.pubkey [] ≡ ok thaw)
          × (T.freeze_account T.id from m.address desk.pubkey [] ≡ ok freeze)
          × (instructions ≡ thaw ∷ transfer ∷ freeze ∷ [])
          × (signers ≡ desk ∷ delegate ∷ []))

  abbrev pub SendsSeizure : Outcome W FeeTransfer → Type 0
  SendsSeizure r =
      ((log_of r ≡ v.1) × (is_ok r.0 ≡ false))
      ⊎ ((a : AccountSnapshot) × (m : MintSnapshot) × (fee : ℕ) × (transfer : Instruction)
          × (instructions : List Instruction) × (signers : List Keypair) × (load_account T
                (recorded C) from v
              ≡ ok a)
          × (load_mint T (recorded C) a.mint v ≡ ok m)
          × (expected_fee T m (C.epoch v.0) amount ≡ ok fee)
          × (T.transfer_checked_with_fee T.id from m.address to delegate.pubkey [] amount m.decimals
                fee
              ≡ ok transfer)
          × Bundled a m transfer instructions signers
          × (log_of r
              ≡ record { instructions = instructions; signers = signers; landed = is_ok r.0 }
                ∷ v.1))

  -- On every cluster a seizure either fails and sends nothing, or sends exactly one transaction and
  -- succeeds exactly if that lands: the transfer with the fee of the current epoch, signed by the
  -- delegate, and for a frozen account a thaw before it and a freeze after it, signed by the desk.
  pub seize-sends : SendsSeizure (seize T (recorded C) from to desk delegate amount v)
  unfolding seize send_refreezing
  seize-sends = ground arith
