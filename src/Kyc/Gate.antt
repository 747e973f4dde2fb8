-- ===== src/Kyc/Gate.antt =====
-- remit/src/kyc.rs: which accounts the desk touches, and what it sends for them.
use token_22_cts.Prelude.{◌≡◌, ◌⊎◌, true, false, [], ◌∷◌, arith}
use token_22_cts.Solana.{Address, Keypair, Instruction}
use token_22_cts.Error.{ok}
use token_22_cts.Cluster.{Cluster}
use token_22_cts.Cluster.Recorded.{Log, Outcome, is_ok, recorded, log_of}
use token_22_cts.Token22.{Token22, immutable_owner}
use token_22_cts.State.{AccountSnapshot, is_frozen, load_account}
use token_22_cts.Kyc.{contains, approve_kyc, revoke_kyc}

module _ {W : Type 0} (T : Token22) (C : Cluster W) (address : Address) (desk : Keypair)
    (v : W × Log) where
  -- A thaw of the account, or nothing.
  abbrev pub Approves : Outcome W (Unit {0}) → Type 0
  Approves r =
      ((log_of r ≡ v.1) × (is_ok r.0 ≡ false))
      ⊎ ((a : AccountSnapshot) × (thaw : Instruction) × (load_account T (recorded C) address v
            ≡ ok a)
          × (contains a.extensions immutable_owner ≡ true)
          × (is_frozen a ≡ true)
          × (T.thaw_account T.id address a.mint desk.pubkey [] ≡ ok thaw)
          × (log_of r
              ≡ record { instructions = thaw ∷ []; signers = desk ∷ []; landed = is_ok r.0 } ∷ v.1))

  -- On every cluster `approve_kyc` either fails and sends nothing, or the account is frozen and has
  -- `ImmutableOwner` and exactly one transaction is sent, the thaw of that account signed by the
  -- desk; the call succeeds exactly if that transaction lands.
  pub approve_kyc-gate : Approves (approve_kyc T (recorded C) address desk v)
  unfolding approve_kyc
  approve_kyc-gate = ground arith

  -- A freeze of the account, or nothing.
  abbrev pub Revokes : Outcome W (Unit {0}) → Type 0
  Revokes r =
      ((log_of r ≡ v.1) × (is_ok r.0 ≡ false))
      ⊎ ((a : AccountSnapshot) × (freeze : Instruction) × (load_account T (recorded C) address v
            ≡ ok a)
          × (is_frozen a ≡ false)
          × (T.freeze_account T.id address a.mint desk.pubkey [] ≡ ok freeze)
          × (log_of r
              ≡ record { instructions = freeze ∷ []; signers = desk ∷ []; landed = is_ok r.0 }
                ∷ v.1))

  -- On every cluster `revoke_kyc` either fails and sends nothing, or the account is not frozen and
  -- exactly one transaction is sent, the freeze of that account signed by the desk; the call
  -- succeeds exactly if that transaction lands.
  pub revoke_kyc-gate : Revokes (revoke_kyc T (recorded C) address desk v)
  unfolding revoke_kyc
  revoke_kyc-gate = ground arith
