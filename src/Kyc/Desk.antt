-- ===== src/Kyc/Desk.antt =====
-- remit/src/kyc.rs: what the desk does to an account on a chain that behaves as documented.
use token_22_cts.Prelude.{◌≡◌, true, false, [], ◌∷◌, arith}
use token_22_cts.Solana.{Address, Keypair, Instruction}
use token_22_cts.Error.{ok, err, invalid, kyc_already_approved}
use token_22_cts.Cluster.{Cluster}
use token_22_cts.Cluster.Recorded.{is_ok}
use token_22_cts.Cluster.Ledger.{Ledger}
use token_22_cts.Token22.{Token22, immutable_owner, initialized, frozen}
use token_22_cts.State.{AccountSnapshot, is_frozen, load_account}
use token_22_cts.Kyc.{contains, approve_kyc, revoke_kyc}

module _ {W : Type 0} (T : Token22) (C : Cluster W) (address : Address) (desk : Keypair)
    (w w' : W) where
  approve_kyc-ok :
      approve_kyc T C address desk w ≡ (ok tt, w')
      → (a : AccountSnapshot) × (thaw : Instruction) × (load_account T C address w ≡ ok a)
        × (contains a.extensions immutable_owner ≡ true)
        × (a.state ≡ frozen)
        × (T.thaw_account T.id address a.mint desk.pubkey [] ≡ ok thaw)
        × (is_ok (C.send (thaw ∷ []) (desk ∷ []) w).0 ≡ true)
        × ((C.send (thaw ∷ []) (desk ∷ []) w).1 ≡ w')
  unfolding approve_kyc
  approve_kyc-ok h = ground arith

  revoke_kyc-ok :
      revoke_kyc T C address desk w ≡ (ok tt, w')
      → (a : AccountSnapshot) × (freeze : Instruction) × (load_account T C address w ≡ ok a)
        × (is_frozen a ≡ false)
        × (T.freeze_account T.id address a.mint desk.pubkey [] ≡ ok freeze)
        × (is_ok (C.send (freeze ∷ []) (desk ∷ []) w).0 ≡ true)
        × ((C.send (freeze ∷ []) (desk ∷ []) w).1 ≡ w')
  unfolding revoke_kyc
  revoke_kyc-ok h = ground arith

module _ {W : Type 0} (T : Token22) (C : Cluster W) (address : Address) (w w' : W) where
  -- From one world to the other a frozen account with `ImmutableOwner` became initialized, and
  -- nothing else of it changed.
  abbrev pub Thaws : Type 0
  Thaws =
      (a : AccountSnapshot) × (load_account T C address w ≡ ok a)
      × (contains a.extensions immutable_owner ≡ true)
      × (a.state ≡ frozen)
      × (load_account T C address w' ≡ ok (record a { state = initialized }))

  -- From one world to the other an account that was not frozen became frozen, and nothing else of
  -- it changed.
  abbrev pub Freezes : Type 0
  Freezes =
      (a : AccountSnapshot) × (load_account T C address w ≡ ok a)
      × (is_frozen a ≡ false)
      × (load_account T C address w' ≡ ok (record a { state = frozen }))

module _ {W : Type 0} {T : Token22} {C : Cluster W} (L : Ledger T C) (address : Address)
    (desk : Keypair) where
  -- On a chain that is a `Ledger`, a successful approval was of a frozen account with `ImmutableOwner`, which it leaves
  -- initialized and otherwise as it was.
  pub approve_kyc-thaws :
      (w w' : W) → approve_kyc T C address desk w ≡ (ok tt, w') → Thaws T C address w w'
  approve_kyc-thaws w w' h =
      let (a, thaw, loaded, owner, cold, built, landed, after) =
        approve_kyc-ok T C address desk w w' h in
      (
        a,
        loaded,
        owner,
        cold,
        ground (
          arith,
          L.send_ok (thaw ∷ []) (desk ∷ []) w landed,
          L.thaw_executes address a.mint desk.pubkey thaw w w' a built,
        ),
      )

  -- On a chain that is a `Ledger`, a successful revocation was of an account that was not frozen, which it leaves frozen and
  -- otherwise as it was.
  pub revoke_kyc-freezes :
      (w w' : W) → revoke_kyc T C address desk w ≡ (ok tt, w') → Freezes T C address w w'
  revoke_kyc-freezes w w' h =
      let (a, freeze, loaded, warm, built, landed, after) = revoke_kyc-ok T C address desk w w' h in
      (
        a,
        loaded,
        warm,
        ground (
          arith,
          L.send_ok (freeze ∷ []) (desk ∷ []) w landed,
          L.freeze_executes address a.mint desk.pubkey freeze w w' a built,
        ),
      )

  -- On a chain that is a `Ledger`, after a successful approval a second one is refused, as already approved, and sends nothing.
  pub approve_kyc_twice :
      (w w' : W)
      → approve_kyc T C address desk w ≡ (ok tt, w')
      → approve_kyc T C address desk w' ≡ (err (invalid (kyc_already_approved address)), w')
  unfolding approve_kyc
  approve_kyc_twice w w' h =
      let (a, loaded, owner, cold, thawed) = approve_kyc-thaws w w' h in ground arith

  -- On a chain that is a `Ledger`, a successful approval and then a successful revocation restore the account exactly.
  pub revoke_kyc-approve_kyc :
      (w w' w'' : W)
      → approve_kyc T C address desk w ≡ (ok tt, w')
      → revoke_kyc T C address desk w' ≡ (ok tt, w'')
      → load_account T C address w'' ≡ load_account T C address w
  revoke_kyc-approve_kyc w w' w'' h g =
      let (a, loaded, owner, cold, thawed) = approve_kyc-thaws w w' h in
      ground (arith, revoke_kyc-freezes w' w'' g)
