-- ===== src/Transfer/Flows.antt =====
-- remit/src/transfer.rs: what the flows send, and what they return.
use token_22_cts.Prelude.{
  ◌-◌, ◌≤◌, ◌<◌, ℕ, ◌+◌, ◌≡◌, ◌⊎◌, sym, ap, subst, ◌∙◌, true, false, List, [], ◌∷◌, arith,
}
use token_22_cts.Solana.{Address, Keypair, Instruction}
use token_22_cts.Error.{ok, panicked}
use token_22_cts.Cluster.{Cluster, asks, lift, ◌>>=◌}
use token_22_cts.Cluster.Inversion.{continue-ok, send-ok, from_program-ok}
use token_22_cts.Cluster.Recorded.{Log, Outcome, is_ok, recorded, log_of}
use token_22_cts.Token22.{Token22}
use token_22_cts.State.{AccountSnapshot, MintSnapshot, load_account, load_mint}
use token_22_cts.Transfer.{FeeTransfer, sub_u64, expected_fee, transfer_with_fee, collect_fees}

module _ {W : Type 0} (T : Token22) (C : Cluster W) (treasury : Address) (before : ℕ) where
  -- The last two steps of `collect_fees`.
  growth-ok :
      (u v : W) (n : ℕ)
      → (asks (load_account T C treasury) >>= λ s. lift (sub_u64 s.amount before)) u ≡ (ok n, v)
      → (after : AccountSnapshot) × (load_account T C treasury u ≡ ok after)
        × (after.amount ≡ before + n)
        × (u ≡ v)
  unfolding sub_u64
  growth-ok u v n h =
      let (after, loaded, e) = continue-ok _ _ u h in (after, loaded, ground arith, ground arith)

module _ {W : Type 0} (T : Token22) (C : Cluster W) (v : W × Log) where
  -- The transaction of a transfer: a `TransferCheckedWithFee` of the amount from the source, with
  -- the decimals and the fee read in this call and signed by the authority alone.
  abbrev pub SendsTransfer : Address → Address → Keypair → ℕ → Outcome W FeeTransfer → Type 0
  SendsTransfer source destination authority amount r =
      ((log_of r ≡ v.1) × (is_ok r.0 ≡ false))
      ⊎ ((a : AccountSnapshot) × (m : MintSnapshot) × (fee : ℕ) × (i : Instruction) × (load_account
              T (recorded C) source v
            ≡ ok a)
          × (load_mint T (recorded C) a.mint v ≡ ok m)
          × (expected_fee T m (C.epoch v.0) amount ≡ ok fee)
          × (T.transfer_checked_with_fee T.id source a.mint destination authority.pubkey [] amount
                m.decimals fee
              ≡ ok i)
          × (log_of r
              ≡ record { instructions = i ∷ []; signers = authority ∷ []; landed = is_ok r.0 }
                ∷ v.1))

  -- On every cluster `transfer_with_fee` either fails and sends nothing, or sends exactly one
  -- transaction: a `TransferCheckedWithFee` of the amount from the source, with the decimals and
  -- the fee read in this call and signed by the authority alone. The call succeeds exactly if that
  -- transaction lands.
  pub transfer_with_fee-sends :
      (source destination : Address) (authority : Keypair) (amount : ℕ)
      → SendsTransfer source destination authority amount
          (transfer_with_fee T (recorded C) source destination authority amount v)
  unfolding transfer_with_fee
  transfer_with_fee-sends source destination authority amount = ground arith

  abbrev pub Collects : Address → List Address → Address → Keypair → ℕ → W × Log → Type 0
  Collects mint sources treasury authority n v' =
      (before : AccountSnapshot) × (after : AccountSnapshot) × (harvest : Instruction)
      × (withdraw : Instruction) × (load_account T (recorded C) treasury v ≡ ok before)
      × (load_account T (recorded C) treasury v' ≡ ok after)
      × (after.amount ≡ before.amount + n)
      × (T.harvest_withheld_tokens_to_mint T.id mint sources ≡ ok harvest)
      × (T.withdraw_withheld_tokens_from_mint T.id mint treasury authority.pubkey [] ≡ ok withdraw)
      × (v'.1
          ≡ record {
            instructions = harvest ∷ withdraw ∷ [];
            signers = authority ∷ [];
            landed = true;
          }
            ∷ v.1)

  -- A successful `collect_fees` has sent one transaction that landed, the harvest and then the
  -- withdrawal to the treasury, and returns exactly what the treasury's balance has grown by.
  pub collect_fees-Collects :
      (mint : Address) (sources : List Address) (treasury : Address) (authority : Keypair) (n : ℕ)
      (v' : W × Log)
      → collect_fees T (recorded C) mint sources treasury authority v ≡ (ok n, v')
      → Collects mint sources treasury authority n v'
  unfolding collect_fees
  collect_fees-Collects mint sources treasury authority n v' h =
      let (before, loaded, h1) = continue-ok _ _ _ h in
      let (harvest, built, h2) = continue-ok _ _ _ h1 in
      let (withdraw, built', h3) = continue-ok _ _ _ h2 in
      let (receipt, landed, h4) =
        send-ok (recorded C) (harvest ∷ withdraw ∷ []) (authority ∷ []) _ v h3 in
      let sent = ((recorded C).send (harvest ∷ withdraw ∷ []) (authority ∷ []) v).1 in
      let (after, loaded', grown, same) =
        growth-ok T (recorded C) treasury before.amount sent v' n h4 in
      (
        before,
        after,
        harvest,
        withdraw,
        loaded,
        subst (λ (u : W × Log). load_account T (recorded C) treasury u ≡ ok after) same loaded',
        grown,
        from_program-ok _ built,
        from_program-ok _ built',
        sym (ap (λ (u : W × Log). u.1) same) ∙ rw landed,
      )

  -- What the reading of the treasury after the collection gives.
  abbrev pub Grown : AccountSnapshot → Address → Outcome W ℕ → Type 0
  Grown before treasury r =
      ((is_ok (load_account T (recorded C) treasury r.1) ≡ false) × (is_ok r.0 ≡ false))
      ⊎ ((after : AccountSnapshot) × (load_account T (recorded C) treasury r.1 ≡ ok after)
          × (((before.amount ≤ after.amount) × (r.0 ≡ ok (after.amount - before.amount)))
              ⊎ ((after.amount < before.amount) × (r.0 ≡ panicked))))

  abbrev pub CollectsOrNot : Address → List Address → Address → Keypair → Outcome W ℕ → Type 0
  CollectsOrNot mint sources treasury authority r =
      ((r.1 ≡ v) × (is_ok r.0 ≡ false))
      ⊎ ((before : AccountSnapshot) × (harvest : Instruction) × (withdraw : Instruction)
          × (load_account T (recorded C) treasury v ≡ ok before)
          × (T.harvest_withheld_tokens_to_mint T.id mint sources ≡ ok harvest)
          × (T.withdraw_withheld_tokens_from_mint T.id mint treasury authority.pubkey []
              ≡ ok withdraw)
          × (r.1 ≡ ((recorded C).send (harvest ∷ withdraw ∷ []) (authority ∷ []) v).1)
          × (((is_ok (C.send (harvest ∷ withdraw ∷ []) (authority ∷ []) v.0).0 ≡ false)
                × (is_ok r.0 ≡ false))
              ⊎ ((is_ok (C.send (harvest ∷ withdraw ∷ []) (authority ∷ []) v.0).0 ≡ true)
                  × Grown before treasury r)))

  -- On every cluster `collect_fees` fails and sends nothing, or sends exactly one transaction, the
  -- harvest and then the withdrawal to the treasury, signed by the authority. If that does not land,
  -- it fails. If it lands, the treasury is read again: the call fails if that fails, returns what the
  -- balance has grown by, and panics, although the fees are collected, if the balance is now lower.
  pub collect_fees-CollectsOrNot :
      (mint : Address) (sources : List Address) (treasury : Address) (authority : Keypair)
      → CollectsOrNot mint sources treasury authority
          (collect_fees T (recorded C) mint sources treasury authority v)
  unfolding collect_fees sub_u64
  collect_fees-CollectsOrNot mint sources treasury authority = ground arith
