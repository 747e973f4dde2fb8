-- ===== src/Confidential/Budgeting.antt =====
-- remit/src/confidential.rs: the compute units of the last transaction of a debit.
use token_22_cts.Prelude.{
  ℕ, ◌+◌, ◌≤◌, ◌≡◌, ◌≢◌, refl, ap, subst, true, false, Option, none, some, List, [], ◌∷◌, ◌++◌, map,
  arith,
}
use token_22_cts.Solana.{Bytes, Address, Keypair, Instruction}
use token_22_cts.Error.{ok, panicked}
use token_22_cts.Cluster.{Cluster}
use token_22_cts.Cluster.Recorded.{Log, recorded}
use token_22_cts.Random.{Random, recorded_random}
use token_22_cts.Token22.{Token22}
use token_22_cts.Proofs.Interface.{
  ProofInterface, close_context_state, verify_ciphertext_commitment_equality,
}
use token_22_cts.Proofs.Units.{
  compute_units, record_write_units, record_close_units, overhead_units,
}
use token_22_cts.Proofs.{Staged, ProofAccounts, no_accounts}
use token_22_cts.Proofs.Packing.{sum, sum-append}
use token_22_cts.Proofs.Consume.{
  tail_of, opening_units, closing_units, build, without_tails, consume,
}
use token_22_cts.Proofs.Budget.{budget, bare-budget, Within, build-Within}
use token_22_cts.Proofs.Calm.{consume-calm}
use token_22_cts.Confidential.Holding.{Holds}
use token_22_cts.Confidential.Interface.{
  ConfidentialInterface, TransferProof, WithdrawProof, recorded_confidential,
}
use token_22_cts.Confidential.Preparing.{prepare_transfer-Transfers}
use token_22_cts.Confidential.PreparingWithdraw.{prepare_withdraw-Withdraws}
use token_22_cts.Confidential.Transfer.{prepare_transfer, transfer_with_fee_units}
use token_22_cts.Confidential.Withdraw.{prepare_withdraw, withdraw_units}

tail-le : (s : Staged) → sum (map (λ _. record_write_units) (tail_of true s)) ≤ record_write_units
tail-le s = split s.tail_write
  where
    split :
        (o : Option Instruction)
        → sum (map (λ _. record_write_units) (elim o [ none ↦ [] | some i ↦ i ∷ [] ]))
          ≤ record_write_units
    split none = omega arith
    split (some i) = omega arith

opening-le :
    (staged : List Staged) (needs : ℕ)
    → map (λ (s : Staged). s.units) staged ≡ needs ∷ []
    → sum (opening_units true staged) ≤ record_write_units + needs
unfolding opening_units
opening-le [] needs h = absurd cc
opening-le (s ∷ []) needs h = omega (
  arith,
  tail-le s,
  sum-append (map (λ _. record_write_units) (tail_of true s)) (s.units ∷ []),
  ap (λ l. sum l) h,
)
opening-le (s ∷ t ∷ rest) needs h = absurd cc

module _ (P : ProofInterface) (accounts : ProofAccounts) where
  closing-Holds :
      (verified : List Address) (range : Address) (needs : ℕ)
      → Holds accounts verified range needs
      → sum (closing_units P accounts)
        ≡ sum (
            map (λ _. compute_units close_context_state) (verified ++ (range ∷ []))
            ++ (record_close_units ∷ []))
  unfolding closing_units
  closing-Holds verified range needs (account, contexts, units, staged, records) =
      rw (contexts, staged, records) refl

  budget-le :
      (verified : List Address) (range : Address) (needs units : ℕ)
      → Holds accounts verified range needs
      → budget P true units accounts
        ≤ units
          + (overhead_units
              + (record_write_units
                  + needs
                  + sum (
                      map (λ _. compute_units close_context_state) (verified ++ (range ∷ []))
                      ++ (record_close_units ∷ []))))
  budget-le verified range needs units (account, contexts, needed, staged, records) = omega (
    arith,
    closing-Holds verified range needs (account, contexts, needed, staged, records),
    opening-le accounts.staged needs needed,
    sum-append (opening_units true accounts.staged) (closing_units P accounts),
  )

module _ {W : Type 0} (T : Token22) (P : ProofInterface) (Z : ConfidentialInterface W)
    (C : Cluster W) (R : Random W)
    (calm : (is : List Instruction) (keys : List Keypair) (w : W) → (C.send is keys w).0 ≢ panicked)
    (v u : W × Log) (accounts : ProofAccounts) (instructions : List Instruction)
    (signers : List Keypair) where
  -- If the preparation of a transfer succeeds, both transactions that `consume` may build for its last
  -- one, with the staged writes and without them, are built and set at most 473,500 compute units, and
  -- on a cluster whose `send` never panics `consume` does not panic.
  pub transfer-budget :
      (source mint destination owner : Address) (balance : Bytes) (proof : TransferProof)
      → prepare_transfer T P
          (recorded_confidential Z)
          (recorded C)
          (recorded_random R)
          source
          mint
          destination
          owner
          balance
          proof
          (v, no_accounts)
        ≡ (ok instructions, (u, accounts))
      → Within P 473_500 (build P (C.payer u.0) instructions transfer_with_fee_units accounts true)
        × Within P 473_500 (
            build P
              (C.payer u.0)
              instructions
              transfer_with_fee_units
              (record accounts { staged = without_tails accounts.staged })
              false)
        × ((consume P (recorded C) accounts instructions signers transfer_with_fee_units u).0
            ≢ panicked)
  unfolding compute_units
  transfer-budget source mint destination owner balance proof h =
      let (e, a, s, f, range, held, proved, built) =
        prepare_transfer-Transfers T P Z C R source mint destination owner balance proof v
          instructions (ap (λ r. r.0) h) in
      let held' =
        subst (λ (x : ProofAccounts). Holds x (e ∷ a ∷ s ∷ f ∷ []) range 368_000)
          (ap (λ r. r.1.1) h) held in
      let bound =
        budget-le P accounts (e ∷ a ∷ s ∷ f ∷ []) range 368_000 transfer_with_fee_units held' in
      (
        build-Within P (C.payer u.0) instructions transfer_with_fee_units 473_500 accounts true
            (omega (arith, bound)) (omega arith),
        build-Within P (C.payer u.0) instructions transfer_with_fee_units 473_500
            (record accounts { staged = without_tails accounts.staged }) false
            (omega (arith, bound, bare-budget P transfer_with_fee_units accounts)) (omega arith),
        consume-calm P (recorded C) (λ is keys w. calm is keys w.0) accounts instructions signers
            transfer_with_fee_units u (omega (arith, bound)),
      )

  -- If the preparation of a withdrawal succeeds, both transactions that `consume` may build for its
  -- last one set at most 149,700 compute units, and on a cluster whose `send` never panics `consume`
  -- does not panic.
  pub withdraw-budget :
      (token_account mint : Address) (decimals : ℕ) (owner : Address) (amount : ℕ) (balance : Bytes)
      (proof : WithdrawProof)
      → prepare_withdraw T P
          (recorded_confidential Z)
          (recorded C)
          (recorded_random R)
          token_account
          mint
          decimals
          owner
          amount
          balance
          proof
          (v, no_accounts)
        ≡ (ok instructions, (u, accounts))
      → let n = withdraw_units + compute_units verify_ciphertext_commitment_equality in
        Within P 149_700 (build P (C.payer u.0) instructions n accounts true)
        × Within P 149_700 (
            build P
              (C.payer u.0)
              instructions
              n
              (record accounts { staged = without_tails accounts.staged })
              false)
        × ((consume P (recorded C) accounts instructions signers n u).0 ≢ panicked)
  unfolding compute_units
  withdraw-budget token_account mint decimals owner amount balance proof h =
      let n = withdraw_units + compute_units verify_ciphertext_commitment_equality in
      let (range, held, staged, built) =
        prepare_withdraw-Withdraws T P Z C R token_account mint decimals owner amount balance proof
          v instructions (ap (λ r. r.0) h) in
      let held' =
        subst (λ (x : ProofAccounts). Holds x [] range 111_000) (ap (λ r. r.1.1) h) held in
      let bound = budget-le P accounts [] range 111_000 n held' in
      (
        build-Within P (C.payer u.0) instructions n 149_700 accounts true (omega (arith, bound))
            (omega arith),
        build-Within P (C.payer u.0) instructions n 149_700
            (record accounts { staged = without_tails accounts.staged }) false
            (omega (arith, bound, bare-budget P n accounts)) (omega arith),
        consume-calm P (recorded C) (λ is keys w. calm is keys w.0) accounts instructions signers n
            u (omega (arith, bound)),
      )
