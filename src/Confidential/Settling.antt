-- ===== src/Confidential/Settling.antt =====
-- remit/src/confidential.rs: how the two debits end, whatever the cluster does: the run of the prepared
-- instructions together with the proof accounts that were created for it.
use token_22_cts.Prelude.{ℕ, ◌≡◌, ◌⊎◌, inl, inr, refl, true, false, List}
use token_22_cts.Solana.{Keypair, Instruction}
use token_22_cts.Error.{Error, Result, ok, err, panicked}
use token_22_cts.Cluster.{Cluster, Receipt, Flow, continue}
use token_22_cts.Cluster.Recorded.{Log, is_ok, recorded}
use token_22_cts.Proofs.Interface.{ProofInterface}
use token_22_cts.Proofs.{ProofAccounts, no_accounts, Method}
use token_22_cts.Proofs.Spending.{Spends}
use token_22_cts.Proofs.Trail.{Built, Tracked}
use token_22_cts.Proofs.Clearing.{Cleared, Fails-weaken, close_after-Fails}
use token_22_cts.Proofs.Ending.{Refused, consume-Ends}
use token_22_cts.Confidential.Debit.{finish, run_prepared}

module _ {W : Type 0} (P : ProofInterface) (C : Cluster W)
    (Uses : W × Log → ProofAccounts → List Instruction → Type 0) (signers : List Keypair)
    (units : ℕ) (log : Log) where
  -- The debit has gone through: the proof accounts were created, and then spent and closed.
  abbrev pub Settled : Log → Type 0
  Settled log' =
      (instructions : List Instruction) × (u : W × Log) × (accounts : ProofAccounts) × Uses u
        accounts instructions
      × Built P log u.1 accounts.contexts accounts.records
      × Spends P C (C.payer u.0) accounts instructions signers units u.1 log'

  -- A debit goes through, or has sent nothing, or panics, or leaves nothing open.
  abbrev pub Settles : {A : Type 0} → Result A Error × (W × Log) → Type 0
  Settles r =
      ((is_ok r.0 ≡ true) × Settled r.1.1)
      ⊎ ((is_ok r.0 ≡ false)
          × ((r.1.1 ≡ log)
              ⊎ ((r.0 ≡ panicked)
                  ⊎ ((e : Error) × (r.0 ≡ err e) × Cleared P log C (λ _ _. Unit) e r.1))))

  -- A step before anything was sent.
  pub early :
      {A B : Type 0} (r : Result A Error) (f : A → Flow (W × Log) B) (u : W × Log)
      → u.1 ≡ log
      → ((a : A) → r ≡ ok a → Settles (f a u))
      → Settles (continue r f u)
  early (ok a) f u h g = g a refl
  early (err e) f u h g = inr (refl, inl h)
  early panicked f u h g = inr (refl, inl h)

  -- A last step that only returns a value.
  pub late :
      {A B : Type 0} (r : Result A Error × (W × Log)) (f : A → B)
      → Settles r
      → Settles (continue r.0 (λ a u. (ok (f a), u)) r.1)
  late (ok a, u) f (inl h) = inl h
  late (ok a, u) f (inr (impossible, h)) = absurd cc
  late (err e, u) f (inl (impossible, h)) = absurd cc
  late (err e, u) f (inr (failed, inl same)) = inr (failed, inl same)
  late (err e, u) f (inr (failed, inr (inl panic))) = absurd cc
  late (err e, u) f (inr (failed, inr (inr (e', same, cleared)))) =
      inr (failed, inr (inr (e', cc, cleared)))
  late (panicked, u) f (inl (impossible, h)) = absurd cc
  late (panicked, u) f (inr (failed, h)) = inr (failed, inr (inl refl))

  finish-Settles :
      (r : Result (List Instruction) Error × ((W × Log) × ProofAccounts))
      → Tracked P log r.1
      → ((instructions : List Instruction) → r.0 ≡ ok instructions → Uses r.1.0 r.1.1 instructions)
      → Settles (finish P (recorded C) r signers units)
  unfolding finish
  finish-Settles (ok instructions, (u, accounts)) tracked uses =
      elim (consume-Ends P log C accounts instructions signers units u tracked) [
        | inl (done, spent) ↦
            inl (done, (instructions, u, accounts, uses instructions refl, tracked.0, spent))
        | inr refusal ↦
            let (failed, left) =
              Fails-weaken P log C (Refused P log C) (λ _ _. Unit) (λ _ _ _. tt) _ refusal in
            inr (failed, inr left)
      ]
  finish-Settles (err e, (u, accounts)) tracked uses =
      let (failed, left) =
        close_after-Fails P log C Receipt (λ _ _. Unit) accounts e u tt tracked.0 in
      inr (failed, inr left)
  finish-Settles (panicked, (u, accounts)) tracked uses = inr (refl, inr (inl refl))

  pub run_prepared-Settles :
      (prepare : Method (W × Log) (List Instruction)) (v : W × Log)
      → Tracked P log (prepare (v, no_accounts)).1
      → ((instructions : List Instruction)
          → (prepare (v, no_accounts)).0 ≡ ok instructions
          → Uses (prepare (v, no_accounts)).1.0 (prepare (v, no_accounts)).1.1 instructions)
      → Settles (run_prepared P (recorded C) prepare signers units v)
  unfolding run_prepared
  run_prepared-Settles prepare v = finish-Settles (prepare (v, no_accounts))
