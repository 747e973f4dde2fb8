-- ===== src/Proofs/Ending.antt =====
-- remit/src/proofs.rs: `consume` by every outcome.
use token_22_cts.Prelude.{
  ℕ, ◌≡◌, ◌⊎◌, inl, inr, refl, sym, ap, ◌∙◌, subst, Bool, true, false, Bool-cases, List, [], ◌∷◌,
  ◌++◌, ◌+◌, ◌≢◌, ltb, map, arith,
}
use token_22_cts.Solana.{u32_mod, Address, Keypair, Instruction}
use token_22_cts.Error.{Error, Result, ok, err, panicked, and_then, invalid, proofs_do_not_fit}
use token_22_cts.Cluster.{Cluster, Receipt, Flow, continue, pure, fits_in_one_transaction}
use token_22_cts.Cluster.Recorded.{Log, is_ok, recorded}
use token_22_cts.Proofs.Interface.{ProofInterface}
use token_22_cts.Proofs.Close.{close_after}
use token_22_cts.Proofs.Consume.{
  tails, without_tails, on_result, send_tails, send_built, opening_units, closing_units, build,
  consume,
}
use token_22_cts.Proofs.Spending.{Spends, consume-Spends}
use token_22_cts.Proofs.Trail.{Built, refused, Tracked}
use token_22_cts.Proofs.Clearing.{Fails, close_after-Fails, send_tails-Built, tails-AreWrites}
use token_22_cts.Proofs.Units.{overhead_units, sum_u32}
use token_22_cts.Proofs.{Staged, ProofAccounts}

-- A success, from the outside.
pub succeeded :
    {W A : Type 0} (r : Result A Error × W) → is_ok r.0 ≡ true → (a : A) × (r ≡ (ok a, r.1))
succeeded (ok a, w) h = (a, refl)
succeeded (err e, w) h = absurd (ground arith)
succeeded (panicked, w) h = absurd (ground arith)

module _ {W : Type 0} (P : ProofInterface) (before : Log) (C : Cluster W) where
  -- Why `consume` fails: the transaction does not fit, or the cluster has refused the last one.
  abbrev pub Refused : Error → W × Log → Type 0
  Refused e u =
      (e ≡ invalid proofs_do_not_fit)
      ⊎ ((is : List Instruction) × (keys : List Keypair) × (v : W × Log) × ((recorded C).send is
              keys v
            ≡ (err e, u)))

  send_tails-Refused :
      (writes : List Instruction) (v : W × Log) (e : Error)
      → (send_tails P (recorded C) writes v).0 ≡ err e
      → Refused e (send_tails P (recorded C) writes v).1
  unfolding send_tails
  send_tails-Refused [] v e h = absurd cc
  send_tails-Refused (tail ∷ rest) v e h =
      stopped ((recorded C).send (tail ∷ []) [] v) refl (send_tails-Refused rest) h
    where
      stopped :
          (r : Result Receipt Error × (W × Log))
          → (recorded C).send (tail ∷ []) [] v ≡ r
          → ((u : W × Log) (e' : Error)
              → (send_tails P (recorded C) rest u).0 ≡ err e'
              → Refused e' (send_tails P (recorded C) rest u).1)
          → (continue r.0 (λ _. send_tails P (recorded C) rest) r.1).0 ≡ err e
          → Refused e (continue r.0 (λ _. send_tails P (recorded C) rest) r.1).1
      stopped (ok receipt, u) run more g = more u e g
      stopped (err e', u) run more g =
          let same : e' ≡ e = cc in inr (tail ∷ [], [], v, run ∙ λ i. (err (same i), u))
      stopped (panicked, u) run more g = absurd cc

  -- How the run of a sequence of transactions on proof accounts ends: by a success, a panic, or an
  -- error that leaves nothing open.
  abbrev pub Ends :
      Address
      → ProofAccounts
      → List Instruction
      → List Keypair
      → ℕ
      → Log
      → Result Receipt Error × (W × Log)
      → Type 0
  Ends payer accounts instructions signers units log r =
      ((is_ok r.0 ≡ true) × Spends P C payer accounts instructions signers units log r.1.1)
      ⊎ Fails P before C Refused r

  abbrev Passes : {A : Type 0} → Result A Error × (W × Log) → Type 0
  Passes r = (is_ok r.0 ≡ true) ⊎ Fails P before C Refused r

  on_result-Passes :
      {A B : Type 0} (r : Result A Error × (W × Log)) (f : A → Flow (W × Log) B)
      (g : Error → Flow (W × Log) B)
      → ((e : Error) → r.0 ≡ err e → Fails P before C Refused (g e r.1))
      → ((a : A) → r.0 ≡ ok a → Passes (f a r.1))
      → Passes (on_result r f g)
  on_result-Passes (ok a, w) f g h k = k a refl
  on_result-Passes (err e, w) f g h k = inr (h e refl)
  on_result-Passes (panicked, w) f g h k = inr (refl, inl refl)

  send_built-Passes :
      (payer : Address) (transaction : List Instruction) (signers : List Keypair)
      (accounts : ProofAccounts) (u : W × Log)
      → Built P before u.1 accounts.contexts accounts.records
      → Passes (send_built P (recorded C) payer transaction signers accounts u)
  unfolding send_built
  send_built-Passes payer transaction signers accounts u b =
      let keys = signers ++ map (λ (s : Staged). s.context) accounts.staged in
      let sent = (recorded C).send transaction keys u in
      elim (Bool-cases (fits_in_one_transaction P.wire transaction payer)) [
        | inr large ↦
            rw (send_built, large)
              (inr (
                close_after-Fails P before C Receipt Refused accounts (invalid proofs_do_not_fit) u
                  (inl refl) b))
        | inl fits ↦
            rw (send_built, fits)
              (on_result-Passes sent pure
                (λ e. close_after P (recorded C) (record accounts { staged = [] }) (err e))
                (λ e refusal.
                  close_after-Fails P before C Receipt Refused (record accounts { staged = [] }) e
                    sent.1 (inr (transaction, keys, u, λ i. (refusal i, sent.1)))
                    (subst
                      (λ l.
                        Built P before
                          (record { instructions = transaction; signers = keys; landed = l } ∷ u.1)
                          accounts.contexts accounts.records)
                      (sym (ap is_ok refusal)) (refused b transaction keys)))
                (λ a landed. inl refl))
      ]

  continue-Passes :
      {A B : Type 0} (r : Result A Error) (f : A → Flow (W × Log) B) (u : W × Log)
      → ((e : Error) → r ≢ err e)
      → ((a : A) → r ≡ ok a → Passes (f a u))
      → Passes (continue r f u)
  continue-Passes (ok a) f u h g = g a refl
  continue-Passes (err e) f u h g = absurd (h e refl)
  continue-Passes panicked f u h g = inr (refl, inl refl)

  sum_u32-ne-err : (total : ℕ) (units : List ℕ) (e : Error) → sum_u32 total units ≢ err e
  unfolding sum_u32
  sum_u32-ne-err total [] e h = cc
  sum_u32-ne-err total (n ∷ rest) e h = elim (Bool-cases (ltb (total + n) u32_mod)) [
    | inl small ↦ sum_u32-ne-err (total + n) rest e (rw small at h)
    | inr large ↦ ground arith
  ]

  build-ne-err :
      (payer : Address) (instructions : List Instruction) (units : ℕ) (accounts : ProofAccounts)
      (with_tails : Bool) (e : Error)
      → build P payer instructions units accounts with_tails ≢ err e
  unfolding build
  build-ne-err payer instructions units accounts with_tails e h =
      let parts = opening_units with_tails accounts.staged ++ closing_units P accounts in
      let total = sum_u32 units (overhead_units ∷ parts) in
      summed total (sum_u32-ne-err units (overhead_units ∷ parts)) _ h
    where
      summed :
          (r : Result ℕ Error)
          → ((e' : Error) → r ≢ err e')
          → (f : ℕ → List Instruction) → and_then r (λ n. ok (f n)) ≢ err e
      summed (ok n) k f = λ g. cc
      summed (err e') k f = λ g. k e' refl
      summed panicked k f = λ g. cc

  consume-Passes :
      (accounts : ProofAccounts) (instructions : List Instruction) (signers : List Keypair)
      (units : ℕ) (v : W × Log)
      → Tracked P before (v, accounts)
      → Passes (consume P (recorded C) accounts instructions signers units v)
  unfolding consume
  consume-Passes accounts instructions signers units v (b, writes) =
      let payer = C.payer v.0 in
      let bare = record accounts { staged = without_tails accounts.staged } in
      let wrote = send_tails P (recorded C) (tails accounts.staged) v in
      let b' =
        send_tails-Built P before C (tails accounts.staged) v
          (tails-AreWrites P before C accounts.staged writes) b in
      continue-Passes (build P payer instructions units accounts true) _ v
        (build-ne-err payer instructions units accounts true)
        (λ transaction built. elim (Bool-cases (fits_in_one_transaction P.wire transaction payer)) [
          | inl fits ↦ rw fits (send_built-Passes payer transaction signers accounts v b)
          | inr large ↦ rw large (
              on_result-Passes wrote _ (λ e. close_after P (recorded C) bare (err e))
                (λ e failed.
                  close_after-Fails P before C Receipt Refused bare e wrote.1
                    (send_tails-Refused (tails accounts.staged) v e failed) b')
                (λ done written.
                  continue-Passes (build P payer instructions units bare false) _ wrote.1
                    (build-ne-err payer instructions units bare false)
                    (λ shorter built'. send_built-Passes payer shorter signers bare wrote.1 b')))
        ])

  -- On every cluster, if the proof accounts list what has been created since some log, `consume` ends
  -- in one of three ways: with a success and the transactions that belong to it; with a panic; or
  -- with the error of the transaction that the cluster refused, or that the
  -- transaction does not fit, after everything that had been created was handed to `close`.
  pub consume-Ends :
      (accounts : ProofAccounts) (instructions : List Instruction) (signers : List Keypair)
      (units : ℕ) (v : W × Log)
      → Tracked P before (v, accounts)
      → Ends
          (C.payer v.0)
          accounts
          instructions
          signers
          units
          v.1
          (consume P (recorded C) accounts instructions signers units v)
  consume-Ends accounts instructions signers units v tracked =
      let r = consume P (recorded C) accounts instructions signers units v in
      elim (consume-Passes accounts instructions signers units v tracked) [
        | inl done ↦
            let (receipt, same) = succeeded r done in
            inl (done, consume-Spends P C accounts instructions signers units v r.1 receipt same)
        | inr failed ↦ inr failed
      ]
