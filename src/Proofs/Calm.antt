-- ===== src/Proofs/Calm.antt =====
-- remit/src/proofs.rs: neither `close` nor `consume` panics on a budget that stays within `u32`.
use token_22_cts.Prelude.{
  ℕ, ◌+◌, ◌<◌, ◌≡◌, ◌≢◌, inl, inr, refl, true, false, Bool-cases, List, [], ◌∷◌, ◌++◌, map, arith,
}
use token_22_cts.Solana.{u32_mod, Address, Keypair, Instruction}
use token_22_cts.Error.{Error, Result, ok, err, panicked}
use token_22_cts.Cluster.{Cluster, Flow, continue, pure, fits_in_one_transaction}
use token_22_cts.Proofs.Interface.{ProofInterface}
use token_22_cts.Proofs.Units.{overhead_units}
use token_22_cts.Proofs.Packing.{sum}
use token_22_cts.Proofs.Budget.{
  units_of-append, budget-Closable, bare-budget, build-fits, budgeted-fits, overflows-fits,
  Closable, budget,
}
use token_22_cts.Proofs.{Staged, ProofAccounts}
use token_22_cts.Proofs.Close.{
  Budgeted, units_of, settle, budgeted, overflows, send_batch, pack, pending, close, close_after,
}
use token_22_cts.Proofs.Consume.{
  build, tails, without_tails, send_tails, send_built, on_result, consume,
}

pub continue-calm :
    {V A B : Type 0} (r : Result A Error) (f : A → Flow V B) (u : V)
    → r ≢ panicked
    → ((a : A) → r ≡ ok a → (f a u).0 ≢ panicked)
    → (continue r f u).0 ≢ panicked
continue-calm (ok a) f u h g = g a refl
continue-calm (err e) f u h g = λ p. cc
continue-calm panicked f u h g = absurd (h refl)

module _ {W : Type 0} (P : ProofInterface) (C : Cluster W)
    (calm : (is : List Instruction) (keys : List Keypair) (w : W)
      → (C.send is keys w).0 ≢ panicked) where
  send_batch-calm :
      (batch : List Budgeted) (w : W)
      → sum (units_of batch) + overhead_units < u32_mod
      → (send_batch P C batch w).0 ≢ panicked
  unfolding send_batch
  send_batch-calm batch w h =
      continue-calm (budgeted P batch) _ w (budgeted-fits P batch h) λ is made.
        continue-calm (C.send is [] w).0 _ (C.send is [] w).1 (calm is [] w) λ receipt landed p. cc

  pack-calm :
      (payer : Address) (batch rest : List Budgeted) (w : W)
      → sum (units_of batch) + sum (units_of rest) + overhead_units < u32_mod
      → (pack P C payer batch rest w).0 ≢ panicked
  unfolding pack
  pack-calm payer [] [] w h = λ p. cc
  pack-calm payer (b ∷ bs) [] w h = send_batch-calm (b ∷ bs) w (omega arith)
  pack-calm payer batch ((i, n) ∷ rest) w h =
      let joined = batch ++ ((i, n) ∷ []) in
      let more : sum (units_of joined) ≡ sum (units_of batch) + n =
        omega (arith, units_of-append batch ((i, n) ∷ [])) in
      continue-calm (overflows P payer joined) _ w (overflows-fits P payer joined (omega arith))
        λ full tested. elim (Bool-cases full) [
          | inl split ↦
              let sent = send_batch P C batch w in
              rw split (
                continue-calm sent.0 _ sent.1 (send_batch-calm batch w (omega arith))
                  λ u done. pack-calm payer ((i, n) ∷ []) rest sent.1 (omega arith))
          | inr room ↦ rw room (pack-calm payer joined rest w (omega arith))
        ]

  close-calm :
      (accounts : ProofAccounts) (w : W) → Closable P accounts → (close P C accounts w).0 ≢ panicked
  unfolding close
  close-calm accounts w h =
      pack-calm (C.payer w) [] (pending P (C.payer w) accounts) w (omega (arith, h (C.payer w)))

  pub close_after-calm :
      (A : Type 0) (accounts : ProofAccounts) (e : Error) (w : W)
      → Closable P (record accounts { staged = [] })
      → (close_after P C {A = A} accounts (err e) w).0 ≢ panicked
  unfolding close_after
  close_after-calm A accounts e w h =
      settled (close P C (record accounts { staged = [] }) w).0
        (close-calm (record accounts { staged = [] }) w h)
    where
      settled : (c : Result (Unit {0}) Error) → c ≢ panicked → settle {A = A} c (err e) ≢ panicked
      settled (ok u) g = λ p. cc
      settled (err e') g = λ p. cc
      settled panicked g = absurd (g refl)

  on_result-calm :
      {A B : Type 0} (r : Result A Error × W) (f : A → Flow W B) (g : Error → Flow W B)
      → r.0 ≢ panicked
      → ((a : A) → (f a r.1).0 ≢ panicked)
      → ((e : Error) → (g e r.1).0 ≢ panicked)
      → (on_result r f g).0 ≢ panicked
  on_result-calm (ok a, w) f g h k l = k a
  on_result-calm (err e, w) f g h k l = l e
  on_result-calm (panicked, w) f g h k l = absurd (h refl)

  send_tails-calm : (writes : List Instruction) (w : W) → (send_tails P C writes w).0 ≢ panicked
  unfolding send_tails
  send_tails-calm [] w = λ p. cc
  send_tails-calm (tail ∷ rest) w =
      let sent = C.send (tail ∷ []) [] w in
      continue-calm sent.0 _ sent.1 (calm (tail ∷ []) [] w)
        λ receipt landed. send_tails-calm rest sent.1

  send_built-calm :
      (payer : Address) (transaction : List Instruction) (signers : List Keypair)
      (accounts : ProofAccounts) (w : W)
      → Closable P (record accounts { staged = [] })
      → (send_built P C payer transaction signers accounts w).0 ≢ panicked
  unfolding send_built
  send_built-calm payer transaction signers accounts w h =
      let keys = signers ++ map (λ (s : Staged). s.context) accounts.staged in
      elim (Bool-cases (fits_in_one_transaction P.wire transaction payer)) [
        | inr large ↦ rw (send_built, large) (close_after-calm _ accounts _ w h)
        | inl fits ↦
            rw (send_built, fits)
              (on_result-calm (C.send transaction keys w) pure
                (λ e. close_after P C (record accounts { staged = [] }) (err e))
                (calm transaction keys w) (λ a p. cc)
                (λ e. close_after-calm _ (record accounts { staged = [] }) e _ h))
      ]

  -- On a cluster whose `send` never panics `consume` does not panic either, on any path, if the compute
  -- units of the transaction with the tails add up to less than 2^32.
  pub consume-calm :
      (accounts : ProofAccounts) (instructions : List Instruction) (signers : List Keypair)
      (units : ℕ) (w : W)
      → budget P true units accounts < u32_mod
      → (consume P C accounts instructions signers units w).0 ≢ panicked
  unfolding consume
  consume-calm accounts instructions signers units w h =
      let payer = C.payer w in
      let bare = record accounts { staged = without_tails accounts.staged } in
      let wrote = send_tails P C (tails accounts.staged) w in
      let closable = budget-Closable P units accounts h in
      continue-calm (build P payer instructions units accounts true) _ w
        (build-fits P payer instructions units accounts true h)
        λ transaction built. elim (Bool-cases (fits_in_one_transaction P.wire transaction payer)) [
          | inl fits ↦ rw fits (send_built-calm payer transaction signers accounts w closable)
          | inr large ↦ rw large (
              on_result-calm wrote _ (λ e. close_after P C bare (err e))
                (send_tails-calm (tails accounts.staged) w)
                (λ u.
                  continue-calm (build P payer instructions units bare false) _ wrote.1
                    (build-fits P payer instructions units bare false
                      (omega (arith, bare-budget P units accounts)))
                    λ shorter built'. send_built-calm payer shorter signers bare wrote.1 closable)
                (λ e. close_after-calm _ bare e wrote.1 closable))
        ]
