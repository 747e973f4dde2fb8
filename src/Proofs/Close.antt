-- ===== src/Proofs/Close.antt =====
-- remit/src/proofs.rs: closing the proof accounts in as few transactions as fit.
use token_22_cts.Prelude.{
  ℕ, Bool, true, false, not, List, [], ◌∷◌, ◌++◌, map, ltb, length, if◌then◌else◌,
}
use token_22_cts.Solana.{Address, Instruction}
use token_22_cts.Error.{Error, Result, ok, err, panicked, and_then}
use token_22_cts.Cluster.{
  Cluster, Flow, pure, lift, gets, ◌>>=◌, ◌>>◌, fits_in_one_transaction, with_compute_unit_limit,
}
use token_22_cts.Proofs.Interface.{close_context_state, ProofInterface}
use token_22_cts.Proofs.Units.{compute_units, overhead_units, record_close_units, add_u32, sum_u32}
use token_22_cts.Proofs.{ProofAccounts, context_info}

-- An instruction with the compute units it needs.
abbrev pub Budgeted : Type 0
Budgeted = Instruction × ℕ

abbrev pub instructions_of : List Budgeted → List Instruction
instructions_of = map (λ (i, units). i)

abbrev pub units_of : List Budgeted → List ℕ
units_of = map (λ (i, units). units)

-- What `close_after` returns, from the outcome of the closing and the result handed in.
abbrev pub settle : {A : Type 0} → Result (Unit {0}) Error → Result A Error → Result A Error
settle panicked result = panicked
settle (err e) (ok a) = err e
settle (err e) (err e') = err e'
settle (err e) panicked = panicked
settle (ok u) result = result

module _ (P : ProofInterface) where
  unfoldable pub budgeted : List Budgeted → Result (List Instruction) Error
  unfolding sum_u32
  budgeted batch = and_then (sum_u32 0 (units_of batch)) λ sum.
      and_then (add_u32 sum overhead_units)
        λ units. ok (with_compute_unit_limit P.wire units (instructions_of batch))

  -- `batch.len() > 1 && !fits_in_one_transaction(&budgeted(&batch), &payer)`
  unfoldable pub overflows : Address → List Budgeted → Result Bool Error
  unfolding budgeted
  overflows payer batch = elim (ltb 1 (length batch)) [
    | false ↦ ok false
    | true ↦
        and_then (budgeted batch)
          λ transaction. ok (not (fits_in_one_transaction P.wire transaction payer))
  ]

  -- The close instructions of the contexts and then of the records.
  unfoldable pub pending : Address → ProofAccounts → List Budgeted
  unfolding compute_units
  pending payer accounts =
      map
        (λ context. (
          P.close_context_state (context_info context payer) payer,
          compute_units close_context_state,
        ))
        accounts.contexts
      ++ map
          (λ record_account.
            (P.record_close_account record_account payer payer, record_close_units))
          accounts.records

module _ {W : Type 0} (P : ProofInterface) (C : Cluster W) where
  unfoldable pub send_batch : List Budgeted → Flow W (Unit {0})
  unfolding budgeted
  send_batch batch = do transaction ← lift (budgeted P batch); C.send transaction []; pure tt

  -- The loop over the pending instructions, and the last batch.
  unfoldable pub pack : Address → List Budgeted → List Budgeted → Flow W (Unit {0})
  unfolding overflows send_batch
  pack payer [] [] = pure tt
  pack payer (b ∷ bs) [] = send_batch (b ∷ bs)
  pack payer batch (item ∷ rest) = do
    full ← lift (overflows P payer (batch ++ (item ∷ [])))
    let split = send_batch batch >> pack payer (item ∷ []) rest
    let joined = pack payer (batch ++ (item ∷ [])) rest
    if full then split else joined

  -- `ProofAccounts::close`
  unfoldable pub close : ProofAccounts → Flow W (Unit {0})
  unfolding pack pending
  close accounts = do payer ← gets C.payer; pack payer [] (pending P payer accounts)

  -- `ProofAccounts::close_after`
  unfoldable pub close_after : {A : Type 0} → ProofAccounts → Result A Error → Flow W A
  unfolding close
  close_after accounts result w =
      let (closed, w') = close (record accounts { staged = [] }) w in (settle closed result, w')
