-- ===== src/Proofs/Consume.antt =====
-- remit/src/proofs.rs: `consume`, the transaction that verifies the staged proofs, uses all the proofs
-- and closes their accounts.
use token_22_cts.Prelude.{ℕ, Bool, true, false, none, some, List, [], ◌∷◌, ◌++◌, map}
use token_22_cts.Solana.{Address, Keypair, Instruction}
use token_22_cts.Error.{Error, Result, ok, err, panicked, and_then, invalid, proofs_do_not_fit}
use token_22_cts.Cluster.{
  Cluster, Receipt, Flow, pure, lift, gets, ◌>>=◌, ◌>>◌, fits_in_one_transaction,
  with_compute_unit_limit,
}
use token_22_cts.Proofs.Interface.{close_context_state, ProofInterface}
use token_22_cts.Proofs.Units.{
  compute_units, overhead_units, record_close_units, record_write_units, sum_u32,
}
use token_22_cts.Proofs.{Staged, ProofAccounts, context_info}
use token_22_cts.Proofs.Close.{close_after}

-- The writes that a staged proof still holds, if they are to ride along.
abbrev pub tail_of : Bool → Staged → List Instruction
tail_of false staged = []
tail_of true staged = elim staged.tail_write [ none ↦ [] | some tail ↦ tail ∷ [] ]

-- The opening instructions of the staged proofs: tail, creation, verification.
unfoldable pub opening : Bool → List Staged → List Instruction
opening with_tails [] = []
opening with_tails (s ∷ rest) =
    tail_of with_tails s ++ (s.create ∷ s.verify ∷ opening with_tails rest)

-- What the opening adds to the budget, in order.
unfoldable pub opening_units : Bool → List Staged → List ℕ
opening_units with_tails [] = []
opening_units with_tails (s ∷ rest) =
    map (λ _. record_write_units) (tail_of with_tails s)
    ++ (s.units ∷ opening_units with_tails rest)

-- `contexts.iter().chain(&staged_contexts)`
abbrev pub all_contexts : ProofAccounts → List Address
all_contexts accounts = accounts.contexts ++ map (λ s. s.context.pubkey) accounts.staged

-- `filter_map(|staged| staged.tail_write.take())`: the tails, and the staged proofs without them.
unfoldable pub tails : List Staged → List Instruction
tails [] = []
tails (s ∷ rest) = tail_of true s ++ tails rest

abbrev pub without_tails : List Staged → List Staged
without_tails = map {A = Staged} (λ s. record s { tail_write = none })

-- `match` on a flow's outcome; a panic goes on.
abbrev pub on_result :
    {W A B : Type 0} → Result A Error × W → (A → Flow W B) → (Error → Flow W B) → Result B Error × W
on_result (ok a, w) f g = f a w
on_result (err e, w) f g = g e w
on_result (panicked, w) f g = (panicked, w)

module _ (P : ProofInterface) where
  -- The closing instructions: every context, then every record.
  unfoldable pub closing : Address → ProofAccounts → List Instruction
  closing payer accounts =
      map (λ context. P.close_context_state (context_info context payer) payer)
        (all_contexts accounts)
      ++ map (λ account. P.record_close_account account payer payer) accounts.records

  unfoldable pub closing_units : ProofAccounts → List ℕ
  unfolding compute_units
  closing_units accounts =
      map (λ _. compute_units close_context_state) (all_contexts accounts)
      ++ map (λ _. record_close_units) accounts.records

  -- The closure `build`.
  unfoldable pub build :
      Address → List Instruction → ℕ → ProofAccounts → Bool → Result (List Instruction) Error
  unfolding opening opening_units closing closing_units sum_u32
  build payer instructions units accounts with_tails =
      and_then
        (sum_u32 units
          (overhead_units ∷ (opening_units with_tails accounts.staged ++ closing_units accounts)))
        λ total. ok (
          with_compute_unit_limit P.wire total
            (opening with_tails accounts.staged ++ (instructions ++ closing payer accounts)))

module _ {W : Type 0} (P : ProofInterface) (C : Cluster W) where
  -- One write after the other; the first that fails ends it.
  unfoldable pub send_tails : List Instruction → Flow W (Unit {0})
  send_tails [] = pure tt
  send_tails (tail ∷ rest) = C.send (tail ∷ []) [] >> send_tails rest

  -- `consume` from the second test on.
  unfoldable pub send_built :
      Address → List Instruction → List Keypair → ProofAccounts → Flow W Receipt
  unfolding close_after
  send_built payer transaction signers accounts =
      elim (fits_in_one_transaction P.wire transaction payer) [
        | false ↦ close_after P C accounts (err (invalid proofs_do_not_fit))
        | true ↦ λ w.
            on_result (C.send transaction (signers ++ map (λ s. s.context) accounts.staged) w) pure
              (λ e. close_after P C (record accounts { staged = [] }) (err e))
      ]

  -- `ProofAccounts::consume`
  unfoldable pub consume : ProofAccounts → List Instruction → List Keypair → ℕ → Flow W Receipt
  unfolding build send_tails tails send_built
  consume accounts instructions signers units = do
    payer ← gets C.payer
    transaction ← lift (build P payer instructions units accounts true)
    elim (fits_in_one_transaction P.wire transaction payer) [
      | true ↦ send_built payer transaction signers accounts
      | false ↦ λ w.
          let stripped = record accounts { staged = without_tails accounts.staged } in
          on_result (send_tails (tails accounts.staged) w)
            (λ _. do
              shorter ← lift (build P payer instructions units stripped false)
              send_built payer shorter signers stripped)
            (λ e. close_after P C stripped (err e))
    ]
