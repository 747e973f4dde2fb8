-- ===== src/Proofs/Budget.antt =====
-- remit/src/proofs.rs: sums of compute units that stay within `u32`.
use token_22_cts.Prelude.{
  ℕ, ◌+◌, ◌<◌, ◌≤◌, ◌≡◌, ◌≢◌, refl, ap, Bool, true, false, List, [], ◌∷◌, ◌++◌, map, arith,
}
use token_22_cts.Solana.{u32_mod, Address, Instruction}
use token_22_cts.Error.{Error, Result, ok, panicked, and_then}
use token_22_cts.Cluster.{with_compute_unit_limit}
use token_22_cts.Proofs.Interface.{close_context_state, ProofInterface}
use token_22_cts.Proofs.Units.{
  compute_units, record_write_units, record_close_units, overhead_units, sum_u32,
}
use token_22_cts.Proofs.Packing.{sum, sum-append}
use token_22_cts.Proofs.Spending.{contexts-without_tails}
use token_22_cts.Proofs.{Staged, ProofAccounts, context_info}
use token_22_cts.Proofs.Close.{Budgeted, units_of, budgeted, overflows, pending}
use token_22_cts.Proofs.Consume.{
  tail_of, all_contexts, opening, closing, opening_units, closing_units, build, without_tails,
}

pub sum_u32-fits :
    (total : ℕ) (ns : List ℕ) → total + sum ns < u32_mod → sum_u32 total ns ≡ ok (total + sum ns)
unfolding sum_u32
sum_u32-fits total [] h = ground arith
sum_u32-fits total (n ∷ ns) h = ground (arith, sum_u32-fits (total + n) ns)

pub units_of-append :
    (xs ys : List Budgeted) → sum (units_of (xs ++ ys)) ≡ sum (units_of xs) + sum (units_of ys)
units_of-append [] ys = omega arith
units_of-append ((i, n) ∷ xs) ys = omega (arith, units_of-append xs ys)

pub units_of-map :
    (f : Address → Instruction) (n : ℕ) (xs : List Address)
    → sum (units_of (map (λ x. (f x, n)) xs)) ≡ sum (map (λ _. n) xs)
units_of-map f n [] = refl
units_of-map f n (x ∷ xs) = ap (λ m. n + m) (units_of-map f n xs)

each-append :
    (n : ℕ) (xs ys : List Address)
    → sum (map (λ _. n) (xs ++ ys)) ≡ sum (map (λ _. n) xs) + sum (map (λ _. n) ys)
each-append n [] ys = omega arith
each-append n (x ∷ xs) ys = omega (arith, each-append n xs ys)

opening_units-le :
    (staged : List Staged)
    → sum (opening_units false (without_tails staged)) ≤ sum (opening_units true staged)
unfolding opening_units
opening_units-le [] = omega arith
opening_units-le (s ∷ rest) = omega (
  arith,
  opening_units-le rest,
  sum-append (map (λ _. record_write_units) (tail_of true s)) (s.units ∷ opening_units true rest),
)

module _ (P : ProofInterface) where
  pub budgeted-fits :
      (batch : List Budgeted)
      → sum (units_of batch) + overhead_units < u32_mod
      → budgeted P batch ≢ panicked
  unfolding budgeted
  budgeted-fits batch h = ground (arith, sum_u32-fits 0 (units_of batch))

  pub overflows-fits :
      (payer : Address) (batch : List Budgeted)
      → sum (units_of batch) + overhead_units < u32_mod
      → overflows P payer batch ≢ panicked
  unfolding overflows
  overflows-fits payer batch h = ground (arith, budgeted-fits batch h)

  -- All that `close` sends for the accounts fits in the budget of one transaction.
  abbrev pub Closable : ProofAccounts → Type 0
  Closable accounts =
      (payer : Address) → sum (units_of (pending P payer accounts)) + overhead_units < u32_mod

  -- The budget of the transaction that `consume` builds.
  abbrev pub budget : Bool → ℕ → ProofAccounts → ℕ
  budget with_tails units accounts =
      units
      + (overhead_units
          + sum (opening_units with_tails accounts.staged ++ closing_units P accounts))

  pub build-fits :
      (payer : Address) (instructions : List Instruction) (units : ℕ) (accounts : ProofAccounts)
      (with_tails : Bool)
      → budget with_tails units accounts < u32_mod
      → build P payer instructions units accounts with_tails ≢ panicked
  unfolding build
  build-fits payer instructions units accounts with_tails h = ground (
    arith,
    sum_u32-fits units
        (overhead_units ∷ (opening_units with_tails accounts.staged ++ closing_units P accounts)),
  )

  -- What is built sets a compute budget within this limit.
  abbrev pub Within : ℕ → Result (List Instruction) Error → Type 0
  Within limit built =
      (units : ℕ) × (is : List Instruction) × (units ≤ limit)
      × (built ≡ ok (with_compute_unit_limit P.wire units is))

  pub build-Within :
      (payer : Address) (instructions : List Instruction) (units limit : ℕ)
      (accounts : ProofAccounts) (with_tails : Bool)
      → budget with_tails units accounts ≤ limit
      → limit < u32_mod
      → Within limit (build P payer instructions units accounts with_tails)
  unfolding build
  build-Within payer instructions units limit accounts with_tails within small = (
    budget with_tails units accounts,
    opening with_tails accounts.staged ++ (instructions ++ closing P payer accounts),
    within,
    ap
        (λ r. and_then r λ total. ok (
          with_compute_unit_limit P.wire total
            (opening with_tails accounts.staged ++ (instructions ++ closing P payer accounts))))
        (sum_u32-fits units
          (overhead_units ∷ (opening_units with_tails accounts.staged ++ closing_units P accounts))
          (omega arith)),
  )

  closing_units-bare :
      (accounts : ProofAccounts)
      → closing_units P (record accounts { staged = without_tails accounts.staged })
        ≡ closing_units P accounts
  unfolding closing_units
  closing_units-bare accounts = rw (contexts-without_tails (λ k. k.pubkey) accounts.staged) refl

  -- Closing what was created costs no more than closing that and the staged contexts.
  pending-le :
      (payer : Address) (accounts : ProofAccounts)
      → sum (units_of (pending P payer (record accounts { staged = [] })))
        ≤ sum (closing_units P accounts)
  unfolding pending closing_units
  pending-le payer accounts =
      let n = compute_units close_context_state in
      let opened = map (λ (s : Staged). s.context.pubkey) accounts.staged in
      omega (
        arith,
        units_of-append
            (map (λ c. (P.close_context_state (context_info c payer) payer, n)) accounts.contexts)
            (map (λ r. (P.record_close_account r payer payer, record_close_units))
              accounts.records),
        units_of-map (λ c. P.close_context_state (context_info c payer) payer) n accounts.contexts,
        units_of-map (λ r. P.record_close_account r payer payer) record_close_units
            accounts.records,
        sum-append (map (λ _. n) (all_contexts accounts))
            (map (λ _. record_close_units) accounts.records),
        each-append n accounts.contexts opened,
      )

  pub budget-Closable :
      (units : ℕ) (accounts : ProofAccounts)
      → budget true units accounts < u32_mod
      → Closable (record accounts { staged = [] })
  budget-Closable units accounts h payer = omega (
    arith,
    pending-le payer accounts,
    sum-append (opening_units true accounts.staged) (closing_units P accounts),
  )

  pub bare-budget :
      (units : ℕ) (accounts : ProofAccounts)
      → budget false units (record accounts { staged = without_tails accounts.staged })
        ≤ budget true units accounts
  bare-budget units accounts = omega (
    arith,
    opening_units-le accounts.staged,
    ap sum (closing_units-bare accounts),
    sum-append (opening_units true accounts.staged) (closing_units P accounts),
    sum-append (opening_units false (without_tails accounts.staged))
        (closing_units P (record accounts { staged = without_tails accounts.staged })),
  )
