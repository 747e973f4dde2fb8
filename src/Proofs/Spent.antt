-- ===== src/Proofs/Spent.antt =====
-- remit/src/proofs.rs: the transaction that uses the proofs and closes their accounts, as it should be,
-- and that the instructions and the units of `consume` are those of it.
use token_22_cts.Prelude.{
  ℕ, ◌+◌, ◌≡◌, refl, ap, Bool, true, false, List, [], ◌∷◌, ◌++◌, map, length, ◌*◌, none, some,
  arith,
}
use token_22_cts.Solana.{Address, Instruction}
use token_22_cts.Cluster.{with_compute_unit_limit}
use token_22_cts.Proofs.Interface.{ProofInterface}
use token_22_cts.Proofs.Units.{compute_units, overhead_units, record_write_units}
use token_22_cts.Proofs.{Staged, ProofAccounts, context_info}
use token_22_cts.Proofs.Consume.{opening, opening_units, closing, closing_units, tails, tail_of}
use token_22_cts.Proofs.Packing.{sum, sum-append}

-- The write that a staged proof keeps back, if there is one.
abbrev pub held : Staged → List Instruction
held s = elim s.tail_write [ none ↦ [] | some write ↦ write ∷ [] ]

abbrev pub held_writes : List Staged → List Instruction
held_writes [] = []
held_writes (s ∷ rest) = held s ++ held_writes rest

-- For every staged proof the creation of its context and its verification, behind the write that it
-- keeps back if these writes ride along.
abbrev pub verifications : Bool → List Staged → List Instruction
verifications with_tails [] = []
verifications true (s ∷ rest) = held s ++ (s.create ∷ s.verify ∷ verifications true rest)
verifications false (s ∷ rest) = s.create ∷ s.verify ∷ verifications false rest

-- Verifying needs what the staged proofs say, and a write that rides along 2,000.
abbrev pub verification_units : Bool → List Staged → ℕ
verification_units with_tails [] = 0
verification_units true (s ∷ rest) =
    2_000 * length (held s) + s.units + verification_units true rest
verification_units false (s ∷ rest) = s.units + verification_units false rest

pub opening-verifications :
    (with_tails : Bool) (staged : List Staged)
    → opening with_tails staged ≡ verifications with_tails staged
unfolding opening
opening-verifications with_tails [] = refl
opening-verifications true (s ∷ rest) =
    ap (λ is. held s ++ (s.create ∷ s.verify ∷ is)) (opening-verifications true rest)
opening-verifications false (s ∷ rest) =
    ap (λ is. s.create ∷ s.verify ∷ is) (opening-verifications false rest)

pub tails-held_writes : (staged : List Staged) → tails staged ≡ held_writes staged
unfolding tails
tails-held_writes [] = refl
tails-held_writes (s ∷ rest) = ap (◌++◌ (held s)) (tails-held_writes rest)

each-cost : {A : Type 0} (n : ℕ) (xs : List A) → sum (map (λ _. n) xs) ≡ n * length xs
each-cost n [] = omega arith
each-cost n (x ∷ xs) = ground (arith, each-cost n xs)

opening_units-sum :
    (with_tails : Bool) (staged : List Staged)
    → sum (opening_units with_tails staged) ≡ verification_units with_tails staged
unfolding opening_units
opening_units-sum with_tails [] = refl
opening_units-sum true (s ∷ rest) = omega (
  arith,
  sum-append (map (λ _. record_write_units) (tail_of true s)) (s.units ∷ opening_units true rest),
  each-cost 2_000 (held s),
  opening_units-sum true rest,
)
opening_units-sum false (s ∷ rest) = omega (arith, opening_units-sum false rest)

module _ (P : ProofInterface) (payer : Address) where
  -- Every context is closed, also those of the staged proofs, and then every record.
  abbrev pub closings : ProofAccounts → List Instruction
  closings accounts =
      map (λ address. P.close_context_state (context_info address payer) payer)
        (accounts.contexts ++ map (λ (s : Staged). s.context.pubkey) accounts.staged)
      ++ map (λ account. P.record_close_account account payer payer) accounts.records

  -- What the instructions need, and verifying, and closing, and 2,000 for the transaction.
  abbrev pub total_units : Bool → ℕ → ProofAccounts → ℕ
  total_units with_tails units accounts =
      units
      + (2_000
          + (verification_units with_tails accounts.staged
              + (3_300
                    * length (
                        accounts.contexts ++ map (λ (s : Staged). s.context.pubkey) accounts.staged)
                  + 5_000 * length accounts.records)))

  -- The verifications of the staged proofs, the instructions, and the closing of every account.
  abbrev pub proof_transaction : Bool → List Instruction → ℕ → ProofAccounts → List Instruction
  proof_transaction with_tails instructions units accounts =
      with_compute_unit_limit P.wire (total_units with_tails units accounts)
        (verifications with_tails accounts.staged ++ (instructions ++ closings accounts))

  -- The same in the words of `build`.
  abbrev pub code_units : Bool → ℕ → ProofAccounts → ℕ
  code_units with_tails units accounts =
      units
      + (overhead_units
          + sum (opening_units with_tails accounts.staged ++ closing_units P accounts))

  pub closing-closings : (accounts : ProofAccounts) → closing P payer accounts ≡ closings accounts
  unfolding closing
  closing-closings accounts = refl

  pub code_units-total_units :
      (with_tails : Bool) (units : ℕ) (accounts : ProofAccounts)
      → code_units with_tails units accounts ≡ total_units with_tails units accounts
  unfolding closing_units compute_units
  code_units-total_units with_tails units accounts =
      let all = accounts.contexts ++ map (λ (s : Staged). s.context.pubkey) accounts.staged in
      omega (
        arith,
        sum-append (opening_units with_tails accounts.staged) (closing_units P accounts),
        opening_units-sum with_tails accounts.staged,
        sum-append (map (λ _. 3_300) all) (map (λ _. 5_000) accounts.records),
        each-cost 3_300 all,
        each-cost 5_000 accounts.records,
      )
