-- ===== src/Proofs/Spending.antt =====
-- remit/src/proofs.rs: the transaction that a successful `consume` has sent.
use token_22_cts.Prelude.{
  ℕ, ◌≡◌, inl, inr, refl, sym, ap, ◌∙◌, subst, Bool, true, false, Bool-cases, List, [], ◌∷◌, ◌++◌,
  map, arith,
}
use token_22_cts.Solana.{Address, Keypair, Instruction}
use token_22_cts.Error.{Error, Result, ok, err, panicked, invalid, proofs_do_not_fit}
use token_22_cts.Cluster.{
  Cluster, Flow, Receipt, pure, fits_in_one_transaction, with_compute_unit_limit,
}
use token_22_cts.Cluster.Inversion.{continue-ok, and_then-ok, ok-injective, send-ok}
use token_22_cts.Cluster.Recorded.{Log, recorded}
use token_22_cts.Proofs.Interface.{ProofInterface}
use token_22_cts.Proofs.Units.{overhead_units, sum_u32}
use token_22_cts.Proofs.{Staged, ProofAccounts}
use token_22_cts.Proofs.Close.{close_after, settle}
use token_22_cts.Proofs.Consume.{
  opening, opening_units, closing, closing_units, build, tails, without_tails, send_tails,
  send_built, on_result, consume,
}
use token_22_cts.Proofs.Spent.{
  held_writes, opening-verifications, tails-held_writes, proof_transaction, code_units,
  closing-closings, code_units-total_units,
}
use token_22_cts.Proofs.Packing.{sum_u32-sum}

-- Taking the tails out changes neither the opening without them nor the contexts.
opening-without_tails :
    (staged : List Staged) → opening false (without_tails staged) ≡ opening false staged
unfolding opening
opening-without_tails [] = refl
opening-without_tails (s ∷ rest) = ap (λ is. s.create ∷ s.verify ∷ is) (opening-without_tails rest)

opening_units-without_tails :
    (staged : List Staged) → opening_units false (without_tails staged) ≡ opening_units false staged
unfolding opening_units
opening_units-without_tails [] = refl
opening_units-without_tails (s ∷ rest) = ap (◌∷◌ s.units) (opening_units-without_tails rest)

pub contexts-without_tails :
    {A : Type 0} (f : Keypair → A) (staged : List Staged)
    → map (λ (s : Staged). f s.context) (without_tails staged)
      ≡ map (λ (s : Staged). f s.context) staged
contexts-without_tails f [] = refl
contexts-without_tails f (s ∷ rest) = ap (◌∷◌ (f s.context)) (contexts-without_tails f rest)

-- The log after these writes are sent, each in a transaction that landed.
abbrev pub written_tails : List Instruction → Log → Log
written_tails [] log = log
written_tails (tail ∷ rest) log =
    written_tails rest (record { instructions = tail ∷ []; signers = []; landed = true } ∷ log)

module _ (P : ProofInterface) (payer : Address) where
  -- The transaction in the words of `build`.
  abbrev code_transaction : Bool → List Instruction → ℕ → ProofAccounts → List Instruction
  code_transaction with_tails instructions units accounts =
      with_compute_unit_limit P.wire (code_units P payer with_tails units accounts)
        (opening with_tails accounts.staged ++ (instructions ++ closing P payer accounts))

  code_transaction-proof_transaction :
      (with_tails : Bool) (instructions : List Instruction) (units : ℕ) (accounts : ProofAccounts)
      → code_transaction with_tails instructions units accounts
        ≡ proof_transaction P payer with_tails instructions units accounts
  code_transaction-proof_transaction with_tails instructions units accounts =
      rw
        (
          code_units-total_units P payer with_tails units accounts,
          opening-verifications with_tails accounts.staged,
          closing-closings P payer accounts,
        )
        refl

  build-ok :
      (instructions : List Instruction) (units : ℕ) (accounts : ProofAccounts) (with_tails : Bool)
      {transaction : List Instruction}
      → build P payer instructions units accounts with_tails ≡ ok transaction
      → code_transaction with_tails instructions units accounts ≡ transaction
  unfolding build
  build-ok instructions units accounts with_tails h =
      let parts = opening_units with_tails accounts.staged ++ closing_units P accounts in
      let (total, summed, h1) = and_then-ok (sum_u32 units (overhead_units ∷ parts)) _ h in
      ap
        (λ n.
          with_compute_unit_limit P.wire n
            (opening with_tails accounts.staged ++ (instructions ++ closing P payer accounts)))
        (sym (sum_u32-sum units total (overhead_units ∷ parts) summed))
      ∙ ok-injective h1

  code_transaction-stripped :
      (instructions : List Instruction) (units : ℕ) (accounts : ProofAccounts)
      → code_transaction false instructions units
          (record accounts { staged = without_tails accounts.staged })
        ≡ code_transaction false instructions units accounts
  unfolding closing closing_units
  code_transaction-stripped instructions units accounts =
      rw
        (
          opening-without_tails accounts.staged,
          opening_units-without_tails accounts.staged,
          contexts-without_tails (λ k. k.pubkey) accounts.staged,
        )
        refl

module _ {W : Type 0} (P : ProofInterface) (C : Cluster W) (payer : Address) where
  settle-err :
      {A : Type 0} (c : Result (Unit {0}) Error) (e : Error) {a : A} → settle c (err e) ≡ ok a → ⊥
  settle-err (ok u) e h = cc
  settle-err (err e') e h = cc
  settle-err panicked e h = cc

  close_after-err :
      {A : Type 0} (accounts : ProofAccounts) (e : Error) (v : W) {a : A} {v' : W}
      → close_after P C accounts (err e) v ≡ (ok a, v')
      → ⊥
  unfolding close_after
  close_after-err accounts e v h = settle-err _ e (ap (λ r. r.0) h)

  on_result-ok :
      {A B : Type 0} (r : Result A Error × W) (f : A → Flow W B) (accounts : ProofAccounts) {b : B}
      {v' : W}
      → on_result r f (λ e. close_after P C accounts (err e)) ≡ (ok b, v')
      → (a : A) × (r.0 ≡ ok a) × (f a r.1 ≡ (ok b, v'))
  on_result-ok (ok a, w) f accounts h = (a, refl, h)
  on_result-ok (err e, w) f accounts h = absurd (close_after-err accounts e w h)
  on_result-ok (panicked, w) f accounts h = cc

  send_built-ok :
      (transaction : List Instruction) (signers : List Keypair) (accounts : ProofAccounts)
      (v v' : W) (receipt : Receipt)
      → send_built P C payer transaction signers accounts v ≡ (ok receipt, v')
      → (fits_in_one_transaction P.wire transaction payer ≡ true)
        × (C.send transaction (signers ++ map (λ (s : Staged). s.context) accounts.staged) v
            ≡ (ok receipt, v'))
  unfolding send_built
  send_built-ok transaction signers accounts v v' receipt h =
      elim (Bool-cases (fits_in_one_transaction P.wire transaction payer)) [
        | inr e ↦
            absurd
              (close_after-err accounts (invalid proofs_do_not_fit) v (rw (send_built, e) at h))
        | inl e ↦
            let r =
              C.send transaction (signers ++ map (λ (s : Staged). s.context) accounts.staged) v in
            let (a, landed, same) =
              on_result-ok r pure (record accounts { staged = [] }) (rw (send_built, e) at h) in
            (e, ground arith)
      ]

module _ {W : Type 0} (P : ProofInterface) (C : Cluster W) where
  send_tails-ok :
      (writes : List Instruction) (v v' : W × Log) {u : Unit {0}}
      → send_tails P (recorded C) writes v ≡ (ok u, v')
      → v'.1 ≡ written_tails writes v.1
  unfolding send_tails
  send_tails-ok [] v v' h = ground arith
  send_tails-ok (tail ∷ rest) v v' h =
      let (receipt, landed, h1) = send-ok (recorded C) (tail ∷ []) [] _ v h in
      send_tails-ok rest _ v' h1 ∙ ap (written_tails rest) (rw landed)

  -- The staged tails ride along in the transaction, or were written before it, one by one.
  abbrev pub Spends :
      Address → ProofAccounts → List Instruction → List Keypair → ℕ → Log → Log → Type 0
  Spends payer accounts instructions signers units log log' =
      (with_tails : Bool) × (fits_in_one_transaction P.wire
          (proof_transaction P payer with_tails instructions units accounts) payer
        ≡ true)
      × (log'
          ≡ record {
            instructions = proof_transaction P payer with_tails instructions units accounts;
            signers = signers ++ map (λ (s : Staged). s.context) accounts.staged;
            landed = true;
          }
            ∷ elim with_tails [
              | true ↦ log
              | false ↦ written_tails (held_writes accounts.staged) log
            ])

  landed-log :
      (is : List Instruction) (keys : List Keypair) (v v' : W × Log) (receipt : Receipt)
      → (recorded C).send is keys v ≡ (ok receipt, v')
      → v'.1 ≡ record { instructions = is; signers = keys; landed = true } ∷ v.1
  landed-log is keys v v' receipt h =
      let done : (C.send is keys v.0).0 ≡ ok receipt = ap (λ r. r.0) h in
      sym (ap (λ r. r.1.1) h) ∙ rw done

  with_transaction :
      (payer : Address) (accounts : ProofAccounts) (instructions : List Instruction)
      (signers : List Keypair) (units : ℕ) (log : Log) (v' : W × Log) (with_tails : Bool)
      (transaction : List Instruction)
      → code_transaction P payer with_tails instructions units accounts ≡ transaction
      → fits_in_one_transaction P.wire transaction payer ≡ true
      → v'.1
        ≡ record {
          instructions = transaction;
          signers = signers ++ map (λ (s : Staged). s.context) accounts.staged;
          landed = true;
        }
          ∷ elim with_tails [ true ↦ log | false ↦ written_tails (tails accounts.staged) log ]
      → Spends payer accounts instructions signers units log v'.1
  with_transaction payer accounts instructions signers units log v' with_tails transaction made fits
        logged =
      let same =
        sym made
        ∙ code_transaction-proof_transaction P payer with_tails instructions units accounts in
      (
        with_tails,
        subst (λ t. fits_in_one_transaction P.wire t payer ≡ true) same fits,
        logged ∙ λ i.
            record {
              instructions = same i;
              signers = signers ++ map (λ (s : Staged). s.context) accounts.staged;
              landed = true;
            }
            ∷ elim with_tails [
              | true ↦ log
              | false ↦ written_tails (tails-held_writes accounts.staged i) log
            ],
      )

  -- On every cluster, when `consume` succeeds, the last transaction that it has sent landed and fits
  -- in a packet. It verifies the staged proofs, runs the instructions and closes every context and
  -- every record, in that order, with a compute budget that is the sum of what these need, and is
  -- signed by the signers and the staged contexts. The staged writes ride along in it, or were
  -- written just before it, one by one; nothing else was sent.
  pub consume-Spends :
      (accounts : ProofAccounts) (instructions : List Instruction) (signers : List Keypair)
      (units : ℕ) (v v' : W × Log) (receipt : Receipt)
      → consume P (recorded C) accounts instructions signers units v ≡ (ok receipt, v')
      → Spends (C.payer v.0) accounts instructions signers units v.1 v'.1
  unfolding consume
  consume-Spends accounts instructions signers units v v' receipt h =
      let payer = C.payer v.0 in
      let (transaction, built, h1) =
        continue-ok (build P payer instructions units accounts true) _ v h in
      elim (Bool-cases (fits_in_one_transaction P.wire transaction payer)) [
        | inl e ↦
            let (fits, sent) =
              send_built-ok P (recorded C) payer transaction signers accounts v v' receipt
                (rw e at h1) in
            let made = build-ok P payer instructions units accounts true built in
            with_transaction payer accounts instructions signers units v.1 v' true transaction made
              fits (landed-log transaction _ v v' receipt sent)
        | inr e ↦
            let bare = record accounts { staged = without_tails accounts.staged } in
            let wrote = send_tails P (recorded C) (tails accounts.staged) v in
            let (done, written, h2) = on_result-ok P (recorded C) payer wrote _ bare (rw e at h1) in
            let (shorter, built', h3) =
              continue-ok (build P payer instructions units bare false) _ wrote.1 h2 in
            let (fits, sent) =
              send_built-ok P (recorded C) payer shorter signers bare wrote.1 v' receipt h3 in
            let made =
              sym (code_transaction-stripped P payer instructions units accounts)
              ∙ build-ok P payer instructions units bare false built' in
            with_transaction payer accounts instructions signers units v.1 v' false shorter made
              fits
              (landed-log shorter _ wrote.1 v' receipt sent ∙ λ i.
                record {
                  instructions = shorter;
                  signers = signers ++ contexts-without_tails (λ k. k) accounts.staged i;
                  landed = true;
                }
                ∷ send_tails-ok (tails accounts.staged) v wrote.1 (λ j. (written j, wrote.1)) i)
      ]
