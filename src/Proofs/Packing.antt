-- ===== src/Proofs/Packing.antt =====
-- remit/src/proofs.rs: which transactions `close` sends.
use mathlib.Core.List.{flatten, append_assoc}
use token_22_cts.Prelude.{
  ℕ, ◌+◌, ◌≤◌, ◌≡◌, ◌⊎◌, inl, inr, refl, sym, ap, ◌∙◌, subst, map, Bool, true, false, not, List, [],
  ◌∷◌, ◌++◌, ltb, length, length-append, Bool-cases, if◌then◌else◌, arith,
}
use token_22_cts.Solana.{Address, Instruction}
use token_22_cts.Error.{ok, and_then}
use token_22_cts.Cluster.{Cluster, ◌>>◌, fits_in_one_transaction, with_compute_unit_limit}
use token_22_cts.Cluster.Inversion.{continue-ok, and_then-ok, ok-injective}
use token_22_cts.Cluster.Recorded.{Log, recorded}
use token_22_cts.Proofs.Interface.{ProofInterface}
use token_22_cts.Proofs.Units.{compute_units, overhead_units, add_u32, sum_u32}
use token_22_cts.Proofs.{ProofAccounts, context_info}
use token_22_cts.Proofs.Close.{
  Budgeted, instructions_of, units_of, budgeted, overflows, send_batch, pack, pending, close,
}

abbrev pub sum : List ℕ → ℕ
sum [] = 0
sum (n ∷ ns) = n + sum ns

pub sum-append : (ns ms : List ℕ) → sum (ns ++ ms) ≡ sum ns + sum ms
sum-append [] ms = omega arith
sum-append (n ∷ ns) ms = omega (arith, sum-append ns ms)

pub sum_u32-sum : (total s : ℕ) (ns : List ℕ) → sum_u32 total ns ≡ ok s → s ≡ total + sum ns
unfolding sum_u32
sum_u32-sum total s [] h = ground arith
sum_u32-sum total s (n ∷ ns) h = ground (arith, sum_u32-sum (total + n) s ns)

module _ (P : ProofInterface) (payer : Address) where
  -- Every context is to be closed, and then every record, with what closing one of them needs.
  abbrev pub to_close : ProofAccounts → List Budgeted
  to_close accounts =
      map (λ context. (P.close_context_state (context_info context payer) payer, 3_300))
        accounts.contexts
      ++ map (λ account. (P.record_close_account account payer payer, 5_000)) accounts.records

  pending-to_close : (accounts : ProofAccounts) → pending P payer accounts ≡ to_close accounts
  unfolding pending compute_units
  pending-to_close accounts = refl

  -- The transaction of a batch, with the compute units that it needs.
  abbrev pub batch_transaction : List Budgeted → List Instruction
  batch_transaction batch =
      with_compute_unit_limit P.wire (sum (map (λ (i, units). units) batch) + 2_000)
        (map (λ (i, units). i) batch)

  abbrev pub batch_fits : List Budgeted → Bool
  batch_fits batch = fits_in_one_transaction P.wire (batch_transaction batch) payer

  -- The log after the batches are sent, in order, each in a transaction that landed.
  abbrev pub closed_by : List (List Budgeted) → Log → Log
  closed_by [] log = log
  closed_by (b ∷ bs) log =
      closed_by bs
        (record { instructions = batch_transaction b; signers = []; landed = true } ∷ log)

  -- The first item of the next batch did not fit into this one.
  abbrev pub NoRoom : List Budgeted → List (List Budgeted) → Type 0
  NoRoom batch [] = Unit
  NoRoom batch ([] ∷ rest) = ⊥
  NoRoom batch ((item ∷ items) ∷ rest) = batch_fits (batch ++ (item ∷ [])) ≡ false

  -- Each batch is one instruction or fits in a packet, and was sent only when the next instruction no
  -- longer fitted.
  abbrev pub Greedy : List (List Budgeted) → Type 0
  Greedy [] = Unit
  Greedy (b ∷ bs) = ((length b ≡ 1) ⊎ (batch_fits b ≡ true)) × NoRoom b bs × Greedy bs

  -- All items are sent, in order, each once.
  abbrev pub Packs : List Budgeted → Log → Log → Type 0
  Packs items log log' =
      (batches : List (List Budgeted)) × (flatten batches ≡ items)
      × (log' ≡ closed_by batches log)
      × Greedy batches

  add_u32-sum : (a b n : ℕ) → add_u32 a b ≡ ok n → n ≡ a + b
  add_u32-sum a b n h = ground arith

  budgeted-ok :
      (batch : List Budgeted) (is : List Instruction)
      → budgeted P batch ≡ ok is
      → batch_transaction batch ≡ is
  unfolding budgeted
  budgeted-ok batch is h =
      let (s, summed, h1) = and_then-ok (sum_u32 0 (units_of batch)) _ h in
      let (n, added, h2) = and_then-ok (add_u32 s overhead_units) _ h1 in
      let total : sum (units_of batch) + overhead_units ≡ n =
        omega
          (arith, sum_u32-sum 0 s (units_of batch) summed, add_u32-sum s overhead_units n added) in
      ap (λ u. with_compute_unit_limit P.wire u (instructions_of batch)) total ∙ ok-injective h2

  overflows-ok :
      (batch : List Budgeted) (full : Bool)
      → overflows P payer batch ≡ ok full
      → ((length batch ≤ 1) × (full ≡ false)) ⊎ (full ≡ not (batch_fits batch))
  unfolding overflows
  overflows-ok batch full h = elim (Bool-cases (ltb 1 (length batch))) [
    | inr small ↦ inl (ground arith)
    | inl large ↦
        let h1 : and_then (budgeted P batch)
              (λ t. ok (not (fits_in_one_transaction P.wire t payer)))
            ≡ ok full =
          ground arith in
        let (is, made, h2) = and_then-ok (budgeted P batch) _ h1 in
        inr (
          sym (ok-injective h2)
          ∙ ap (λ t. not (fits_in_one_transaction P.wire t payer))
              (sym (budgeted-ok batch is made)))
  ]

module _ {W : Type 0} (P : ProofInterface) (C : Cluster W) (payer : Address) where
  -- A batch that was sent on a recorded cluster.
  send_batch-ok :
      (batch : List Budgeted) (v v' : W × Log)
      → send_batch P (recorded C) batch v ≡ (ok tt, v')
      → v'.1
        ≡ record { instructions = batch_transaction P payer batch; signers = []; landed = true }
          ∷ v.1
  unfolding send_batch
  send_batch-ok batch v v' h =
      let (is, made, h1) = continue-ok (budgeted P batch) _ v h in
      rw (budgeted-ok P payer batch is made) (ground arith)

  -- One round of the loop.
  round :
      (b : Budgeted) (bs rest : List Budgeted) (item : Budgeted) (v v' : W × Log)
      → pack P (recorded C) payer (b ∷ bs) (item ∷ rest) v ≡ (ok tt, v')
      → ((overflows P payer ((b ∷ bs) ++ (item ∷ [])) ≡ ok true)
          × ((u : W × Log) × (send_batch P (recorded C) (b ∷ bs) v ≡ (ok tt, u))
              × (pack P (recorded C) payer (item ∷ []) rest u ≡ (ok tt, v'))))
        ⊎ ((overflows P payer ((b ∷ bs) ++ (item ∷ [])) ≡ ok false)
            × (pack P (recorded C) payer ((b ∷ bs) ++ (item ∷ [])) rest v ≡ (ok tt, v')))
  unfolding pack
  round b bs rest item v v' h =
      let (full, tested, h1) = continue-ok (overflows P payer ((b ∷ bs) ++ (item ∷ []))) _ v h in
      split full tested h1
    where
      split :
          (full : Bool)
          → overflows P payer ((b ∷ bs) ++ (item ∷ [])) ≡ ok full
          → (if full
                then send_batch P (recorded C) (b ∷ bs)
                  >> pack P (recorded C) payer (item ∷ []) rest
                else pack P (recorded C) payer ((b ∷ bs) ++ (item ∷ [])) rest)
              v
            ≡ (ok tt, v')
          → ((overflows P payer ((b ∷ bs) ++ (item ∷ [])) ≡ ok true)
              × ((u : W × Log) × (send_batch P (recorded C) (b ∷ bs) v ≡ (ok tt, u))
                  × (pack P (recorded C) payer (item ∷ []) rest u ≡ (ok tt, v'))))
            ⊎ ((overflows P payer ((b ∷ bs) ++ (item ∷ [])) ≡ ok false)
                × (pack P (recorded C) payer ((b ∷ bs) ++ (item ∷ [])) rest v ≡ (ok tt, v')))
      split true tested h1 =
          let r = send_batch P (recorded C) (b ∷ bs) v in
          let (u, sent, h2) = continue-ok r.0 _ r.1 h1 in inl (tested, (r.1, ground arith, h2))
      split false tested h1 = inr (tested, h1)

  -- The batch may be sent.
  abbrev Sendable : List Budgeted → Type 0
  Sendable batch = (length batch ≡ 1) ⊎ (batch_fits P payer batch ≡ true)

  -- What is sent for a batch that begins with `b` and the items after it.
  abbrev PacksFrom : Budgeted → List Budgeted → Log → Log → Type 0
  PacksFrom b items log log' =
      (firsts : List Budgeted) × (others : List (List Budgeted)) × (flatten ((b ∷ firsts) ∷ others)
        ≡ items)
      × (log' ≡ closed_by P payer ((b ∷ firsts) ∷ others) log)
      × Greedy P payer ((b ∷ firsts) ∷ others)

  no_room :
      (b item : Budgeted) (bs : List Budgeted)
      → overflows P payer ((b ∷ bs) ++ (item ∷ [])) ≡ ok true
      → batch_fits P payer ((b ∷ bs) ++ (item ∷ [])) ≡ false
  no_room b item bs h = ground (arith, overflows-ok P payer ((b ∷ bs) ++ (item ∷ [])) true)

  room :
      (b item : Budgeted) (bs : List Budgeted)
      → overflows P payer ((b ∷ bs) ++ (item ∷ [])) ≡ ok false
      → batch_fits P payer ((b ∷ bs) ++ (item ∷ [])) ≡ true
  room b item bs h =
      ground
        (arith, overflows-ok P payer ((b ∷ bs) ++ (item ∷ [])) false, length-append bs (item ∷ []))

  pack-PacksFrom :
      (rest : List Budgeted) (b : Budgeted) (bs : List Budgeted) (v v' : W × Log)
      → Sendable (b ∷ bs)
      → pack P (recorded C) payer (b ∷ bs) rest v ≡ (ok tt, v')
      → PacksFrom b ((b ∷ bs) ++ rest) v.1 v'.1
  unfolding pack flatten
  pack-PacksFrom [] b bs v v' fit h = (bs, [], refl, send_batch-ok (b ∷ bs) v v' h, (fit, tt, tt))
  pack-PacksFrom (item ∷ rest) b bs v v' fit h = elim (round b bs rest item v v' h) [
    | inl (full, (u, sent, onward)) ↦
        let (firsts, others, joined, logged, greedy) =
          pack-PacksFrom rest item [] u v' (inl refl) onward in
        (
          bs,
          (item ∷ firsts) ∷ others,
          ap (◌++◌ (b ∷ bs)) joined,
          logged
              ∙ ap (closed_by P payer ((item ∷ firsts) ∷ others)) (send_batch-ok (b ∷ bs) v u sent),
          (fit, no_room b item bs full, greedy),
        )
    | inr (fits, onward) ↦
        let (firsts, others, joined, logged, greedy) =
          pack-PacksFrom rest b (bs ++ (item ∷ [])) v v' (inr (room b item bs fits)) onward in
        (firsts, others, joined ∙ append_assoc (b ∷ bs) (item ∷ []) rest, logged, greedy)
  ]

module _ {W : Type 0} (P : ProofInterface) (C : Cluster W) where
  -- On every cluster, when closing succeeds, the close instructions of all contexts and then of all
  -- records have been sent, each once and in that order, in transactions that landed. Each of these
  -- holds one instruction or fits in a packet, sets the compute units that its instructions need
  -- together, and was sent only when the next instruction no longer fitted.
  pub close-Packs :
      (accounts : ProofAccounts) (v v' : W × Log)
      → close P (recorded C) accounts v ≡ (ok tt, v')
      → Packs P (C.payer v.0) (to_close P (C.payer v.0) accounts) v.1 v'.1
  unfolding close flatten
  close-Packs accounts v v' h =
      subst (λ items. Packs P (C.payer v.0) items v.1 v'.1)
        (pending-to_close P (C.payer v.0) accounts) (started (pending P (C.payer v.0) accounts) h)
    where
      started :
          (items : List Budgeted)
          → pack P (recorded C) (C.payer v.0) [] items v ≡ (ok tt, v')
          → Packs P (C.payer v.0) items v.1 v'.1
      started [] e = ([], refl, ground arith, tt)
      started (item ∷ rest) e =
          let (firsts, others, joined, logged, greedy) =
            pack-PacksFrom P C (C.payer v.0) rest item [] v v' (inl refl) e in
          ((item ∷ firsts) ∷ others, joined, logged, greedy)
