-- ===== src/Proofs/Few.antt =====
-- remit/src/proofs.rs: `verify` and `stage_from_record` create few accounts and do not panic.
use token_22_cts.Prelude.{
  ℕ, zero, suc, ◌+◌, ◌*◌, ◌<◌, ◌≤◌, ◌≡◌, ◌≢◌, inl, inr, refl, sym, subst, Bool, true, false,
  Bool-cases, not, some, List, [], ◌∷◌, ◌++◌, map, length, length-append, ltb, ◌==◌, drop, take,
  if◌then◌else◌, arith,
}
use token_22_cts.Solana.{u32_mod, Bytes, Address, Keypair, Instruction}
use token_22_cts.Error.{Error, Result, ok, err, panicked, invalid, does_not_fit_next_to_create}
use token_22_cts.Cluster.{Cluster, fits_in_one_transaction, with_compute_unit_limit}
use token_22_cts.Cluster.Inversion.{continue_rule}
use token_22_cts.Cluster.Recorded.{Log, recorded}
use token_22_cts.Random.{Random, recorded_random}
use token_22_cts.Proofs.Interface.{ProofInstruction, Proof, ProofInterface}
use token_22_cts.Proofs.Units.{compute_units, overhead_units}
use token_22_cts.Proofs.Packing.{sum}
use token_22_cts.Proofs.Close.{pending}
use token_22_cts.Proofs.Chunk.{largest_chunk}
use token_22_cts.Proofs.Record.{write, fill}
use token_22_cts.Proofs.Budget.{Closable, units_of-append, units_of-map}
use token_22_cts.Proofs.Calm.{continue-calm}
use token_22_cts.Proofs.Verified.{verify-Verifies}
use token_22_cts.Proofs.Staging.{opening_with, first_len}
use token_22_cts.Proofs.{
  ProofAccounts, context_info, create_context_account, verify, stage_from_record,
}

-- At most so many contexts and records.
abbrev pub Few : ℕ → ℕ → ProofAccounts → Type 0
Few n m accounts = (length accounts.contexts ≤ n) × (length accounts.records ≤ m)

contexts-cost : (xs : List Address) → sum (map (λ _. 3_300) xs) ≡ 3_300 * length xs
contexts-cost [] = refl
contexts-cost (x ∷ xs) = omega (arith, contexts-cost xs)

records-cost : (xs : List Address) → sum (map (λ _. 5_000) xs) ≡ 5_000 * length xs
records-cost [] = refl
records-cost (x ∷ xs) = omega (arith, records-cost xs)

-- Few accounts can be closed within the budget.
pub Few-Closable :
    (P : ProofInterface) (n m : ℕ) (accounts : ProofAccounts)
    → Few n m accounts
    → 3_300 * n + 5_000 * m + 2_000 < u32_mod
    → Closable P accounts
unfolding pending compute_units
Few-Closable P n m accounts (contexts, records) small payer = omega (
  arith,
  units_of-append
      (map (λ c. (P.close_context_state (context_info c payer) payer, 3_300)) accounts.contexts)
      (map (λ r. (P.record_close_account r payer payer, 5_000)) accounts.records),
  units_of-map (λ c. P.close_context_state (context_info c payer) payer) 3_300 accounts.contexts,
  units_of-map (λ r. P.record_close_account r payer payer) 5_000 accounts.records,
  contexts-cost accounts.contexts,
  records-cost accounts.records,
)

module _ {W : Type 0} (P : ProofInterface) (C : Cluster W) (R : Random W)
    (instruction : ProofInstruction) (proof : Proof) (n m : ℕ) (v : W × Log)
    (s : ProofAccounts) where
  pub verify-Few :
      Few n m s
      → Few (n + 1) m (verify P (recorded C) (recorded_random R) instruction proof (v, s)).1.1
  verify-Few (few, records) =
      let r = verify P (recorded C) (recorded_random R) instruction proof (v, s) in
      elim (verify-Verifies P C R instruction proof v s) [
        | inl (failed, same, rest) ↦ subst (Few (n + 1) m) (sym same) (omega arith, records)
        | inr (done, grown, fits, rest) ↦
            subst (Few (n + 1) m) (sym grown)
              (omega (arith, length-append s.contexts ((R.new_keypair v.0).0.pubkey ∷ [])), records)
      ]

  pub stage_from_record-Few :
      Few n m s
      → Few n
          (m + 1)
          (stage_from_record P (recorded C) (recorded_random R) instruction proof (v, s)).1.1
  unfolding stage_from_record
  stage_from_record-Few (contexts, few) =
      let key = (R.new_keypair v.0).0 in
      let u : W × Log = ((R.new_keypair v.0).1, v.1) in
      let first = first_len P C R instruction proof v s key.pubkey in
      let sent =
        (recorded C).send
          (opening_with P C R instruction proof v s key.pubkey (take first proof.bytes)) (key ∷ [])
          u in
      let filled =
        fill P (recorded C) (C.payer v.0) key.pubkey proof.bytes (length proof.bytes) first
          sent.1 in
      let grown = record s { records = s.records ++ (key.pubkey ∷ []) } in
      let more : length grown.records ≤ m + 1 =
        omega (arith, length-append s.records (key.pubkey ∷ [])) in
      let Q : (W × Log) × ProofAccounts → Type 0 = λ x. Few n (m + 1) x.1 in
      continue_rule Q sent.0 _ (sent.1, s) (λ _. (contexts, omega arith))
        λ receipt landed.
          continue_rule Q filled.0 _ (filled.1, grown) (λ _. (contexts, more))
            λ tail wrote. (contexts, more)

refuse-calm :
    (test : Bool) (e : Error)
    → ◌≢◌ {A = Result (Unit {0}) Error} (if test then err e else ok tt) panicked
refuse-calm true e p = cc
refuse-calm false e p = cc

module _ {W : Type 0} (P : ProofInterface) (C : Cluster W) (R : Random W)
    (calm : (is : List Instruction) (keys : List Keypair) (w : W)
      → (C.send is keys w).0 ≢ panicked) where
  fill-calm :
      (payer account : Address) (bytes : Bytes) (fuel offset : ℕ) (w : W)
      → (fill P C payer account bytes fuel offset w).0 ≢ panicked
  unfolding fill
  fill-calm payer account bytes zero offset w = λ p. cc
  fill-calm payer account bytes (suc fuel) offset w =
      let rest = drop offset bytes in
      let len = largest_chunk P.wire payer rest (λ c. write P payer account offset c ∷ []) in
      let sent = C.send (write P payer account offset (take len rest) ∷ []) [] w in
      elim (Bool-cases (ltb offset (length bytes))) [
        | inr over ↦ rw (fill, over) (λ p. cc)
        | inl inside ↦ elim (Bool-cases (len == 0)) [
          | inl nothing ↦ rw (fill, inside, nothing) (λ p. cc)
          | inr something ↦ elim (Bool-cases (len == length rest)) [
            | inl whole ↦ rw (fill, inside, something, whole) (λ p. cc)
            | inr part ↦
                rw (fill, inside, something, part)
                  (continue-calm sent.0 _ sent.1
                    (calm (write P payer account offset (take len rest) ∷ []) [] w)
                    (λ _ _. fill-calm payer account bytes fuel (offset + len) sent.1))
          ]
        ]
      ]

  module _ (instruction : ProofInstruction) (proof : Proof) (w : W) (s : ProofAccounts) where
    pub verify-calm : (verify P C R instruction proof (w, s)).0 ≢ panicked
    unfolding verify create_context_account
    verify-calm =
        let key = (R.new_keypair w).0 in
        let u = (R.new_keypair w).1 in
        let transaction =
          with_compute_unit_limit P.wire (compute_units instruction + overhead_units) (
            create_context_account P C R proof.context_len key.pubkey u
            ∷ P.encode_verify_proof instruction (some (context_info key.pubkey (C.payer w))) proof
            ∷ []) in
        let sent = C.send transaction (key ∷ []) u in
        let large = not (fits_in_one_transaction P.wire transaction (C.payer w)) in
        let refusal : Result (Unit {0}) Error =
          if large then err (invalid does_not_fit_next_to_create) else ok tt in
        continue-calm refusal _ (u, s) (refuse-calm large (invalid does_not_fit_next_to_create))
          λ fits _.
            continue-calm sent.0 _ (sent.1, s) (calm transaction (key ∷ []) u)
              λ receipt landed p. cc

    pub stage_from_record-calm : (stage_from_record P C R instruction proof (w, s)).0 ≢ panicked
    unfolding stage_from_record
    stage_from_record-calm =
        let key = (R.new_keypair w).0 in
        let u = (R.new_keypair w).1 in
        continue-calm _ _ _ (calm _ (key ∷ []) u) λ receipt landed.
          continue-calm _ _ _ (fill-calm _ key.pubkey proof.bytes (length proof.bytes) _ _)
            λ tail wrote p. cc
