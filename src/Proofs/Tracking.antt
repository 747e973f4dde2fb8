-- ===== src/Proofs/Tracking.antt =====
-- remit/src/proofs.rs: `verify` and `stage_from_record` keep account of all that they create.
use token_22_cts.Prelude.{
  ℕ, zero, suc, ◌+◌, ◌≡◌, inl, inr, refl, sym, ap, subst, Bool, true, false, Bool-cases, Option,
  List, [], ◌∷◌, ◌++◌, All, ltb, ◌==◌, length, drop, take, arith,
}
use token_22_cts.Solana.{Bytes, Address, Instruction}
use token_22_cts.Error.{ok}
use token_22_cts.Cluster.{Cluster}
use token_22_cts.Cluster.Inversion.{continue_rule}
use token_22_cts.Cluster.Recorded.{Log, is_ok, recorded}
use token_22_cts.Random.{Random, recorded_random}
use token_22_cts.Proofs.Interface.{ProofInstruction, Proof, ProofInterface}
use token_22_cts.Proofs.Chunk.{largest_chunk}
use token_22_cts.Proofs.Record.{write, fill}
use token_22_cts.Proofs.Filling.{kept_back, fill-Fills}
use token_22_cts.Proofs.Staging.{opening_with, first_len}
use token_22_cts.Proofs.Trail.{Built, refused, verified, opened, wrote, IsWrite, Tracked}
use token_22_cts.Proofs.Verified.{verify-Verifies}
use token_22_cts.Proofs.{Staged, ProofAccounts, create_context_account, verify, stage_from_record}

pub All-append :
    {A : Type 0} (Q : A → Type 0) (xs ys : List A) → All Q xs → All Q ys → All Q (xs ++ ys)
All-append Q [] ys h g = g
All-append Q (x ∷ xs) ys (h, hs) g = (h, All-append Q xs ys hs g)

module _ (P : ProofInterface) (before : Log) {log : Log} {contexts records : List Address} where
  -- A write creates nothing, whether it lands or not.
  pub tried-Built :
      (landed : Bool)
      → Built P before log contexts records
      → (account payer : Address) (offset : ℕ) (chunk : Bytes)
      → Built P before
          (record {
            instructions = P.record_write account payer offset chunk ∷ [];
            signers = [];
            landed = landed;
          }
            ∷ log)
          contexts
          records
  tried-Built true b account payer offset chunk = wrote b account payer offset chunk
  tried-Built false b account payer offset chunk = refused b _ _

module _ {W : Type 0} (P : ProofInterface) (before : Log) (C : Cluster W) where
  module _ (payer account : Address) (bytes : Bytes) {contexts records : List Address} where
    -- The loop creates nothing.
    fill-Built :
        (fuel offset : ℕ) (v : W × Log)
        → Built P before v.1 contexts records
        → Built P before
            (fill P (recorded C) payer account bytes fuel offset v).1.1
            contexts
            records
    unfolding fill
    fill-Built zero offset v b = b
    fill-Built (suc fuel) offset v b =
        let rest = drop offset bytes in
        let len = largest_chunk P.wire payer rest (λ c. write P payer account offset c ∷ []) in
        let sent = (recorded C).send (write P payer account offset (take len rest) ∷ []) [] v in
        let b' = tried-Built P before (is_ok sent.0) b account payer offset (take len rest) in
        elim (Bool-cases (ltb offset (length bytes))) [
          | inr over ↦ rw (fill, over) b
          | inl inside ↦ elim (Bool-cases (len == 0)) [
            | inl nothing ↦ rw (fill, inside, nothing) b
            | inr something ↦ elim (Bool-cases (len == length rest)) [
              | inl whole ↦ rw (fill, inside, something, whole) b
              | inr part ↦
                  rw (fill, inside, something, part)
                    (continue_rule (λ (u : W × Log). Built P before u.1 contexts records) sent.0
                      (λ _. fill P (recorded C) payer account bytes fuel (offset + len)) sent.1
                      (λ _. b') (λ _ _. fill-Built fuel (offset + len) sent.1 b'))
            ]
          ]
        ]

  kept_back-IsWrite :
      (payer account : Address) (offset : ℕ) (last : Bytes)
      → IsWrite P (kept_back P payer account offset last)
  kept_back-IsWrite payer account offset [] = inl refl
  kept_back-IsWrite payer account offset (b ∷ bs) = inr (account, payer, offset, b ∷ bs, refl)

  -- What the loop returns is a write.
  fill-IsWrite :
      (payer account : Address) (bytes : Bytes) (offset : ℕ) (v : W × Log)
      (tail : Option Instruction)
      → (fill P (recorded C) payer account bytes (length bytes) offset v).0 ≡ ok tail
      → IsWrite P tail
  fill-IsWrite payer account bytes offset v tail h =
      let filled = fill P (recorded C) payer account bytes (length bytes) offset v in
      let (chunks, last, joined, logged, kept, all, end) =
        fill-Fills P C payer account bytes (length bytes) offset tail v filled.1 (omega arith)
          (λ i. (h i, filled.1)) in
      subst (IsWrite P) (sym kept) (kept_back-IsWrite payer account _ last)

  module _ (R : Random W) (instruction : ProofInstruction) (proof : Proof) (v : W × Log)
      (s : ProofAccounts) where
    -- Whatever the cluster does, `verify` keeps the account: if the proof accounts list exactly what
    -- has been created since some log, so they do afterwards, with the context if it was created.
    pub verify-Tracked :
        Tracked P before (v, s)
        → Tracked P before (verify P (recorded C) (recorded_random R) instruction proof (v, s)).1
    unfolding create_context_account
    verify-Tracked (b, writes) =
        let r = verify P (recorded C) (recorded_random R) instruction proof (v, s) in
        elim (verify-Verifies P C R instruction proof v s) [
          | inl (failed, same, inl (unsent, large)) ↦ placed r.1 v.1 s unsent same (b, writes)
          | inl (failed, same, inr sent) ↦ placed r.1 _ s sent same (refused b _ _, writes)
          | inr (done, grown, fits, sent) ↦
              placed r.1 _ _ sent grown
                (verified b (R.new_keypair v.0).0 _ (C.payer v.0) _ _ _ instruction proof, writes)
        ]
      where
        placed :
            (u : (W × Log) × ProofAccounts) (log : Log) (accounts : ProofAccounts)
            → u.0.1 ≡ log
            → u.1 ≡ accounts
            → Built P before log accounts.contexts accounts.records
              × All (λ (t : Staged). IsWrite P t.tail_write) accounts.staged
            → Tracked P before u
        placed u log accounts logged same (b, writes) = (
          subst (λ l. Built P before l u.1.contexts u.1.records) (sym logged)
              (subst (λ (a : ProofAccounts). Built P before log a.contexts a.records) (sym same) b),
          subst (λ (a : ProofAccounts). All (λ (t : Staged). IsWrite P t.tail_write) a.staged)
              (sym same) writes,
        )

    -- Whatever the cluster does, and however far it gets, `stage_from_record` keeps the account: if
    -- the proof accounts list exactly what has been created since some log, so they do afterwards,
    -- with the record if it was created, and their staged proofs keep back nothing but writes.
    pub stage_from_record-Tracked :
        Tracked P before (v, s)
        → Tracked P before
            (stage_from_record P (recorded C) (recorded_random R) instruction proof (v, s)).1
    unfolding stage_from_record
    stage_from_record-Tracked (b, writes) =
        let key = (R.new_keypair v.0).0 in
        let u : W × Log = ((R.new_keypair v.0).1, v.1) in
        let first = first_len P C R instruction proof v s key.pubkey in
        let sent =
          (recorded C).send
            (opening_with P C R instruction proof v s key.pubkey (take first proof.bytes))
            (key ∷ []) u in
        let filled =
          fill P (recorded C) (C.payer v.0) key.pubkey proof.bytes (length proof.bytes) first
            sent.1 in
        let sent_as = λ (l : Bool).
          record {
            instructions =
                opening_with P C R instruction proof v s key.pubkey (take first proof.bytes);
            signers = key ∷ [];
            landed = l;
          }
          ∷ v.1 in
        let grown = record s { records = s.records ++ (key.pubkey ∷ []) } in
        continue_rule (Tracked P before) sent.0 _ (sent.1, s)
          (λ failed. (
            subst (λ l. Built P before (sent_as l) s.contexts s.records) (sym failed)
                (refused b _ _),
            writes,
          ))
          (λ receipt landed.
            let b' =
              fill-Built (C.payer v.0) key.pubkey proof.bytes (length proof.bytes) first sent.1 (
                subst (λ l. Built P before (sent_as l) s.contexts grown.records)
                  (sym (ap is_ok landed))
                  (opened b key (C.payer v.0) _ _ (take first proof.bytes))) in
            continue_rule (Tracked P before) filled.0 _ (filled.1, grown) (λ _. (b', writes))
              (λ tail wrote. (
                b',
                All-append _ _ _ writes
                    (fill-IsWrite (C.payer v.0) key.pubkey proof.bytes first sent.1 tail wrote, tt),
              )))
