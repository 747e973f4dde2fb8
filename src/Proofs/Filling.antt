-- ===== src/Proofs/Filling.antt =====
-- remit/src/proofs.rs: what the loop of `stage_from_record` writes into a record account.
use mathlib.Core.List.{flatten, append_assoc}
use token_22_cts.Prelude.{
  ℕ, zero, suc, ◌+◌, ◌≤◌, ◌<◌, ◌≡◌, ◌≢◌, ◌⊎◌, inl, inr, refl, sym, ap, ◌∙◌, subst, Bool, true,
  Option, none, some, List, [], ◌∷◌, ◌++◌, length, take, drop, take-append-drop, take-le_all,
  length-append, length-take, length-drop, drop-drop, arith,
}
use token_22_cts.Solana.{Bytes, Address, Instruction}
use token_22_cts.Error.{ok}
use token_22_cts.Cluster.{Cluster, fits_in_one_transaction}
use token_22_cts.Cluster.Recorded.{Sent, Log, recorded}
use token_22_cts.Proofs.Interface.{ProofInterface}
use token_22_cts.Proofs.Chunk.{largest_chunk, largest_chunk-le, largest_chunk-fits}
use token_22_cts.Proofs.Record.{write, fill}

module _ (P : ProofInterface) (payer account : Address) where
  -- The transaction of one chunk, landed.
  abbrev pub sent_chunk : ℕ → Bytes → Sent
  sent_chunk offset c = record {
    instructions = write P payer account offset c ∷ [];
    signers = [];
    landed = true;
  }

  -- The log after the chunks are written one after the other from an offset, each in a transaction
  -- of its own that landed.
  abbrev pub written : ℕ → List Bytes → Log → Log
  written offset [] log = log
  written offset (c ∷ cs) log = written (offset + length c) cs (sent_chunk offset c ∷ log)

  -- The transaction of one chunk fits in a packet.
  abbrev pub chunk_fits : ℕ → Bytes → Bool
  chunk_fits offset c = fits_in_one_transaction P.wire (write P payer account offset c ∷ []) payer

  abbrev pub AllFit : ℕ → List Bytes → Type 0
  AllFit offset [] = Unit
  AllFit offset (c ∷ cs) = (chunk_fits offset c ≡ true) × AllFit (offset + length c) cs

  -- The write that is kept back, if any bytes are left for it.
  abbrev pub kept_back : ℕ → Bytes → Option Instruction
  kept_back offset [] = none
  kept_back offset (b ∷ bs) = some (write P payer account offset (b ∷ bs))

  -- From the offset on, the chunks that were written and the part that was kept back are the bytes,
  -- in order and with nothing missing; and every one of these writes fits in a packet.
  abbrev pub Fills : Bytes → ℕ → Log → Log → Option Instruction → Type 0
  Fills bytes offset log log' tail =
      (chunks : List Bytes) × (last : Bytes) × (flatten chunks ++ last ≡ drop offset bytes)
      × (log' ≡ written offset chunks log)
      × (tail ≡ kept_back (offset + length (flatten chunks)) last)
      × AllFit offset chunks
      × ((last ≡ []) ⊎ (chunk_fits (offset + length (flatten chunks)) last ≡ true))

  drop-all : (n : ℕ) (bytes : Bytes) → length bytes ≤ n → drop n bytes ≡ []
  drop-all zero [] h = refl
  drop-all zero (b ∷ bs) h = absurd (omega arith)
  drop-all (suc n) [] h = refl
  drop-all (suc n) (b ∷ bs) h = drop-all n bs (omega arith)

  -- Nothing is left to write.
  done-Fills :
      (bytes : Bytes) (offset : ℕ) (log : Log)
      → length bytes ≤ offset
      → Fills bytes offset log log none
  unfolding flatten
  done-Fills bytes offset log h = ([], [], sym (drop-all offset bytes h), refl, refl, tt, inl refl)

  kept_back-some :
      (offset : ℕ) (rest : Bytes)
      → 0 < length rest
      → kept_back offset rest ≡ some (write P payer account offset rest)
  kept_back-some offset [] h = absurd (omega arith)
  kept_back-some offset (b ∷ bs) h = refl

  -- The rest is kept back.
  last-Fills :
      (bytes : Bytes) (offset : ℕ) (log : Log)
      → offset < length bytes
      → chunk_fits offset (drop offset bytes) ≡ true
      → Fills bytes offset log log (some (write P payer account offset (drop offset bytes)))
  unfolding flatten
  last-Fills bytes offset log h fits =
      let here : offset ≡ offset + 0 = omega arith in
      (
        [],
        drop offset bytes,
        refl,
        refl,
        ap (λ o. some (write P payer account o (drop offset bytes))) here
            ∙ sym (
                kept_back-some (offset + 0) (drop offset bytes)
                  (omega (arith, length-drop offset bytes))),
        tt,
        inr (rw (← here) fits),
      )

  -- A chunk is written, and then what follows it.
  more-Fills :
      (bytes : Bytes) (offset : ℕ) (c : Bytes) (log log' : Log) (tail : Option Instruction)
      → c ++ drop (offset + length c) bytes ≡ drop offset bytes
      → chunk_fits offset c ≡ true
      → Fills bytes (offset + length c) (sent_chunk offset c ∷ log) log' tail
      → Fills bytes offset log log' tail
  unfolding flatten
  more-Fills bytes offset c log log' tail split fits (cs, last, joined, logged, kept, all, end) =
      let far : offset + length c + length (flatten cs) ≡ offset + length (c ++ flatten cs) =
        omega (arith, length-append c (flatten cs)) in
      (
        c ∷ cs,
        last,
        append_assoc c (flatten cs) last ∙ ap (◌++◌ c) joined ∙ split,
        logged,
        kept ∙ ap (λ o. kept_back o last) far,
        (fits, all),
        elim end [ inl e ↦ inl e | inr f ↦ inr (subst (λ o. chunk_fits o last ≡ true) far f) ],
      )

  -- What `largest_chunk` found for the rest of the bytes.
  abbrev chunk_of : Bytes → ℕ → ℕ
  chunk_of bytes offset =
      largest_chunk P.wire payer (drop offset bytes)
        (λ chunk. write P payer account offset chunk ∷ [])

  split-chunk :
      (bytes : Bytes) (offset : ℕ)
      → length (take (chunk_of bytes offset) (drop offset bytes)) ≡ chunk_of bytes offset
  split-chunk bytes offset = omega (
    arith,
    length-take (chunk_of bytes offset) (drop offset bytes),
    largest_chunk-le P.wire payer (drop offset bytes)
        (λ chunk. write P payer account offset chunk ∷ []),
  )

module _ {W : Type 0} (P : ProofInterface) (C : Cluster W) (payer account : Address)
    (bytes : Bytes) where
  -- One round of the loop on a recorded cluster, by the way it ends.
  round :
      (fuel offset : ℕ) (tail : Option Instruction) (v v' : W × Log)
      → fill P (recorded C) payer account bytes (suc fuel) offset v ≡ (ok tail, v')
      → let k = chunk_of P payer account bytes offset in
        let rest = drop offset bytes in
        ((length bytes ≤ offset) × (none ≡ tail) × (v ≡ v'))
        ⊎ (((offset < length bytes)
              × (k ≢ 0)
              × (k ≡ length rest)
              × (some (write P payer account offset rest) ≡ tail)
              × (v ≡ v'))
            ⊎ ((k ≢ 0)
                × (fill P (recorded C) payer account bytes fuel (offset + k) (
                  (C.send (write P payer account offset (take k rest) ∷ []) [] v.0).1,
                  sent_chunk P payer account offset (take k rest) ∷ v.1,
                )
                    ≡ (ok tail, v'))))
  unfolding fill
  round fuel offset tail v v' h = ground arith

  moved :
      (offset : ℕ) (tail : Option Instruction) (v v' : W × Log) (t : Option Instruction)
      → t ≡ tail
      → v ≡ v'
      → Fills P payer account bytes offset v.1 v.1 t
      → Fills P payer account bytes offset v.1 v'.1 tail
  moved offset tail v v' t left same = λ f.
      subst (λ (u : W × Log). Fills P payer account bytes offset v.1 u.1 tail) same
        (subst (λ o. Fills P payer account bytes offset v.1 v.1 o) left f)

  abbrev chunk : ℕ → Bytes
  chunk offset = take (chunk_of P payer account bytes offset) (drop offset bytes)

  whole-fits :
      (offset : ℕ)
      → chunk_of P payer account bytes offset ≢ 0
      → chunk_of P payer account bytes offset ≡ length (drop offset bytes)
      → chunk_fits P payer account offset (drop offset bytes) ≡ true
  whole-fits offset nonzero whole =
      let fits =
        largest_chunk-fits P.wire payer (drop offset bytes)
          (λ c. write P payer account offset c ∷ []) nonzero in
      subst (λ c. chunk_fits P payer account offset c ≡ true)
        (take-le_all (chunk_of P payer account bytes offset) (drop offset bytes) (omega arith)) fits

  chunk-split :
      (offset : ℕ) → chunk offset ++ drop (offset + length (chunk offset)) bytes ≡ drop offset bytes
  chunk-split offset =
      let k = chunk_of P payer account bytes offset in
      ap (λ n. chunk offset ++ drop (offset + n) bytes) (split-chunk P payer account bytes offset)
      ∙ ap (◌++◌ (chunk offset)) (sym (drop-drop k offset bytes))
      ∙ take-append-drop k (drop offset bytes)

  -- On every cluster, a run of the loop that succeeds, with at least as many rounds as there are bytes
  -- from the offset on, has written consecutive chunks, each in a transaction of its own that fits in
  -- a packet and landed, and returns one more write that fits, or none: these chunks and that write
  -- are all the bytes from the offset on, in order.
  pub fill-Fills :
      (fuel offset : ℕ) (tail : Option Instruction) (v v' : W × Log)
      → length bytes ≤ offset + fuel
      → fill P (recorded C) payer account bytes fuel offset v ≡ (ok tail, v')
      → Fills P payer account bytes offset v.1 v'.1 tail
  unfolding fill
  fill-Fills zero offset tail v v' enough h =
      moved offset tail v v' none (cc) (ground arith)
        (done-Fills P payer account bytes offset v.1 (omega arith))
  fill-Fills (suc fuel) offset tail v v' enough h = elim (round fuel offset tail v v' h) [
    | inl (over, none_left, same) ↦
        moved offset tail v v' none none_left same
          (done-Fills P payer account bytes offset v.1 over)
    | inr (inl (inside, nonzero, whole, left, same)) ↦
        moved offset tail v v' _ left same
          (last-Fills P payer account bytes offset v.1 inside (whole-fits offset nonzero whole))
    | inr (inr (nonzero, rest)) ↦
        more-Fills P payer account bytes offset (chunk offset) v.1 v'.1 tail (chunk-split offset)
          (largest_chunk-fits P.wire payer (drop offset bytes)
            (λ c. write P payer account offset c ∷ []) nonzero)
          (subst
            (λ k.
              Fills P payer account bytes (offset + k)
                (sent_chunk P payer account offset (chunk offset) ∷ v.1) v'.1 tail)
            (sym (split-chunk P payer account bytes offset))
            (fill-Fills fuel (offset + chunk_of P payer account bytes offset) tail _ v'
              (omega arith) rest))
  ]
