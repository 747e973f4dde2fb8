-- ===== src/Proofs/Rounds.antt =====
-- remit/src/proofs.rs: how many rounds the two loops take.
use token_22_cts.Prelude.{
  ℕ, zero, suc, ◌+◌, ◌*◌, true, false, ◌-◌, ◌/◌, ◌^◌, ◌≤◌, ◌<◌, ◌≡◌, inl, inr, refl, sym, ◌∙◌, Bool,
  Bool-cases, none, [], ◌∷◌, ltb, ◌==◌, length, drop, take, arith,
}
use native.Mathlib.Decide.{dec_lt}
use token_22_cts.Solana.{Bytes, Address}
use token_22_cts.Error.{Error, Result, ok, err, panicked}
use token_22_cts.Cluster.{Cluster, Flow, continue}
use token_22_cts.Proofs.Interface.{ProofInterface}
use token_22_cts.Proofs.Chunk.{
  search_chunk, search_chunk-up, search_chunk-down, search_chunk-done, largest_chunk,
}
use token_22_cts.Proofs.Record.{write, fill}

-- A run of the loop over `(low, high)` from its test to its end, by the rounds that it takes: it ends
-- with `low` once the bounds meet, and until then tests a number halfway, rounded up.
pub data Searches (fits : ℕ → Bool) : ℕ → ℕ → ℕ → ℕ → Type 0 where
  met : {low high : ℕ} → high ≤ low → Searches fits 0 low high low
  raised :
      {rounds low high result : ℕ} (mid : ℕ)
      → low < high
      → low + high ≤ 2 * mid
      → 2 * mid ≤ low + high + 1
      → fits mid ≡ true
      → Searches fits rounds mid high result
      → Searches fits (suc rounds) low high result
  lowered :
      {rounds low high result : ℕ} (mid : ℕ)
      → low < high
      → low + high ≤ 2 * mid
      → 2 * mid ≤ low + high + 1
      → fits mid ≡ false
      → Searches fits rounds low (mid - 1) result
      → Searches fits (suc rounds) low high result

module _ (fits : ℕ → Bool) where
  -- The loop ends with this result after at most so many rounds.
  abbrev pub EndsWithin : ℕ → ℕ → ℕ → ℕ → Type 0
  EndsWithin k low high result = (rounds : ℕ) × (rounds ≤ k) × Searches fits rounds low high result

  -- If the bounds are less than 2^k apart, the loop of the binary search ends after at most k rounds,
  -- with what the function returns for any fuel from k on.
  pub search_chunk-EndsWithin :
      (k fuel low high : ℕ)
      → high < low + 2 ^ k
      → k ≤ fuel
      → EndsWithin k low high (search_chunk fits fuel low high)
  search_chunk-EndsWithin zero fuel low high h enough =
      rw (search_chunk-done fits low high fuel (ground arith)) (0, omega arith, met (ground arith))
  search_chunk-EndsWithin (suc k) zero low high h enough = absurd (omega arith)
  search_chunk-EndsWithin (suc k) (suc fuel) low high h enough = elim (dec_lt low high) [
    | no done ↦
        rw (search_chunk-done fits low high (suc fuel) (omega arith))
          (0, omega arith, met (omega arith))
    | yes lt ↦
        let mid = (low + high + 1) / 2 in
        elim (Bool-cases (fits mid)) [
          | inl passes ↦
              let (n, le, run) =
                search_chunk-EndsWithin k fuel mid high (ground arith) (omega arith) in
              rw (search_chunk-up fits low high fuel lt passes)
                (suc n, omega arith, raised mid lt (omega arith) (omega arith) passes run)
          | inr refused ↦
              let (n, le, run) =
                search_chunk-EndsWithin k fuel low (mid - 1) (ground arith) (omega arith) in
              rw (search_chunk-down fits low high fuel lt refused)
                (suc n, omega arith, lowered mid lt (omega arith) (omega arith) refused run)
        ]
  ]

continue-same :
    {W A B : Type 0} (r : Result A Error) (m n : Flow W B) (w : W)
    → m w ≡ n w
    → continue r (λ _. m) w ≡ continue r (λ _. n) w
continue-same (ok a) m n w h = h
continue-same (err e) m n w h = refl
continue-same panicked m n w h = refl

module _ {W : Type 0} (P : ProofInterface) (C : Cluster W) (payer account : Address)
    (bytes : Bytes) where
  fill-over :
      (k offset : ℕ) (w : W)
      → length bytes ≤ offset
      → fill P C payer account bytes k offset w ≡ (ok none, w)
  unfolding fill
  fill-over zero offset w h = refl
  fill-over (suc k) offset w h = ground arith

  -- As many rounds as there are bytes from the offset on are enough for the filling loop, whatever
  -- the cluster answers: any two numbers of rounds that are enough give the same outcome.
  pub fill-rounds :
      (k j offset : ℕ) (w : W)
      → length bytes ≤ offset + k
      → length bytes ≤ offset + j
      → fill P C payer account bytes k offset w ≡ fill P C payer account bytes j offset w
  unfolding fill
  fill-rounds k zero offset w h g =
      fill-over k offset w (omega arith) ∙ sym (fill-over zero offset w (omega arith))
  fill-rounds zero (suc j) offset w h g =
      fill-over zero offset w (omega arith) ∙ sym (fill-over (suc j) offset w (omega arith))
  fill-rounds (suc k) (suc j) offset w h g =
      let rest = drop offset bytes in
      let len = largest_chunk P.wire payer rest (λ c. write P payer account offset c ∷ []) in
      let sent = C.send (write P payer account offset (take len rest) ∷ []) [] w in
      elim (Bool-cases (ltb offset (length bytes))) [
        | inr over ↦ rw (fill, over) refl
        | inl inside ↦ elim (Bool-cases (len == 0)) [
          | inl nothing ↦ rw (fill, inside, nothing) refl
          | inr something ↦ elim (Bool-cases (len == length rest)) [
            | inl whole ↦ rw (fill, inside, something, whole) refl
            | inr part ↦
                let more : 0 < len = ground arith in
                rw (fill, inside, something, part)
                  (continue-same sent.0 (fill P C payer account bytes k (offset + len))
                    (fill P C payer account bytes j (offset + len)) sent.1
                    (fill-rounds k j (offset + len) sent.1 (omega arith) (omega arith)))
          ]
        ]
      ]
