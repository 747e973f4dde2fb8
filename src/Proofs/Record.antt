-- ===== src/Proofs/Record.antt =====
-- remit/src/proofs.rs: the loop of `stage_from_record` that fills a record account.
use token_22_cts.Prelude.{
  ℕ, zero, suc, ◌+◌, true, false, Option, none, some, [], ◌∷◌, ltb, ◌==◌, length, drop, take,
}
use token_22_cts.Solana.{Bytes, Address, Instruction}
use token_22_cts.Error.{invalid, record_write_does_not_fit}
use token_22_cts.Cluster.{Cluster, Flow, pure, fail, ◌>>◌}
use token_22_cts.Proofs.Interface.{ProofInterface}
use token_22_cts.Proofs.Chunk.{largest_chunk}

-- The closure `write`.
abbrev pub write : ProofInterface → Address → Address → ℕ → Bytes → Instruction
write P payer account offset chunk = P.record_write account payer offset chunk

module _ {W : Type 0} (P : ProofInterface) (C : Cluster W) (payer account : Address)
    (bytes : Bytes) where
  -- `while offset < bytes.len()`: sends the full chunks and returns the last one unsent. Each round
  -- writes at least one byte, so `length bytes` rounds are enough.
  unfoldable pub fill : ℕ → ℕ → Flow W (Option Instruction)
  unfolding largest_chunk
  fill zero offset = pure none
  fill (suc fuel) offset = elim (ltb offset (length bytes)) [
    | false ↦ pure none
    | true ↦
        let rest = drop offset bytes in
        let len =
          largest_chunk P.wire payer rest (λ chunk. write P payer account offset chunk ∷ []) in
        elim (len == 0) [
          | true ↦ fail (invalid record_write_does_not_fit)
          | false ↦ elim (len == length rest) [
            | true ↦ pure (some (write P payer account offset rest))
            | false ↦
                C.send (write P payer account offset (take len rest) ∷ []) []
                >> fill fuel (offset + len)
          ]
        ]
  ]
