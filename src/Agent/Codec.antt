-- ===== src/Agent/Codec.antt =====
-- programs/remit-agent/src/lib.rs: the wire format of the agent's instruction.
use token_22_cts.Prelude.{
  ℕ, ◌≡◌, ◌<◌, [], ◌∷◌, length, All, IsByte, from_le_bytes, length-to_le_bytes,
  from_le_bytes-to_le_bytes, to_le_bytes-from_le_bytes, arith,
}
use token_22_cts.Solana.{Bytes, u64_mod}
use token_22_cts.Error.{ok}
use token_22_cts.Agent.{AgentInstruction, execute_mandate, amount_of, pack, unpack}

-- Every instruction whose amount is a `u64` is read back from its packed form.
pub unpack-pack : (i : AgentInstruction) → amount_of i < u64_mod → unpack (pack i) ≡ ok i
unfolding unpack pack
unpack-pack (execute_mandate amount) h =
    rw (length-to_le_bytes 8 amount, from_le_bytes-to_le_bytes 8 amount h)

unpack-parts :
    (tag : ℕ) (rest : Bytes) (amount : ℕ)
    → unpack (tag ∷ rest) ≡ ok (execute_mandate amount)
    → (tag ≡ 0) × (length rest ≡ 8) × (from_le_bytes rest ≡ amount)
unfolding unpack
unpack-parts tag rest amount e = ground arith

-- Bytes that unpack are the packed form of what they unpack to: no other encoding is accepted.
pub pack-unpack :
    (bytes : Bytes) (i : AgentInstruction) → All IsByte bytes → unpack bytes ≡ ok i → pack i ≡ bytes
unfolding unpack pack
pack-unpack [] i h e = cc
pack-unpack (tag ∷ rest) (execute_mandate amount) (ht, hr) e =
    let (zeroed, eight, read) = unpack-parts tag rest amount e in
    ground (arith, rw (eight, read) at (to_le_bytes-from_le_bytes rest hr))
