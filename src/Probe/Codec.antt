-- ===== src/Probe/Codec.antt =====
-- programs/cpi-guard-probe/src/lib.rs: the wire format of the probe's instructions.
use token_22_cts.Prelude.{ℕ, ◌≡◌, ◌<◌, length-to_le_bytes, from_le_bytes-to_le_bytes}
use token_22_cts.Solana.{u64_mod}
use token_22_cts.Error.{ok}
use token_22_cts.Probe.{ProbeInstruction, forward_owner_transfer, forward_approve, pack, unpack}

abbrev pub amount_of : ProbeInstruction → ℕ
amount_of (forward_owner_transfer amount) = amount
amount_of (forward_approve amount) = amount

-- Either instruction whose amount is a `u64` is read back from its packed form.
pub unpack-pack_probe : (i : ProbeInstruction) → amount_of i < u64_mod → unpack (pack i) ≡ ok i
unfolding unpack pack
unpack-pack_probe (forward_owner_transfer amount) h =
    rw (length-to_le_bytes 8 amount, from_le_bytes-to_le_bytes 8 amount h)
unpack-pack_probe (forward_approve amount) h =
    rw (length-to_le_bytes 8 amount, from_le_bytes-to_le_bytes 8 amount h)
