-- ===== src/Tests/Bound.antt =====
-- What a mandate binds, run with a derivation without collisions: an address is its preimage.
use mathlib.Core.List.{flatten}
use token_22_cts.Prelude.{
  ℕ, zero, suc, ◌≡◌, refl, ap, true, List, [], ◌∷◌, ◌++◌, bytes_eq, from_le_bytes, to_le_bytes,
}
use token_22_cts.Solana.{Bytes}
use token_22_cts.Error.{ok}
use token_22_cts.Cluster.Recorded.{is_ok}
use token_22_cts.Program.{AccountInfo, Runtime, FiveAccounts, next_five}
use token_22_cts.Agent.{
  agent_id, mandate_seeds, unpack, prepare, pay, read_mint, epoch_fee, process_instruction,
}
use token_22_cts.Agent.Binding.{mandate-binds}
use token_22_cts.Tests.Sample.{toy}
use token_22_cts.Tests.Programs.{runtime, info, packed, packed-All}

abbrev repeated : ℕ → ℕ → Bytes
repeated zero b = []
repeated (suc n) b = b ∷ repeated n b

abbrev bound_runtime : Runtime ℕ
bound_runtime = record runtime { find_program_address = λ seeds id. (flatten seeds, 250) }

collision_free :
    (seeds seeds' : List Bytes)
    → (bound_runtime.find_program_address seeds agent_id).0
      ≡ (bound_runtime.find_program_address seeds' agent_id).0
    → flatten seeds ++ ((bound_runtime.find_program_address seeds agent_id).1 ∷ [])
      ≡ flatten seeds' ++ ((bound_runtime.find_program_address seeds' agent_id).1 ∷ [])
collision_free seeds seeds' h = ap (λ (b : Bytes). b ++ (250 ∷ [])) h

abbrev accounts : FiveAccounts
unfolding mandate_seeds flatten
accounts = record {
  first = record (info 2) { key = repeated 32 2 };
  second = info 7;
  third = record (info 3) { key = repeated 32 3 };
  fourth = record (info 60) { key = flatten (mandate_seeds (repeated 32 2) (repeated 32 3) 4_000) };
  fifth = info 0;
}

abbrev five : List AccountInfo
five = accounts.first ∷ accounts.second ∷ accounts.third ∷ accounts.fourth ∷ accounts.fifth ∷ []

five_taken : next_five five ≡ ok accounts
unfolding next_five
five_taken = refl

paid : is_ok (process_instruction toy bound_runtime agent_id five packed 0).0 ≡ true
unfolding process_instruction prepare pay unpack next_five read_mint epoch_fee mandate_seeds flatten
    from_le_bytes to_le_bytes bytes_eq
paid = refl

mandate-binds_example :
    (repeated 32 2 ≡ repeated 32 2) × (repeated 32 3 ≡ repeated 32 3) × (packed ≡ packed)
unfolding accounts
mandate-binds_example =
    mandate-binds toy bound_runtime agent_id collision_free five five packed packed 0 0 accounts
      accounts five_taken five_taken refl refl refl refl packed-All packed-All paid paid refl
