-- ===== src/Tests/Spent.antt =====
-- The theorems on using and closing proof accounts, run on the proof that Staged stages.
use token_22_cts.Prelude.{Option, none, ◌≢◌, ◌≡◌, refl, true, false, some, List, [], ◌∷◌, ap, subst}
use token_22_cts.Solana.{Keypair, Instruction}
use token_22_cts.Error.{ok, panicked}
use token_22_cts.Cluster.{transaction_size, fits_in_one_transaction, with_compute_unit_limit}
use token_22_cts.Cluster.Recorded.{Log, recorded}
use token_22_cts.Random.{recorded_random}
use token_22_cts.Proofs.Interface.{verify_batched_range_proof_u64}
use token_22_cts.Proofs.Units.{compute_units, sum_u32}
use token_22_cts.Proofs.Chunk.{search_chunk, largest_chunk}
use token_22_cts.Proofs.Record.{fill}
use token_22_cts.Proofs.{ProofAccounts, no_accounts, create_context_account, stage_from_record}
use token_22_cts.Proofs.Close.{budgeted, overflows, send_batch, pack, pending, close}
use token_22_cts.Proofs.Packing.{Packs, to_close, close-Packs}
use token_22_cts.Proofs.Consume.{
  opening, opening_units, tails, closing, closing_units, build, send_tails, send_built, consume,
}
use token_22_cts.Proofs.Spending.{Spends, consume-Spends}
use token_22_cts.Proofs.Trail.{started, Tracked}
use token_22_cts.Proofs.Tracking.{stage_from_record-Tracked}
use token_22_cts.Cluster.Ledger.{run}
use token_22_cts.Proofs.Ending.{Ends, consume-Ends}
use token_22_cts.Tests.Staged.{plain, proofs, random, proof, staged_world, log_start, staging}
use token_22_cts.Tests.Sample.{Chain, at, key}
use token_22_cts.Tests.Toy.{cluster, receipt, execute, landed_or_not}

-- Three accounts to close, of which two fit in a packet.
abbrev three : ProofAccounts
three = record { contexts = at 70 ∷ at 71 ∷ []; records = at 80 ∷ []; staged = [] }

abbrev closed : Chain × Log
unfolding close
closed = (close proofs (recorded cluster) three log_start).1

closing_three : close proofs (recorded cluster) three log_start ≡ (ok tt, closed)
unfolding close pack pending overflows budgeted send_batch sum_u32 compute_units
    fits_in_one_transaction transaction_size with_compute_unit_limit
closing_three = refl

close-Packs_example : Packs proofs (at 9) (to_close proofs (at 9) three) [] closed.1
close-Packs_example = close-Packs proofs cluster three log_start closed closing_three

-- The staged proof is used: its tail does not fit next to the closings, and is written before.
abbrev used : Chain × Log
unfolding consume
used =
    (consume proofs (recorded cluster) staged_world.1 (plain [] ∷ []) (key 40 ∷ []) 20_000
      staged_world.0).1

using :
    consume proofs
      (recorded cluster)
      staged_world.1
      (plain [] ∷ [])
      (key 40 ∷ [])
      20_000
      staged_world.0
    ≡ (ok receipt, used)
unfolding consume build opening opening_units tails closing closing_units send_tails send_built
    sum_u32 compute_units fits_in_one_transaction transaction_size with_compute_unit_limit
    stage_from_record fill largest_chunk search_chunk create_context_account
using = refl

consume-Spends_example :
    Spends proofs cluster
      (at 9)
      staged_world.1
      (plain [] ∷ [])
      (key 40 ∷ [])
      20_000
      staged_world.0.1
      used.1
consume-Spends_example =
    consume-Spends proofs cluster staged_world.1 (plain [] ∷ []) (key 40 ∷ []) 20_000 staged_world.0
      used receipt using

-- A thaw of an account that is not there.
abbrev refused : Instruction
refused = record {
  program_id = at 0;
  accounts = record { pubkey = at 5; is_signer = false; is_writable = true } ∷ [];
  instruction_data = 1 ∷ [];
}

staged-Tracked : Tracked proofs [] staged_world
staged-Tracked = subst (Tracked proofs []) (ap (λ r. r.1) staging) (
    stage_from_record-Tracked proofs [] cluster random verify_batched_range_proof_u64 proof
      log_start no_accounts (started, tt))

-- The cluster refuses the transaction that uses the staged proof.
consume-Ends_example :
    Ends proofs [] cluster
      (at 9)
      staged_world.1
      (refused ∷ [])
      (key 40 ∷ [])
      20_000
      staged_world.0.1
      (consume proofs
        (recorded cluster)
        staged_world.1
        (refused ∷ [])
        (key 40 ∷ [])
        20_000
        staged_world.0)
unfolding stage_from_record
consume-Ends_example =
    consume-Ends proofs [] cluster staged_world.1 (refused ∷ []) (key 40 ∷ []) 20_000 staged_world.0
      staged-Tracked

stage_from_record-Tracked_example : Tracked proofs [] (
    (stage_from_record proofs
      (recorded cluster)
      (recorded_random random)
      verify_batched_range_proof_u64
      proof
      (log_start, no_accounts)).1)
stage_from_record-Tracked_example =
    stage_from_record-Tracked proofs [] cluster random verify_batched_range_proof_u64 proof
      log_start no_accounts (started, tt)

pub never_panics :
    (is : List Instruction) (signers : List Keypair) (w : Chain)
    → (cluster.send is signers w).0 ≢ panicked
never_panics is signers w = settled (run execute is w)
  where
    settled : (o : Option Chain) → (landed_or_not w o).0 ≢ panicked
    settled none = λ p. cc
    settled (some w') = λ p. cc
