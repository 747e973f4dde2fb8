-- ===== src/Tests/Staged.antt =====
-- The theorems on proof accounts, run on packets that hold two bytes of instruction data.
use token_22_cts.Prelude.{
  ℕ, leb, suc, ◌+◌, ◌*◌, ◌≤◌, ◌≡◌, refl, true, some, List, [], ◌∷◌, length, length-take, arith,
}
use token_22_cts.Solana.{Bytes, Instruction}
use token_22_cts.Error.{ok}
use token_22_cts.Cluster.{Cluster, Wire, transaction_size, fits_in_one_transaction}
use token_22_cts.Cluster.Recorded.{Log, recorded}
use token_22_cts.Random.{Random, recorded_random}
use token_22_cts.Proofs.Interface.{ProofInterface, Proof, verify_batched_range_proof_u64}
use token_22_cts.Proofs.Units.{compute_units}
use token_22_cts.Proofs.Chunk.{
  prefix_fits, search_chunk, largest_chunk, Largest, largest_chunk-Largest,
}
use token_22_cts.Proofs.Record.{fill}
use token_22_cts.Proofs.{ProofAccounts, no_accounts, create_context_account, stage_from_record}
use token_22_cts.Proofs.Rounds.{EndsWithin, search_chunk-EndsWithin, fill-rounds}
use token_22_cts.Proofs.Staging.{Stages, stage_from_record-Stages}
use token_22_cts.Tests.Sample.{Chain, at, key, start}
use token_22_cts.Tests.Toy.{cluster, receipt}

abbrev data_len : List Instruction → ℕ
data_len [] = 0
data_len (i ∷ is) = length i.instruction_data + data_len is

abbrev pub plain : Bytes → Instruction
plain bytes = record { program_id = at 90; accounts = []; instruction_data = bytes }

abbrev pub wire : Wire
wire = record {
  num_required_signatures = λ is payer. 1;
  message_len = λ is payer. 400 * data_len is;
  set_compute_unit_limit = λ units. plain [];
}

-- Only writes and closings carry data.
abbrev pub proofs : ProofInterface
proofs = record {
  wire = wire;
  proof_program = at 91;
  record_program = at 92;
  writable_start_index = 33;
  create_account = λ payer account lamports space owner. plain [];
  encode_verify_proof = λ instruction info proof. plain [];
  encode_verify_proof_from_account = λ instruction info account offset. plain [];
  close_context_state = λ info destination. plain (0 ∷ []);
  record_initialize = λ account authority. plain [];
  record_write = λ account authority offset chunk. plain chunk;
  record_close_account = λ account authority destination. plain (0 ∷ []);
}

abbrev pub random : Random Chain
random = record {
  new_keypair = λ w. (key (80 + w.drawn), record w { drawn = suc w.drawn });
  new_elgamal = λ w. (
    record { pubkey = at (80 + w.drawn); secret = at w.drawn },
    record w { drawn = suc w.drawn },
  );
}

abbrev pub five : Bytes
five = 5 ∷ 6 ∷ 7 ∷ 8 ∷ 9 ∷ []

abbrev pub log_start : Chain × Log
log_start = (start, [])

abbrev one_write : Bytes → List Instruction
one_write chunk = plain chunk ∷ []

monotone :
    (m n : ℕ)
    → m ≤ n
    → prefix_fits wire (at 9) five one_write n ≡ true
    → prefix_fits wire (at 9) five one_write m ≡ true
unfolding fits_in_one_transaction transaction_size
monotone m n le h = ground (arith, length-take m five, length-take n five)

largest_chunk-Largest_example :
    Largest wire (at 9) five one_write (largest_chunk wire (at 9) five one_write)
largest_chunk-Largest_example = largest_chunk-Largest wire (at 9) five one_write monotone

abbrev filled : Chain × Log
unfolding fill
filled = (fill proofs (recorded cluster) (at 9) (at 80) five 5 2 log_start).1

filling :
    fill proofs (recorded cluster) (at 9) (at 80) five 5 2 log_start
    ≡ (ok (some (plain (9 ∷ []))), filled)
unfolding fill largest_chunk search_chunk fits_in_one_transaction transaction_size
filling = refl

abbrev pub proof : Proof
proof = record { bytes = five; context_len = 64 }

abbrev pub staged_world : (Chain × Log) × ProofAccounts
unfolding stage_from_record
staged_world =
    (stage_from_record proofs (recorded cluster) (recorded_random random)
      verify_batched_range_proof_u64 proof (log_start, no_accounts)).1

pub staging :
    stage_from_record proofs
      (recorded cluster)
      (recorded_random random)
      verify_batched_range_proof_u64
      proof
      (log_start, no_accounts)
    ≡ (ok (at 81), staged_world)
unfolding stage_from_record fill largest_chunk search_chunk fits_in_one_transaction transaction_size
    create_context_account compute_units
staging = refl

stage_from_record-Stages_example :
    Stages proofs cluster random verify_batched_range_proof_u64 proof log_start no_accounts
      (at 81)
      staged_world.0
      staged_world.1
stage_from_record-Stages_example =
    stage_from_record-Stages proofs cluster random verify_batched_range_proof_u64 proof log_start
      no_accounts (at 81) staged_world.0 staged_world.1 staging

-- A cluster that accepts every transaction.
abbrev accepting : Cluster Chain
accepting = record cluster { send = λ is keys w. (ok receipt, w) }

-- Three rounds are enough for five bytes.
search_chunk-EndsWithin_example :
    EndsWithin (λ n. leb n 3) 3 0 5 (search_chunk (λ n. leb n 3) 10 0 5)
search_chunk-EndsWithin_example =
    search_chunk-EndsWithin (λ n. leb n 3) 3 10 0 5 (omega arith) (omega arith)

fill-rounds_example :
    fill proofs cluster (at 9) (at 80) five 3 2 start
    ≡ fill proofs cluster (at 9) (at 80) five 8 2 start
fill-rounds_example =
    fill-rounds proofs cluster (at 9) (at 80) five 3 8 2 start (omega arith) (omega arith)
