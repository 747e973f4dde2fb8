-- ===== src/Tests/Settled.antt =====
-- The theorems on how confidential debits end, on their budgets and on their auditor, run with the
-- cipher of Hidden.
use token_22_cts.Prelude.{◌<◌, ◌≢◌, ◌+◌, ◌≡◌, true, ap, subst, refl, false, some, [], ◌∷◌, arith}
use token_22_cts.Error.{ok}
use token_22_cts.Cluster.{transaction_size, fits_in_one_transaction, with_compute_unit_limit}
use token_22_cts.Cluster.Recorded.{Log, recorded}
use token_22_cts.Random.{recorded_random}
use token_22_cts.Proofs.Interface.{verify_ciphertext_commitment_equality}
use token_22_cts.Proofs.Units.{compute_units}
use token_22_cts.Proofs.Chunk.{search_chunk, largest_chunk}
use token_22_cts.Proofs.Record.{fill}
use token_22_cts.Proofs.{create_context_account, verify, stage_from_record}
use token_22_cts.Proofs.Consume.{build, without_tails, consume}
use token_22_cts.Confidential.Interface.{recorded_confidential}
use token_22_cts.Confidential.{elgamal_ciphertext, decrypt_u32}
use token_22_cts.Confidential.Transfer.{prepare_transfer, transfer, transfer_with_fee_units}
use token_22_cts.Confidential.Withdraw.{withdraw, withdraw_units}
use token_22_cts.Confidential.Settling.{Settles}
use token_22_cts.Confidential.Closing.{Debits, transfer-Settles}
use token_22_cts.Confidential.Withdrawing.{Takes, withdraw-Settles}
use token_22_cts.Tests.Sample.{Chain, at, key, coin_at, toy, start}
use token_22_cts.Tests.Toy.{cluster, shot}
use token_22_cts.Tests.Programs.{coin_shot}
use token_22_cts.Tests.Staged.{plain, random}
use token_22_cts.Solana.{u64_mod}
use token_22_cts.Error.{panicked}
use token_22_cts.Cluster.Inversion.{ok-injective}
use token_22_cts.Random.{ElGamalKeypair}
use token_22_cts.Proofs.{ProofAccounts, no_accounts}
use token_22_cts.Proofs.Budget.{Within}
use token_22_cts.Confidential.Budgeting.{transfer-budget}
use token_22_cts.Confidential.Interface.{TransferProof}
use token_22_cts.Confidential.Transfer.{audit}
use token_22_cts.Confidential.Audit.{Encrypts, Auditable, transfer-audit}
use token_22_cts.Token22.{ConfidentialTransferMint}
use token_22_cts.Tests.Spent.{never_panics}
use token_22_cts.Tests.Hidden.{
  small, cipher, keys, wide, log_start, hidden_transfer, after_hidden, hidden_transferred,
  second_loads, mint_loads,
}

transfer-Settles_example :
    Settles wide cluster
      (Debits toy wide cipher cluster random (at 2) (at 3) (key 40) keys 90 log_start)
      (key 40 ∷ [])
      transfer_with_fee_units
      []
      (transfer toy wide
        (recorded_confidential cipher)
        (recorded cluster)
        (recorded_random random)
        (at 2)
        (at 3)
        (key 40)
        keys
        90
        log_start)
transfer-Settles_example =
    transfer-Settles toy wide cipher cluster random (at 2) (at 3) (key 40) keys 90 log_start

withdraw-Settles_example :
    Settles wide cluster
      (Takes toy wide cipher cluster random (at 2) (key 40) keys 90 log_start)
      (key 40 ∷ [])
      (withdraw_units + compute_units verify_ciphertext_commitment_equality)
      []
      (withdraw toy wide
        (recorded_confidential cipher)
        (recorded cluster)
        (recorded_random random)
        (at 2)
        (key 40)
        keys
        90
        log_start)
withdraw-Settles_example =
    withdraw-Settles toy wide cipher cluster random (at 2) (key 40) keys 90 log_start

abbrev drawn : TransferProof
drawn = record {
  equality_proof_data = small;
  amount_validity_proof_data = small;
  ciphertext_lo = 90 ∷ [];
  ciphertext_hi = 0 ∷ [];
  percentage_with_cap_proof_data = small;
  fee_validity_proof_data = small;
  range_proof_data = small;
}

abbrev prepared : (Chain × Log) × ProofAccounts
unfolding prepare_transfer
prepared =
    (prepare_transfer toy wide (recorded_confidential cipher) (recorded cluster)
      (recorded_random random) (at 2) coin_at (at 3) (at 40) (10 ∷ []) drawn
      (log_start, no_accounts)).1

preparing :
    prepare_transfer toy wide
      (recorded_confidential cipher)
      (recorded cluster)
      (recorded_random random)
      (at 2)
      coin_at
      (at 3)
      (at 40)
      (10 ∷ [])
      drawn
      (log_start, no_accounts)
    ≡ (ok (plain [] ∷ []), prepared)
unfolding prepare_transfer verify stage_from_record fill largest_chunk search_chunk
    create_context_account compute_units fits_in_one_transaction transaction_size
    with_compute_unit_limit
preparing = refl

transfer-budget_example :
    Within wide 473_500 (build wide (at 9) (plain [] ∷ []) transfer_with_fee_units prepared.1 true)
    × Within wide 473_500 (
        build wide
          (at 9)
          (plain [] ∷ [])
          transfer_with_fee_units
          (record prepared.1 { staged = without_tails prepared.1.staged })
          false)
    × ((consume wide
          (recorded cluster)
          prepared.1
          (plain [] ∷ [])
          (key 40 ∷ [])
          transfer_with_fee_units
          prepared.0).0
        ≢ panicked)
transfer-budget_example =
    transfer-budget toy wide cipher cluster random never_panics log_start prepared.0 prepared.1
      (plain [] ∷ []) (key 40 ∷ []) (at 2) coin_at (at 3) (at 40) (10 ∷ []) drawn preparing

abbrev auditor : ElGamalKeypair
auditor = record { pubkey = at 54; secret = at 55 }

encrypts : Auditable cipher auditor
unfolding decrypt_u32 elgamal_ciphertext
encrypts ciphertext decryptable n elgamal ae destination withheld points maximum w u proof h =
    subst (Encrypts cipher auditor.secret n) (ok-injective (ap (λ r. r.0) h)) (refl, refl)

abbrev named : ConfidentialTransferMint
named = record { auditor_elgamal_pubkey = some (at 54) }

ninety : 90 < u64_mod
ninety = omega arith

transfer-audit_example : audit cipher hidden_transfer auditor ≡ ok 90
transfer-audit_example =
    transfer-audit toy wide cipher cluster random (at 2) (at 3) (key 40) keys 90 start auditor
      (shot (at 2) 5_000 false) coin_shot named (at 54) hidden_transfer after_hidden encrypts ninety
      second_loads mint_loads refl refl refl hidden_transferred
