-- ===== src/Tests/Hidden.antt =====
-- The theorems on confidential balances and debits, run with a cipher that hides nothing.
use token_22_cts.Prelude.{◌%◌, ◌/◌, ◌≡◌, ◌↔◌, refl, false, some, none, [], ◌∷◌, bytes_eq}
use token_22_cts.Error.{ok}
use token_22_cts.Cluster.{transaction_size, fits_in_one_transaction, with_compute_unit_limit}
use token_22_cts.Cluster.Recorded.{Log, recorded}
use token_22_cts.State.{
  fetch, decode_account, decode_mint, decode_default_state, load_account, load_mint,
  require_transfer_fee, require_confidential,
}
use token_22_cts.Transfer.{expected_fee, sub_u64}
use token_22_cts.Proofs.Interface.{Proof, ProofInterface}
use token_22_cts.Proofs.Units.{compute_units, sum_u32}
use token_22_cts.Proofs.Chunk.{search_chunk, largest_chunk}
use token_22_cts.Proofs.Record.{fill}
use token_22_cts.Proofs.{create_context_account, verify, stage_from_record}
use token_22_cts.Proofs.Consume.{
  opening, opening_units, closing, closing_units, build, send_built, consume,
}
use token_22_cts.Confidential.Interface.{ConfidentialInterface, recorded_confidential}
use token_22_cts.Confidential.{
  ConfidentialKeys, elgamal_ciphertext, decrypt_u32, decrypt_lo_hi, available_balance,
  pending_balance,
}
use token_22_cts.Confidential.Balances.{Recombines, decrypt_lo_hi_iff}
use token_22_cts.Confidential.Lifecycle.{add_u64, apply_pending_balance}
use token_22_cts.Confidential.Debit.{auditor_key, transfer_inputs, finish, run_prepared}
use token_22_cts.Confidential.Transfer.{ConfidentialTransfer, prepare_transfer, transfer}
use token_22_cts.Confidential.Guards.{
  Covered, Applies, transfer-Covered, apply_pending_balance-Applies,
}
use token_22_cts.Tests.Sample.{Chain, at, key, coin_at, toy, start}
use token_22_cts.Tests.Toy.{cluster, shot}
use token_22_cts.Tests.Programs.{coin_shot}
use token_22_cts.Tests.Staged.{plain, proofs, random}

abbrev pub small : Proof
small = record { bytes = 5 ∷ []; context_len = 64 }

-- A ciphertext is its plaintext.
abbrev pub cipher : ConfidentialInterface Chain
cipher = record {
  transfer_amount_lo_bits = 16;
  derive_confidential_keys = λ owner account. ok (record { pubkey = at 50; secret = at 52 }, at 53);
  elgamal_ciphertext_try_from = λ pod. some pod;
  elgamal_pubkey_try_from = λ pod. some pod;
  ae_ciphertext_try_from = λ pod. some pod;
  elgamal_decrypt_u32 = λ secret c. elim c [ [] ↦ none | n ∷ rest ↦ some n ];
  ae_decrypt = λ k c. elim c [ [] ↦ none | n ∷ rest ↦ some n ];
  ae_encrypt = λ k n w. (n ∷ [], w);
  build_pubkey_validity_proof_data = λ keys w. (ok small, w);
  transfer_with_fee_split_proof_data =
      λ ciphertext decryptable amount elgamal ae destination auditor withheld points maximum w. (
        ok (record {
          equality_proof_data = small;
          amount_validity_proof_data = small;
          ciphertext_lo = (amount % 65_536) ∷ [];
          ciphertext_hi = (amount / 65_536) ∷ [];
          percentage_with_cap_proof_data = small;
          fee_validity_proof_data = small;
          range_proof_data = small;
        }),
        w,
      );
  withdraw_proof_data = λ ciphertext balance amount elgamal w.
      (ok (record { equality_proof_data = small; range_proof_data = small }), w);
  configure_account =
      λ id account mint zero_balance maximum authority signers location. ok (plain [] ∷ []);
  approve_account = λ id account mint authority signers. ok (plain []);
  deposit = λ id account mint amount decimals authority signers. ok (plain []);
  apply_pending_balance =
      λ id account counter balance authority signers. ok (plain (counter ∷ balance));
  transfer_with_fee =
      λ id source mint destination balance lo hi owner signers p1 p2 p3 p4 p5. ok (plain [] ∷ []);
  withdraw = λ id account mint amount decimals balance owner signers p1 p2. ok (plain [] ∷ []);
}

abbrev pub keys : ConfidentialKeys
keys = record { elgamal = record { pubkey = at 50; secret = at 52 }; ae = at 53 }

-- Packets that hold anything.
abbrev pub wide : ProofInterface
wide = record proofs {
  wire = record {
    num_required_signatures = λ is payer. 1;
    message_len = λ is payer. 0;
    set_compute_unit_limit = λ units. plain [];
  };
}

decrypt_lo_hi_iff_example :
    (decrypt_lo_hi cipher (at 52) (at 30) (at 2) ≡ ok 131_102)
    ↔ Recombines cipher (at 52) (at 30) (at 2) 131_102
decrypt_lo_hi_iff_example = decrypt_lo_hi_iff cipher (at 52) (at 30) (at 2) 131_102

pub second_loads : load_account toy cluster (at 2) start ≡ ok (shot (at 2) 5_000 false)
unfolding load_account fetch decode_account bytes_eq
second_loads = refl

third_loads : load_account toy cluster (at 3) start ≡ ok (shot (at 3) 0 false)
unfolding load_account fetch decode_account bytes_eq
third_loads = refl

pub mint_loads : load_mint toy cluster coin_at start ≡ ok coin_shot
unfolding load_mint fetch decode_mint decode_default_state bytes_eq
mint_loads = refl

hundred : available_balance cipher (shot (at 2) 5_000 false) keys ≡ ok 100
unfolding available_balance require_confidential
hundred = refl

abbrev pub hidden_transfer : ConfidentialTransfer
hidden_transfer = record {
  amount = 90;
  fee = 0;
  epoch = 4;
  auditor_ciphertext_lo = 90 ∷ [];
  auditor_ciphertext_hi = 0 ∷ [];
}

abbrev pub after_hidden : Chain
unfolding transfer
after_hidden = (transfer toy wide cipher cluster random (at 2) (at 3) (key 40) keys 90 start).1

pub hidden_transferred :
    transfer toy wide cipher cluster random (at 2) (at 3) (key 40) keys 90 start
    ≡ (ok hidden_transfer, after_hidden)
unfolding transfer transfer_inputs load_account load_mint fetch decode_account decode_mint
    decode_default_state require_confidential require_transfer_fee expected_fee available_balance
    auditor_key elgamal_ciphertext sub_u64 run_prepared finish prepare_transfer verify
    stage_from_record fill largest_chunk search_chunk create_context_account compute_units consume
    build opening opening_units closing closing_units send_built sum_u32 fits_in_one_transaction
    transaction_size with_compute_unit_limit bytes_eq
hidden_transferred = refl

transfer-Covered_example :
    Covered toy wide cipher cluster random (at 2) (at 3) (key 40) keys 90 start hidden_transfer
transfer-Covered_example =
    transfer-Covered toy wide cipher cluster random (at 2) (at 3) (key 40) keys 90 start
      hidden_transfer after_hidden hidden_transferred

abbrev pub log_start : Chain × Log
log_start = (start, [])

abbrev after_applying : Chain × Log
unfolding apply_pending_balance
after_applying =
    (apply_pending_balance toy (recorded_confidential cipher) (recorded cluster) (at 2) (key 40)
      keys log_start).1

applied :
    apply_pending_balance toy
      (recorded_confidential cipher)
      (recorded cluster)
      (at 2)
      (key 40)
      keys
      log_start
    ≡ (ok 131_202, after_applying)
unfolding apply_pending_balance load_account fetch decode_account available_balance pending_balance
    decrypt_lo_hi decrypt_u32 elgamal_ciphertext require_confidential add_u64 bytes_eq
applied = refl

apply_pending_balance-Applies_example :
    Applies toy cipher cluster (at 2) (key 40) keys log_start 131_202 after_applying
apply_pending_balance-Applies_example =
    apply_pending_balance-Applies toy cipher cluster (at 2) (key 40) keys log_start 131_202
      after_applying applied
