-- ===== src/Tests/Flows.antt =====
-- The theorems on transfers, fees, the KYC desk and seizure, run on the sample chain.
use token_22_cts.Prelude.{ℕ, ◌≡◌, ◌≢◌, ◌↔◌, refl, Option, some, [], ◌∷◌, bytes_eq}
use token_22_cts.Error.{Error, ok, transaction, token_error}
use token_22_cts.Solana.{instruction_error, InstructionError}
use token_22_cts.Cluster.Recorded.{Log, recorded}
use token_22_cts.State.{
  fetch, decode_account, decode_mint, decode_default_state, load_account, load_mint,
  require_transfer_fee,
}
use token_22_cts.Error.Codes.{FailedWith, token_error_iff}
use token_22_cts.Transfer.{FeeTransfer, expected_fee, transfer_with_fee, collect_fees}
use token_22_cts.Transfer.Flows.{
  SendsTransfer, CollectsOrNot, transfer_with_fee-sends, collect_fees-CollectsOrNot,
}
use token_22_cts.Kyc.{ExtensionType-discrete, contains, approve_kyc, revoke_kyc}
use token_22_cts.Kyc.Desk.{revoke_kyc-approve_kyc}
use token_22_cts.Kyc.Gate.{Approves, Revokes, approve_kyc-gate, revoke_kyc-gate}
use token_22_cts.Compliance.{seize, send_refreezing}
use token_22_cts.Compliance.Seizure.{Seized, seize-Seized}
use token_22_cts.Compliance.Bundle.{SendsSeizure, seize-sends}
use token_22_cts.Tests.Sample.{Chain, at, key, coin_at, toy, start}
use token_22_cts.Tests.Toy.{cluster, ledger}

abbrev quoted : FeeTransfer
quoted = record { amount = 4_000; fee = 40; epoch = 4 }

-- A transfer from the second account to the third.
abbrev after_transfer : Chain
unfolding transfer_with_fee
after_transfer = (transfer_with_fee toy cluster (at 2) (at 3) (key 40) 4_000 start).1

transferred :
    transfer_with_fee toy cluster (at 2) (at 3) (key 40) 4_000 start ≡ (ok quoted, after_transfer)
unfolding transfer_with_fee load_account load_mint fetch decode_account decode_mint
    decode_default_state expected_fee require_transfer_fee bytes_eq
transferred = refl

abbrev log_start : Chain × Log
log_start = (start, [])

transfer_with_fee-sends_example :
    SendsTransfer toy cluster log_start
      (at 2)
      (at 3)
      (key 40)
      4_000
      (transfer_with_fee toy (recorded cluster) (at 2) (at 3) (key 40) 4_000 log_start)
transfer_with_fee-sends_example =
    transfer_with_fee-sends toy cluster log_start (at 2) (at 3) (key 40) 4_000

collect_fees-CollectsOrNot_example :
    CollectsOrNot toy cluster log_start coin_at
      (at 2 ∷ [])
      (at 3)
      (key 41)
      (collect_fees toy (recorded cluster) coin_at (at 2 ∷ []) (at 3) (key 41) log_start)
collect_fees-CollectsOrNot_example =
    collect_fees-CollectsOrNot toy cluster log_start coin_at (at 2 ∷ []) (at 3) (key 41)

-- The desk approves the first account, and then revokes it again.
abbrev after_approval : Chain
unfolding approve_kyc
after_approval = (approve_kyc toy cluster (at 1) (key 21) start).1

approved : approve_kyc toy cluster (at 1) (key 21) start ≡ (ok tt, after_approval)
unfolding approve_kyc contains load_account fetch decode_account bytes_eq ExtensionType-discrete
approved = refl

abbrev after_revocation : Chain
unfolding revoke_kyc
after_revocation = (revoke_kyc toy cluster (at 1) (key 21) after_approval).1

revoked : revoke_kyc toy cluster (at 1) (key 21) after_approval ≡ (ok tt, after_revocation)
unfolding revoke_kyc approve_kyc contains load_account fetch decode_account bytes_eq
    ExtensionType-discrete
revoked = refl

revoke_kyc-approve_kyc_example :
    load_account toy cluster (at 1) after_revocation ≡ load_account toy cluster (at 1) start
revoke_kyc-approve_kyc_example =
    revoke_kyc-approve_kyc ledger (at 1) (key 21) start after_approval after_revocation approved
      revoked

approve_kyc-gate_example :
    Approves toy cluster
      (at 1)
      (key 21)
      log_start
      (approve_kyc toy (recorded cluster) (at 1) (key 21) log_start)
approve_kyc-gate_example = approve_kyc-gate toy cluster (at 1) (key 21) log_start

revoke_kyc-gate_example :
    Revokes toy cluster
      (at 2)
      (key 21)
      log_start
      (revoke_kyc toy (recorded cluster) (at 2) (key 21) log_start)
revoke_kyc-gate_example = revoke_kyc-gate toy cluster (at 2) (key 21) log_start

-- A seizure of 4,000 from the frozen account.
abbrev after_seizure : Chain
unfolding seize
after_seizure = (seize toy cluster (at 1) (at 3) (key 21) (key 22) 4_000 start).1

seized : seize toy cluster (at 1) (at 3) (key 21) (key 22) 4_000 start ≡ (ok quoted, after_seizure)
unfolding seize send_refreezing load_account load_mint fetch decode_account decode_mint
    decode_default_state expected_fee require_transfer_fee bytes_eq
seized = refl

apart : at 1 ≢ at 3
apart h = cc

seize-Seized_example : Seized toy cluster (at 1) 4_000 start after_seizure
seize-Seized_example =
    seize-Seized ledger (at 1) (at 3) (key 21) (key 22) 4_000 start after_seizure quoted apart
      seized

seize-sends_example :
    SendsSeizure toy cluster
      (at 1)
      (at 3)
      (key 21)
      (key 22)
      4_000
      log_start
      (seize toy (recorded cluster) (at 1) (at 3) (key 21) (key 22) 4_000 log_start)
seize-sends_example = seize-sends toy cluster (at 1) (at 3) (key 21) (key 22) 4_000 log_start

-- A transaction that failed in its second instruction with the custom code 17.
abbrev failed : Error
failed = transaction (instruction_error 1 (InstructionError.custom 17)) []

abbrev from_u32 : ℕ → Option ℕ
from_u32 n = some n

token_error_iff_example : (token_error from_u32 failed ≡ some 17) ↔ FailedWith from_u32 17 failed
token_error_iff_example = token_error_iff from_u32 failed 17
