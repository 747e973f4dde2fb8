-- ===== src/Agent/Mandate.antt =====
-- programs/remit-agent/src/lib.rs: what the agent calls, for whom, and with which fee.
use token_22_cts.Prelude.{
  ℕ, ◌≡◌, ◌⊎◌, inl, inr, refl, sym, ap, ◌∙◌, false, Option, List, [], ◌∷◌, ◌++◌, bytes_eq,
  bytes_eq-eq,
}
use token_22_cts.Solana.{Bytes, Address, Instruction, ProgramError}
use token_22_cts.Error.{Result, ok}
use token_22_cts.Cluster.Inversion.{test-ok, Result-cases, and_then-ok, ok-injective}
use token_22_cts.Cluster.Recorded.{is_ok}
use token_22_cts.Token22.{Token22, TransferFeeConfig}
use token_22_cts.Program.{AccountInfo, Runtime, Invocation, FiveAccounts, next_five}
use token_22_cts.Agent.{
  AgentInstruction, execute_mandate, amount_of, unpack, mandate_seeds, read_mint, epoch_fee, pay,
  prepare, process_instruction,
}

execute_mandate-amount_of : (i : AgentInstruction) → i ≡ execute_mandate (amount_of i)
execute_mandate-amount_of (execute_mandate amount) = refl

module _ {V : Type 0} (T : Token22) (rt : Runtime V) where
  -- The call that the agent makes, and that it is made for the mandate that the accounts name.
  abbrev pub PaysMandate :
      Address → List AccountInfo → Bytes → V → Result (Unit {0}) ProgramError × V → Type 0
  PaysMandate program_id infos instruction_data v r =
      (a : FiveAccounts) × (amount : ℕ) × (decimals : ℕ) × (config : Option TransferFeeConfig)
      × (fee : ℕ) × (transfer : Instruction) × (next_five infos ≡ ok a)
      × (unpack instruction_data ≡ ok (execute_mandate amount))
      × (a.fifth.key ≡ T.id)
      × (a.fourth.key
          ≡ (rt.find_program_address (mandate_seeds a.first.key a.third.key amount) program_id).0)
      × (read_mint T rt a.second ≡ ok (decimals, config))
      × (epoch_fee T rt config amount v ≡ ok fee)
      × (T.transfer_checked_with_fee T.id a.first.key a.second.key a.third.key a.fourth.key []
            amount decimals fee
          ≡ ok transfer)
      × (r
          ≡ rt.invoke_signed transfer (a.first ∷ a.second ∷ a.third ∷ a.fourth ∷ a.fifth ∷ [])
              ((mandate_seeds a.first.key a.third.key amount
                  ++ (((rt.find_program_address (mandate_seeds a.first.key a.third.key amount)
                          program_id).1
                        ∷ [])
                      ∷ []))
                ∷ [])
              v)

  -- The agent's outcome: it fails and calls nothing, or it makes the call.
  abbrev pub FailsOrPays :
      Address → List AccountInfo → Bytes → V → Result (Unit {0}) ProgramError × V → Type 0
  FailsOrPays program_id infos instruction_data v r =
      ((r.1 ≡ v) × (is_ok r.0 ≡ false)) ⊎ PaysMandate program_id infos instruction_data v r

  pay-ok :
      (a : FiveAccounts) (amount bump : ℕ) (v : V) (i : Invocation)
      → pay T rt a amount bump v ≡ ok i
      → (decimals : ℕ) × (config : Option TransferFeeConfig) × (fee : ℕ) × (read_mint T rt a.second
          ≡ ok (decimals, config))
        × (epoch_fee T rt config amount v ≡ ok fee)
        × (T.transfer_checked_with_fee a.fifth.key a.first.key a.second.key a.third.key a.fourth.key
              [] amount decimals fee
            ≡ ok i.instruction)
        × (i.accounts ≡ a.first ∷ a.second ∷ a.third ∷ a.fourth ∷ a.fifth ∷ [])
        × (i.signer_seeds
            ≡ (mandate_seeds a.first.key a.third.key amount ++ ((bump ∷ []) ∷ [])) ∷ [])
  unfolding pay
  pay-ok a amount bump v i h =
      let ((decimals, config), read, h1) = and_then-ok (read_mint T rt a.second) _ h in
      let (fee, due, h2) = and_then-ok (epoch_fee T rt config amount v) _ h1 in
      let (transfer, built, h3) = and_then-ok _ _ h2 in
      let same = ok-injective h3 in
      (
        decimals,
        config,
        fee,
        read,
        due,
        built ∙ ap (λ (j : Invocation). ok j.instruction) same,
        sym (ap (λ (j : Invocation). j.accounts) same),
        sym (ap (λ (j : Invocation). j.signer_seeds) same),
      )

  paid-PaysMandate :
      (program_id : Address) (infos : List AccountInfo) (instruction_data : Bytes) (v : V)
      (i : Invocation) (a : FiveAccounts) (amount : ℕ)
      → next_five infos ≡ ok a
      → unpack instruction_data ≡ ok (execute_mandate amount)
      → a.fifth.key ≡ T.id
      → a.fourth.key
        ≡ (rt.find_program_address (mandate_seeds a.first.key a.third.key amount) program_id).0
      → pay T rt a amount
          (rt.find_program_address (mandate_seeds a.first.key a.third.key amount) program_id).1
          v
        ≡ ok i
      → PaysMandate program_id infos instruction_data v
          (rt.invoke_signed i.instruction i.accounts i.signer_seeds v)
  paid-PaysMandate program_id infos instruction_data v i a amount five unpacked token mandate paid =
      let (decimals, config, fee, read, due, built, given, signed) = pay-ok a amount _ v i paid in
      (
        a,
        amount,
        decimals,
        config,
        fee,
        i.instruction,
        five,
        unpacked,
        token,
        mandate,
        read,
        due,
        rw (← token) built,
        λ k. rt.invoke_signed i.instruction (given k) (signed k) v,
      )

  prepare-ok :
      (program_id : Address) (infos : List AccountInfo) (instruction_data : Bytes) (v : V)
      (i : Invocation)
      → prepare T rt program_id infos instruction_data v ≡ ok i
      → PaysMandate program_id infos instruction_data v
          (rt.invoke_signed i.instruction i.accounts i.signer_seeds v)
  unfolding prepare
  prepare-ok program_id infos instruction_data v i h =
      let (instruction, unpacked, h1) = and_then-ok (unpack instruction_data) _ h in
      let (a, five, h2) = and_then-ok (next_five infos) _ h1 in
      let amount = amount_of instruction in
      let pda = rt.find_program_address (mandate_seeds a.first.key a.third.key amount) program_id in
      let (token, h3) = test-ok (bytes_eq a.fifth.key T.id) _ _ h2 in
      let (mandate, paid) = test-ok (bytes_eq a.fourth.key pda.0) _ _ h3 in
      paid-PaysMandate program_id infos instruction_data v i a amount five
        (unpacked ∙ ap ok (execute_mandate-amount_of instruction))
        (bytes_eq-eq a.fifth.key T.id token) (bytes_eq-eq a.fourth.key pda.0 mandate) paid

  -- Whatever accounts and bytes it is given, the agent either fails without calling anything, or
  -- makes one call: a `TransferCheckedWithFee` of Token-2022 of the amount in the instruction, from
  -- the first account to the third, with the fourth as authority, which is the address derived from
  -- the seeds of that source, destination and amount, and signed with exactly those seeds and their
  -- bump. The decimals and the fee of the call are those that the second account gives, which
  -- Token-2022 owns: no fee without a schedule, and else the schedule's fee in the clock's epoch.
  pub process_instruction-pays :
      (program_id : Address) (infos : List AccountInfo) (instruction_data : Bytes) (v : V)
      → FailsOrPays program_id infos instruction_data v
          (process_instruction T rt program_id infos instruction_data v)
  unfolding process_instruction
  process_instruction-pays program_id infos instruction_data v =
      elim (Result-cases (prepare T rt program_id infos instruction_data v)) [
        | inl (i, e) ↦ inr (rw e (prepare-ok program_id infos instruction_data v i e))
        | inr (inl (x, e)) ↦ inl (rw e (refl, refl))
        | inr (inr e) ↦ inl (rw e (refl, refl))
      ]
