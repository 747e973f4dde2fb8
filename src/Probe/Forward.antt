-- ===== src/Probe/Forward.antt =====
-- programs/cpi-guard-probe/src/lib.rs: what the probe calls.
use token_22_cts.Prelude.{
  ℕ, ap, subst, length, from_le_bytes, arith, ◌≡◌, ◌⊎◌, inl, inr, refl, sym, Option, none, some,
  false, List, [], ◌∷◌,
}
use token_22_cts.Solana.{Bytes, Address, Instruction, ProgramError}
use token_22_cts.Error.{Result, ok, to_option}
use token_22_cts.Cluster.Inversion.{Result-cases, and_then-ok, ok_or-ok, ok-injective}
use token_22_cts.Cluster.Recorded.{is_ok}
use token_22_cts.Token22.{Token22, MintState, TransferFeeConfig}
use token_22_cts.Program.{AccountInfo, Runtime, Invocation, FiveAccounts, next_five}
use token_22_cts.Probe.{
  ProbeInstruction, forward_owner_transfer, forward_approve, unpack, read_mint, fee_of, forwarded,
  prepare, process_instruction,
}

-- The bytes of an instruction: its tag, and the amount in eight bytes, the lowest first.
abbrev pub Encodes : Bytes → ProbeInstruction → Type 0
Encodes input (forward_owner_transfer amount) =
    (rest : Bytes) × (input ≡ 0 ∷ rest) × (length rest ≡ 8) × (from_le_bytes rest ≡ amount)
Encodes input (forward_approve amount) =
    (rest : Bytes) × (input ≡ 1 ∷ rest) × (length rest ≡ 8) × (from_le_bytes rest ≡ amount)

unpack-Encodes :
    (input : Bytes) (instruction : ProbeInstruction)
    → unpack input ≡ ok instruction
    → Encodes input instruction
unfolding unpack
unpack-Encodes [] instruction h = absurd cc
unpack-Encodes (tag ∷ rest) (forward_owner_transfer amount) h =
    (rest, ap (λ t. t ∷ rest) (ground arith), ground arith, ground arith)
unpack-Encodes (tag ∷ rest) (forward_approve amount) h =
    (rest, ap (λ t. t ∷ rest) (ground arith), ground arith, ground arith)

-- The accounts begin with these five, in order.
abbrev pub Begins : List AccountInfo → FiveAccounts → Type 0
Begins infos a =
    (rest : List AccountInfo) × (infos ≡ a.first ∷ a.second ∷ a.third ∷ a.fourth ∷ a.fifth ∷ rest)

next_five-Begins :
    (infos : List AccountInfo) (a : FiveAccounts) → next_five infos ≡ ok a → Begins infos a
unfolding next_five
next_five-Begins [] a h = absurd cc
next_five-Begins (b ∷ []) a h = absurd cc
next_five-Begins (b ∷ c ∷ []) a h = absurd cc
next_five-Begins (b ∷ c ∷ d ∷ []) a h = absurd cc
next_five-Begins (b ∷ c ∷ d ∷ e ∷ []) a h = absurd cc
next_five-Begins (b ∷ c ∷ d ∷ e ∷ f ∷ rest) a h =
    subst (Begins (b ∷ c ∷ d ∷ e ∷ f ∷ rest)) (ok-injective h) (rest, refl)

module _ {V : Type 0} (T : Token22) (rt : Runtime V) where
  -- The mint's decimals and its schedule, if it has one, in the data of the account.
  abbrev pub MintHas : AccountInfo → ℕ → Option TransferFeeConfig → Type 0
  MintHas mint decimals config =
      (bytes : Bytes) × (state : MintState) × (mint.borrowed ≡ ok bytes)
      × (T.unpack_mint bytes ≡ ok state)
      × (decimals ≡ state.decimals)
      × (config ≡ to_option state.transfer_fee)

  read_mint-MintHas :
      (mint : AccountInfo) (decimals : ℕ) (config : Option TransferFeeConfig)
      → read_mint T rt mint ≡ ok (decimals, config)
      → MintHas mint decimals config
  unfolding read_mint
  read_mint-MintHas mint decimals config h =
      let (bytes, borrowed, h1) = and_then-ok mint.borrowed _ h in
      let (state, unpacked, h2) = and_then-ok (T.unpack_mint bytes) _ h1 in
      let same = ok-injective h2 in
      (
        bytes,
        state,
        borrowed,
        unpacked,
        sym (ap (λ (m : ℕ × Option TransferFeeConfig). m.0) same),
        sym (ap (λ (m : ℕ × Option TransferFeeConfig). m.1) same),
      )

  -- The fee: none without a schedule, and else what the schedule gives for the amount in the epoch
  -- that the clock shows.
  abbrev pub FeeAt : Option TransferFeeConfig → ℕ → V → ℕ → Type 0
  FeeAt none amount v fee = fee ≡ 0
  FeeAt (some config) amount v fee =
      (epoch : ℕ) × (rt.clock_epoch v ≡ ok epoch)
      × (T.calculate_epoch_fee config epoch amount ≡ some fee)

  fee_of-FeeAt :
      (config : Option TransferFeeConfig) (amount : ℕ) (v : V) (fee : ℕ)
      → fee_of T rt config amount v ≡ ok fee
      → FeeAt config amount v fee
  unfolding fee_of
  fee_of-FeeAt none amount v fee h = sym (ok-injective h)
  fee_of-FeeAt (some config) amount v fee h =
      let (epoch, shown, h1) = and_then-ok (rt.clock_epoch v) _ h in
      (epoch, shown, ok_or-ok (T.calculate_epoch_fee config epoch amount) _ h1)

  -- A transfer of the amount with the fee of the epoch, or an approval, as the instruction says.
  abbrev pub Forwards :
      FiveAccounts → ℕ → Option TransferFeeConfig → V → ProbeInstruction → Instruction → Type 0
  Forwards a decimals config v (forward_owner_transfer amount) i =
      (fee : ℕ) × FeeAt config amount v fee
      × (T.transfer_checked_with_fee a.fifth.key a.first.key a.second.key a.third.key a.fourth.key
            [] amount decimals fee
          ≡ ok i)
  Forwards a decimals config v (forward_approve amount) i =
      T.approve_checked a.fifth.key a.first.key a.second.key a.third.key a.fourth.key [] amount
        decimals
      ≡ ok i

  abbrev pub FailsOrForwards :
      List AccountInfo → Bytes → V → Result (Unit {0}) ProgramError × V → Type 0
  FailsOrForwards infos instruction_data v r =
      ((r.1 ≡ v) × (is_ok r.0 ≡ false))
      ⊎ ((a : FiveAccounts) × (instruction : ProbeInstruction) × (decimals : ℕ) × (config : Option
            TransferFeeConfig)
          × (i : Instruction) × Begins infos a
          × Encodes instruction_data instruction
          × MintHas a.second decimals config
          × Forwards a decimals config v instruction i
          × (r ≡ rt.invoke_signed i (a.first ∷ a.second ∷ a.third ∷ a.fourth ∷ a.fifth ∷ []) [] v))

  forwarded-Forwards :
      (a : FiveAccounts) (decimals : ℕ) (config : Option TransferFeeConfig) (v : V)
      (instruction : ProbeInstruction) (i : Instruction)
      → forwarded T rt a decimals config v instruction ≡ ok i
      → Forwards a decimals config v instruction i
  unfolding forwarded
  forwarded-Forwards a decimals config v (forward_owner_transfer amount) i h =
      let (fee, due, built) = and_then-ok (fee_of T rt config amount v) _ h in
      (fee, fee_of-FeeAt config amount v fee due, built)
  forwarded-Forwards a decimals config v (forward_approve amount) i h = h

  prepare-Forwards :
      (infos : List AccountInfo) (instruction_data : Bytes) (v : V) (j : Invocation)
      → prepare T rt infos instruction_data v ≡ ok j
      → FailsOrForwards infos instruction_data v
          (rt.invoke_signed j.instruction j.accounts j.signer_seeds v)
  unfolding prepare
  prepare-Forwards infos instruction_data v j h =
      let (instruction, unpacked, h1) = and_then-ok (unpack instruction_data) _ h in
      let (a, five, h2) = and_then-ok (next_five infos) _ h1 in
      let ((decimals, config), read, h3) = and_then-ok (read_mint T rt a.second) _ h2 in
      let (i, built, h4) = and_then-ok (forwarded T rt a decimals config v instruction) _ h3 in
      let same = ok-injective h4 in
      inr (
        a,
        instruction,
        decimals,
        config,
        i,
        next_five-Begins infos a five,
        unpack-Encodes instruction_data instruction unpacked,
        read_mint-MintHas a.second decimals config read,
        forwarded-Forwards a decimals config v instruction i built,
        λ k.
            rt.invoke_signed (sym same k).instruction (sym same k).accounts
              (sym same k).signer_seeds v,
      )

  -- Whatever accounts and bytes it is given, the probe either fails without calling anything, or
  -- makes one call without seeds of its own, for the first five accounts in their order: the
  -- transfer of the amount with the fee of the epoch, or the approval, that the instruction asks for.
  pub process_instruction-forwards :
      (program_id : Address) (infos : List AccountInfo) (instruction_data : Bytes) (v : V)
      → FailsOrForwards infos instruction_data v
          (process_instruction T rt program_id infos instruction_data v)
  unfolding process_instruction
  process_instruction-forwards program_id infos instruction_data v =
      elim (Result-cases (prepare T rt infos instruction_data v)) [
        | inl (j, e) ↦ rw e (prepare-Forwards infos instruction_data v j e)
        | inr (inl (x, e)) ↦ inl (rw e (refl, refl))
        | inr (inr e) ↦ inl (rw e (refl, refl))
      ]
