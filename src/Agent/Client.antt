-- ===== src/Agent/Client.antt =====
-- programs/remit-agent/src/lib.rs: the client's side of a mandate, and the agreement of the agent's fee
-- with that of remit/src/transfer.rs.
use token_22_cts.Prelude.{
  ℕ, ◌≡◌, subst, ◌<◌, ◌↔◌, sym, ◌∙◌, true, some, [], ◌∷◌, map, bytes_eq, bytes_eq_refl, arith,
}
use token_22_cts.Solana.{Bytes, Address, u64_mod, AccountMeta}
use token_22_cts.Error.{ok}
use token_22_cts.Token22.{Token22, TransferFeeConfig}
use token_22_cts.State.{MintSnapshot, decode_mint, require_transfer_fee}
use token_22_cts.State.Decode.{decode_mint-ok}
use token_22_cts.Transfer.{expected_fee}
use token_22_cts.Program.{AccountInfo, Runtime}
use token_22_cts.Agent.{
  execute_mandate, agent_id, pack, mandate_seeds, mandate_address, read_mint, epoch_fee, pay,
  prepare, execute_mandate_instruction,
}
use token_22_cts.Agent.Codec.{unpack-pack}

module _ {V : Type 0} (T : Token22) (rt : Runtime V) (v : V) where
  checked-pay :
      (amount : ℕ) (a b c d e : AccountInfo)
      → amount < u64_mod
      → d.key ≡ (mandate_address T rt a.key c.key amount).0
      → e.key ≡ T.id
      → prepare T rt agent_id (a ∷ b ∷ c ∷ d ∷ e ∷ []) (pack (execute_mandate amount)) v
        ≡ pay T rt
            (record { first = a; second = b; third = c; fourth = d; fifth = e })
            amount
            (mandate_address T rt a.key c.key amount).1
            v
  unfolding prepare mandate_address
  checked-pay amount a b c d e bound mandate token =
      let pda = (rt.find_program_address (mandate_seeds a.key c.key amount) agent_id).0 in
      let t = subst (λ z. bytes_eq e.key z ≡ true) token (bytes_eq_refl e.key) in
      let m : bytes_eq d.key pda ≡ true =
        subst (λ z. bytes_eq d.key z ≡ true) mandate (bytes_eq_refl d.key) in
      rw (unpack-pack (execute_mandate amount) bound, t, m)

  -- The accounts that the runtime hands over for the client's instruction, in its order, pass every
  -- check of the agent: what it does is the payment of the amount, with the bump of the mandate.
  pub prepare-execute_mandate :
      (source mint destination : Address) (amount : ℕ) (a b c d e : AccountInfo)
      → amount < u64_mod
      → map (λ (x : AccountInfo). x.key) (a ∷ b ∷ c ∷ d ∷ e ∷ [])
        ≡ map
            (λ (m : AccountMeta). m.pubkey)
            (execute_mandate_instruction T rt source mint destination amount).accounts
      → prepare T rt agent_id
          (a ∷ b ∷ c ∷ d ∷ e ∷ [])
          (execute_mandate_instruction T rt source mint destination amount).instruction_data
          v
        ≡ pay T rt
            (record { first = a; second = b; third = c; fourth = d; fifth = e })
            amount
            (mandate_address T rt source destination amount).1
            v
  unfolding execute_mandate_instruction prepare
  prepare-execute_mandate source mint destination amount a b c d e bound keys =
      let ka : a.key ≡ source = cc in
      let kc : c.key ≡ destination = cc in
      let kd : d.key ≡ (mandate_address T rt source destination amount).0 = cc in
      let ke : e.key ≡ T.id = cc in
      checked-pay amount a b c d e bound
        (kd ∙ λ i. (mandate_address T rt (sym ka i) (sym kc i) amount).0) ke
      ∙ λ i.
          pay T rt (record { first = a; second = b; third = c; fourth = d; fifth = e }) amount
            (mandate_address T rt (ka i) (kc i) amount).1 v

  abbrev pub SameFee : AccountInfo → ℕ → ℕ → MintSnapshot → TransferFeeConfig → Type 0
  SameFee info epoch amount m config =
      (read_mint T rt info ≡ ok (m.decimals, some config))
      × ((fee : ℕ)
          → (epoch_fee T rt (some config) amount v ≡ ok fee)
            ↔ (expected_fee T m epoch amount ≡ ok fee))

  -- On a mint with a fee schedule, read from the same bytes and in the same epoch, the agent reads the
  -- decimals and the schedule that the client library reads, and computes a fee exactly where the
  -- library does, the same one.
  pub epoch_fee-expected_fee :
      (info : AccountInfo) (bytes : Bytes) (address : Address) (lamports epoch amount : ℕ)
      (m : MintSnapshot) (config : TransferFeeConfig)
      → info.owner ≡ T.id
      → info.borrowed ≡ ok bytes
      → rt.clock_epoch v ≡ ok epoch
      → decode_mint T address bytes lamports ≡ ok m
      → m.transfer_fee ≡ some config
      → SameFee info epoch amount m config
  unfolding read_mint epoch_fee expected_fee require_transfer_fee
  epoch_fee-expected_fee info bytes address lamports epoch amount m config owned lent now decoded
        has =
      let (s, unpacked, at, same, fees) = decode_mint-ok T address bytes lamports m decoded in
      let o : bytes_eq info.owner T.id ≡ true =
        subst (λ z. bytes_eq info.owner z ≡ true) owned (bytes_eq_refl info.owner) in
      (ground arith, λ fee. (λ h. ground arith, λ h. ground arith))
