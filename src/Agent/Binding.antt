-- ===== src/Agent/Binding.antt =====
-- programs/remit-agent/src/lib.rs: what a mandate address binds.
use mathlib.Core.List.{flatten, append_assoc}
use token_22_cts.Prelude.{
  ℕ, ◌≡◌, append-injective, inl, inr, refl, sym, ap, subst, ◌∙◌, true, List, [], ◌∷◌, ◌++◌, All,
  IsByte, to_le_bytes, length-to_le_bytes, arith,
}
use token_22_cts.Solana.{Bytes, Address, IsAddress}
use token_22_cts.Error.{ok}
use token_22_cts.Cluster.Inversion.{ok-injective}
use token_22_cts.Cluster.Recorded.{is_ok}
use token_22_cts.Token22.{Token22}
use token_22_cts.Program.{AccountInfo, Runtime, FiveAccounts, next_five}
use token_22_cts.Agent.{
  execute_mandate, mandate_seed, mandate_seeds, unpack, pack, process_instruction,
}
use token_22_cts.Agent.Codec.{pack-unpack}
use token_22_cts.Agent.Mandate.{process_instruction-pays}

-- The seeds of a mandate, one after the other, and then the bump.
abbrev pub preimage : Address → Address → ℕ → ℕ → Bytes
preimage source destination amount bump =
    flatten (mandate_seeds source destination amount) ++ (bump ∷ [])

-- Source, destination and amount can be read off the preimage, since their widths are fixed.
preimage-injective :
    (s s' d d' : Address) (n n' bump bump' : ℕ)
    → IsAddress s
    → IsAddress s'
    → IsAddress d
    → IsAddress d'
    → preimage s d n bump ≡ preimage s' d' n' bump'
    → (s ≡ s') × (d ≡ d') × (to_le_bytes 8 n ≡ to_le_bytes 8 n')
unfolding mandate_seeds flatten
preimage-injective s s' d d' n n' bump bump' hs hs' hd hd' h =
    let words = to_le_bytes 8 n ++ [] in
    let words' = to_le_bytes 8 n' ++ [] in
    let tail = (bump ∷ []) in
    let tail' = (bump' ∷ []) in
    let (seed, h1) =
      append-injective mandate_seed mandate_seed ((s ++ (d ++ words)) ++ tail)
        ((s' ++ (d' ++ words')) ++ tail') refl h in
    let h1' = sym (append_assoc s (d ++ words) tail) ∙ h1 ∙ append_assoc s' (d' ++ words') tail' in
    let (source, h2) = append-injective s s' _ _ (hs ∙ sym hs') h1' in
    let h2' = sym (append_assoc d words tail) ∙ h2 ∙ append_assoc d' words' tail' in
    let (destination, h3) = append-injective d d' _ _ (hd ∙ sym hd') h2' in
    let h3' =
      sym (append_assoc (to_le_bytes 8 n) [] tail)
      ∙ h3
      ∙ append_assoc (to_le_bytes 8 n') [] tail' in
    let lengths = length-to_le_bytes 8 n ∙ sym (length-to_le_bytes 8 n') in
    let (amount, h4) = append-injective (to_le_bytes 8 n) (to_le_bytes 8 n') _ _ lengths h3' in
    (source, destination, amount)

module _ {V : Type 0} (T : Token22) (rt : Runtime V) (program_id : Address) where
  -- An invocation that succeeded was for the mandate of its accounts and its amount.
  succeeded :
      (infos : List AccountInfo) (instruction_data : Bytes) (v : V) (a : FiveAccounts)
      → next_five infos ≡ ok a
      → is_ok (process_instruction T rt program_id infos instruction_data v).0 ≡ true
      → (amount : ℕ) × (unpack instruction_data ≡ ok (execute_mandate amount))
        × (a.fourth.key
            ≡ (rt.find_program_address (mandate_seeds a.first.key a.third.key amount) program_id).0)
  succeeded infos instruction_data v a five done =
      elim (process_instruction-pays T rt program_id infos instruction_data v) [
        | inl (same, failed) ↦ absurd (ground arith)
        | inr
              (
                a', amount, decimals, config, fee, transfer, five', unpacked, token, mandate, read,
                due, built, called,
              ) ↦
            let one = ok-injective (sym five' ∙ five) in
            (
              amount,
              unpacked,
              subst
                  (λ (x : FiveAccounts).
                    x.fourth.key
                    ≡ (rt.find_program_address (mandate_seeds x.first.key x.third.key amount)
                        program_id).0)
                  one mandate,
            )
      ]

  module _
      (collision_free : (seeds seeds' : List Bytes)
        → (rt.find_program_address seeds program_id).0
          ≡ (rt.find_program_address seeds' program_id).0
        → flatten seeds ++ ((rt.find_program_address seeds program_id).1 ∷ [])
          ≡ flatten seeds' ++ ((rt.find_program_address seeds' program_id).1 ∷ [])) where
    -- If no two preimages derive the same address, then two invocations that succeed with the same
    -- mandate account have the same source, the same destination and the same instruction data, so
    -- the same amount: what an owner approves a mandate for is all that it can pay.
    pub mandate-binds :
        (infos infos' : List AccountInfo) (instruction_data instruction_data' : Bytes) (v v' : V)
        (a a' : FiveAccounts)
        → next_five infos ≡ ok a
        → next_five infos' ≡ ok a'
        → IsAddress a.first.key
        → IsAddress a'.first.key
        → IsAddress a.third.key
        → IsAddress a'.third.key
        → All IsByte instruction_data
        → All IsByte instruction_data'
        → is_ok (process_instruction T rt program_id infos instruction_data v).0 ≡ true
        → is_ok (process_instruction T rt program_id infos' instruction_data' v').0 ≡ true
        → a.fourth.key ≡ a'.fourth.key
        → (a.first.key ≡ a'.first.key)
          × (a.third.key ≡ a'.third.key)
          × (instruction_data ≡ instruction_data')
    unfolding pack
    mandate-binds infos infos' instruction_data instruction_data' v v' a a' five five' s s' d d'
          bytes bytes' done done' same =
        let (n, unpacked, mandate) = succeeded infos instruction_data v a five done in
        let (n', unpacked', mandate') = succeeded infos' instruction_data' v' a' five' done' in
        let seeds = mandate_seeds a.first.key a.third.key n in
        let seeds' = mandate_seeds a'.first.key a'.third.key n' in
        let (source, destination, words) =
          preimage-injective a.first.key a'.first.key a.third.key a'.third.key n n'
            (rt.find_program_address seeds program_id).1
            (rt.find_program_address seeds' program_id).1 s s' d d'
            (collision_free seeds seeds' (sym mandate ∙ same ∙ mandate')) in
        (
          source,
          destination,
          sym (pack-unpack instruction_data (execute_mandate n) bytes unpacked)
              ∙ ap (◌∷◌ 0) words
              ∙ pack-unpack instruction_data' (execute_mandate n') bytes' unpacked',
        )
