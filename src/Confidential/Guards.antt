-- ===== src/Confidential/Guards.antt =====
-- remit/src/confidential.rs: the guards of the confidential debits, and what applying the pending
-- balance sends.
use token_22_cts.Prelude.{ℕ, ◌+◌, ◌≤◌, ◌<◌, ◌≡◌, true, some, sym, ap, ◌∙◌, subst, [], ◌∷◌, arith}
use token_22_cts.Solana.{Address, Keypair, Instruction, u64_mod}
use token_22_cts.Error.{insufficient_confidential_balance, ok, err}
use token_22_cts.Cluster.{Cluster, from_program}
use token_22_cts.Cluster.Inversion.{continue-ok, ok-injective, ok_or-ok, send-ok, from_program-ok}
use token_22_cts.Cluster.Recorded.{Log, recorded}
use token_22_cts.Random.{Random}
use token_22_cts.Token22.{Token22, ConfidentialTransferAccount}
use token_22_cts.State.{
  AccountSnapshot, MintSnapshot, load_account, load_mint, require_confidential,
}
use token_22_cts.Transfer.{expected_fee}
use token_22_cts.Proofs.Interface.{ProofInterface}
use token_22_cts.Confidential.Interface.{ConfidentialInterface, recorded_confidential}
use token_22_cts.Confidential.{
  ConfidentialKeys, available_balance, pending_balance, decrypt_lo_hi, decrypt_u32,
  elgamal_ciphertext,
}
use token_22_cts.Confidential.Balances.{available_balance_iff}
use token_22_cts.Confidential.Lifecycle.{add_u64, apply_pending_balance}
use token_22_cts.Confidential.Checking.{inputs-Checked, transfer-ok}
use token_22_cts.Confidential.Debit.{transfer_inputs}
use token_22_cts.Confidential.Transfer.{ConfidentialTransfer, transfer}
use token_22_cts.Confidential.Withdraw.{withdraw}

module _ {W : Type 0} (T : Token22) (P : ProofInterface) (Z : ConfidentialInterface W)
    (C : Cluster W) (R : Random W) (source destination : Address) (owner : Keypair)
    (keys : ConfidentialKeys) (amount : ℕ) (w : W) where
  configured :
      (a : AccountSnapshot) (n : ℕ)
      → available_balance Z a keys ≡ ok n
      → (state : ConfidentialTransferAccount) × (require_confidential a ≡ ok state)
  unfolding require_confidential
  configured a n h =
      let (state, c, has, same, parsed, read) = (available_balance_iff Z a keys n).0 h in
      (state, ground arith)

  -- If both accounts and the mint load, a transfer of more than the available balance is refused with
  -- that balance and the amount. It draws no randomness and sends nothing: the world is as it was.
  pub transfer-uncovered :
      (a b : AccountSnapshot) (m : MintSnapshot) (n : ℕ)
      → load_account T C source w ≡ ok a
      → load_account T C destination w ≡ ok b
      → load_mint T C a.mint w ≡ ok m
      → available_balance Z a keys ≡ ok n
      → n < amount
      → transfer T P Z C R source destination owner keys amount w
        ≡ (err (insufficient_confidential_balance n amount), w)
  unfolding transfer transfer_inputs
  transfer-uncovered a b m n la lb lm has less =
      let (state, on) = configured a n has in rw (la, lb, lm, on, has) (ground arith)

  -- What a transfer that succeeded has read and checked.
  abbrev pub Covered : ConfidentialTransfer → Type 0
  Covered t =
      (a : AccountSnapshot) × (m : MintSnapshot) × (n : ℕ) × (load_account T C source w ≡ ok a)
      × (load_mint T C a.mint w ≡ ok m)
      × (available_balance Z a keys ≡ ok n)
      × (amount ≤ n)
      × (expected_fee T m (C.epoch w) amount ≡ ok t.fee)
      × (t.amount ≡ amount)
      × (t.epoch ≡ C.epoch w)

  -- A transfer that succeeds was covered by the available balance of the source, at counters that
  -- agreed, and states the fee that the mint's schedule gives for the amount in the epoch at the call.
  pub transfer-Covered :
      (t : ConfidentialTransfer) (w' : W)
      → transfer T P Z C R source destination owner keys amount w ≡ (ok t, w')
      → Covered t
  transfer-Covered t w' h =
      let (inputs, proof, u, read, drawn, same) =
        transfer-ok T P Z C R source destination owner keys amount w t w' h in
      let (a, la, lm, has, enough, quoted, now, audited) =
        inputs-Checked T Z C source destination keys amount w inputs read in
      (
        a,
        inputs.mint,
        inputs.available,
        la,
        lm,
        has,
        enough,
        quoted ∙ ap (λ (x : ConfidentialTransfer). ok x.fee) (sym same),
        ap (λ (x : ConfidentialTransfer). x.amount) same,
        ap (λ (x : ConfidentialTransfer). x.epoch) same ∙ now,
      )

module _ {W : Type 0} (T : Token22) (P : ProofInterface) (Z : ConfidentialInterface W)
    (C : Cluster W) (R : Random W) (token_account : Address) (owner : Keypair)
    (keys : ConfidentialKeys) (amount : ℕ) (w : W) where
  -- If the account loads, a withdrawal of more than the available balance is refused with that balance and the amount, and
  -- the world is as it was.
  pub withdraw-uncovered :
      (a : AccountSnapshot) (n : ℕ)
      → load_account T C token_account w ≡ ok a
      → available_balance Z a keys ≡ ok n
      → n < amount
      → withdraw T P Z C R token_account owner keys amount w
        ≡ (err (insufficient_confidential_balance n amount), w)
  unfolding withdraw
  withdraw-uncovered a n la has less = rw (la, has) (ground arith)

module _ {W : Type 0} (T : Token22) (Z : ConfidentialInterface W) (C : Cluster W)
    (token_account : Address) (owner : Keypair) (keys : ConfidentialKeys) (v : W × Log) where
  abbrev pub Applies : ℕ → W × Log → Type 0
  Applies n v' =
      (a : AccountSnapshot) × (available : ℕ) × (pending : ℕ)
      × (state : ConfidentialTransferAccount) × (instruction : Instruction) × (load_account T
            (recorded C) token_account v
          ≡ ok a)
      × (available_balance Z a keys ≡ ok available)
      × (pending_balance Z a keys ≡ ok pending)
      × (a.confidential ≡ some state)
      × (n ≡ available + pending)
      × (n < u64_mod)
      × (Z.apply_pending_balance T.id token_account state.pending_balance_credit_counter
            (Z.ae_encrypt keys.ae n v.0).0 owner.pubkey []
          ≡ ok instruction)
      × (v'.1
          ≡ record { instructions = instruction ∷ []; signers = owner ∷ []; landed = true } ∷ v.1)

  add_u64-ok : (x y n : ℕ) → add_u64 x y ≡ ok n → (n ≡ x + y) × (n < u64_mod)
  unfolding add_u64
  add_u64-ok x y n h = ground arith

  -- A successful `apply_pending_balance` has sent one transaction that landed, signed by the owner:
  -- the instruction names the account's pending credit counter and the encryption of the sum of the
  -- available and the pending balance as they decrypt at the call, a `u64` that is also returned.
  pub apply_pending_balance-Applies :
      (n : ℕ) (v' : W × Log)
      → apply_pending_balance T (recorded_confidential Z) (recorded C) token_account owner keys v
        ≡ (ok n, v')
      → Applies n v'
  unfolding apply_pending_balance require_confidential available_balance pending_balance
      decrypt_lo_hi decrypt_u32 elgamal_ciphertext
  apply_pending_balance-Applies n v' h =
      let (a, la, h1) = continue-ok (load_account T (recorded C) token_account v) _ v h in
      let (available, trusted, h2) =
        continue-ok (available_balance (recorded_confidential {L = Log} Z) a keys) _ v h1 in
      let (pending, opened, h3) =
        continue-ok (pending_balance (recorded_confidential {L = Log} Z) a keys) _ v h2 in
      let (total, added, h4) = continue-ok (add_u64 available pending) _ v h3 in
      let encrypted = Z.ae_encrypt keys.ae total v.0 in
      let u : W × Log = (encrypted.1, v.1) in
      let (state, has, h5) = continue-ok (require_confidential a) _ u h4 in
      let (instruction, built, h6) =
        continue-ok
          (from_program (
            Z.apply_pending_balance T.id token_account state.pending_balance_credit_counter
              encrypted.0 owner.pubkey []))
          _ u h5 in
      let (receipt, landed, h7) = send-ok (recorded C) (instruction ∷ []) (owner ∷ []) _ u h6 in
      let (sum, bound) = add_u64-ok available pending total added in
      let same : total ≡ n = ok-injective (ap (λ r. r.0) h7) in
      subst (λ k. Applies k v') same
        (
          a,
          available,
          pending,
          state,
          instruction,
          la,
          trusted,
          opened,
          ok_or-ok a.confidential _ has,
          sum,
          bound,
          from_program-ok _ built,
          sym (ap (λ r. r.1.1) h7) ∙ rw landed,
        )
