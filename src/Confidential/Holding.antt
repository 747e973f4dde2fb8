-- ===== src/Confidential/Holding.antt =====
-- remit/src/confidential.rs: the proof accounts that a preparation has gathered, by their addresses.
use token_22_cts.Prelude.{
  ℕ, ◌+◌, refl, some, ◌≡◌, inl, inr, sym, ap, ◌∙◌, List, [], ◌∷◌, ◌++◌, map, arith,
}
use token_22_cts.Solana.{Address, Keypair}
use token_22_cts.Error.{ok}
use token_22_cts.Cluster.{Cluster, with_compute_unit_limit}
use token_22_cts.Cluster.Inversion.{ok-injective}
use token_22_cts.Cluster.Recorded.{Sent, Log, is_ok, recorded}
use token_22_cts.Random.{Random, recorded_random}
use token_22_cts.Proofs.Interface.{ProofInterface, ProofInstruction, Proof}
use token_22_cts.Proofs.Units.{compute_units}
use token_22_cts.Proofs.{
  Staged, ProofAccounts, context_info, create_context_account, verify, stage_from_record,
}
use token_22_cts.Proofs.Trail.{landed_with}
use token_22_cts.Proofs.Verified.{verify-Verifies}
use token_22_cts.Proofs.Staging.{stage_from_record-Stages}

-- These contexts were created before the spending transaction, one more will be created in it by a
-- verification that needs these compute units, and there is one record.
abbrev pub Holds : ProofAccounts → List Address → Address → ℕ → Type 0
Holds accounts verified staged units =
    (account : Address) × (accounts.contexts ≡ verified)
    × (map (λ (s : Staged). s.units) accounts.staged ≡ units ∷ [])
    × (map (λ (s : Staged). s.context.pubkey) accounts.staged ≡ staged ∷ [])
    × (accounts.records ≡ account ∷ [])

-- Only contexts so far.
abbrev pub Only : ProofAccounts → List Address → Type 0
Only accounts verified =
    (accounts.contexts ≡ verified) × (accounts.records ≡ []) × (accounts.staged ≡ [])

-- A transaction that landed and is the verification of this proof into a context at this address,
-- which it creates, of the proof's size and under the payer's authority.
abbrev pub VerifiedIn :
    {W : Type 0} → ProofInterface → Cluster W → ProofInstruction → Proof → Address → Sent → Type 0
VerifiedIn {W} P C instruction proof address sent =
    (context : Keypair) × (w : W) × (w' : W) × (lamports : ℕ) × (context.pubkey ≡ address)
    × (sent
        ≡ landed_with
            (with_compute_unit_limit P.wire (compute_units instruction + 2_000) (
              P.create_account (C.payer w') context.pubkey lamports proof.context_len
                P.proof_program
              ∷ P.encode_verify_proof instruction (some (context_info context.pubkey (C.payer w)))
                  proof
              ∷ []))
            (context ∷ []))

module _ {W : Type 0} (P : ProofInterface) (C : Cluster W) (R : Random W)
    (instruction : ProofInstruction) (proof : Proof) (v : W × Log) (s : ProofAccounts)
    (contexts : List Address) (address : Address) (v' : W × Log) (s' : ProofAccounts) where
  pub verify-VerifiedIn :
      verify P (recorded C) (recorded_random R) instruction proof (v, s) ≡ (ok address, (v', s'))
      → (sent : Sent) × VerifiedIn P C instruction proof address sent × (v'.1 ≡ sent ∷ v.1)
  unfolding create_context_account
  verify-VerifiedIn h = elim (verify-Verifies P C R instruction proof v s) [
    | inl (failed, unchanged, rest) ↦ absurd (ground (arith, ap (λ o. is_ok o.0) h))
    | inr (done, grown, fits, logged) ↦
        let named = ok-injective (sym done ∙ ap (λ o. o.0) h) in
        (
          _,
          ((R.new_keypair v.0).0, v.0, (R.new_keypair v.0).1, _, named, refl),
          sym (ap (λ o. o.1.0.1) h) ∙ logged,
        )
  ]

  pub verify-Only :
      verify P (recorded C) (recorded_random R) instruction proof (v, s) ≡ (ok address, (v', s'))
      → Only s contexts
      → Only s' (contexts ++ (address ∷ []))
  verify-Only h (same, no_records, no_staged) = elim (verify-Verifies P C R instruction proof v s) [
    | inl (failed, unchanged, rest) ↦ absurd (ground (arith, ap (λ o. is_ok o.0) h))
    | inr (done, grown, fits, rest) ↦
        let named = ok-injective (sym done ∙ ap (λ o. o.0) h) in
        let all = sym (ap (λ o. o.1.1) h) ∙ grown in
        (
          ap (λ (a : ProofAccounts). a.contexts) all ∙ (λ i. same i ++ (named i ∷ [])),
          ap (λ (a : ProofAccounts). a.records) all ∙ no_records,
          ap (λ (a : ProofAccounts). a.staged) all ∙ no_staged,
        )
  ]

  pub stage_from_record-Holds :
      stage_from_record P (recorded C) (recorded_random R) instruction proof (v, s)
        ≡ (ok address, (v', s'))
      → Only s contexts
      → Holds s' contexts address (compute_units instruction)
  stage_from_record-Holds h (same, no_records, no_staged) =
      let (key, staged, grown, named, verifies, creates, needs, fills) =
        stage_from_record-Stages P C R instruction proof v s address v' s' h in
      (
        key.pubkey,
        ap (λ (a : ProofAccounts). a.contexts) grown ∙ same,
        ap (λ (a : ProofAccounts). map (λ (t : Staged). t.units) a.staged) grown
            ∙ ap (λ (l : List Staged). map (λ (t : Staged). t.units) (l ++ (staged ∷ []))) no_staged
            ∙ ap (λ n. n ∷ []) needs,
        ap (λ (a : ProofAccounts). map (λ (t : Staged). t.context.pubkey) a.staged) grown
            ∙ ap (λ (l : List Staged). map (λ (t : Staged). t.context.pubkey) (l ++ (staged ∷ [])))
                no_staged
            ∙ ap (λ a. a ∷ []) named,
        ap (λ (a : ProofAccounts). a.records) grown ∙ ap (λ l. l ++ (key.pubkey ∷ [])) no_records,
      )
