-- ===== src/Proofs/Clearing.antt =====
-- remit/src/proofs.rs: what `close_after` leaves after an error, and that the tails create nothing.
use token_22_cts.Prelude.{
  ◌≡◌, ◌⊎◌, inl, inr, refl, sym, ap, subst, Bool, true, false, Option, none, some, List, [], ◌∷◌,
  All,
}
use token_22_cts.Solana.{Address, Instruction}
use token_22_cts.Error.{Error, Result, ok, err, panicked}
use token_22_cts.Cluster.{Cluster}
use token_22_cts.Cluster.Inversion.{continue_rule}
use token_22_cts.Cluster.Recorded.{Log, is_ok, recorded}
use token_22_cts.Proofs.Interface.{ProofInterface}
use token_22_cts.Proofs.Close.{close, close_after, settle}
use token_22_cts.Proofs.Consume.{tails, tail_of, send_tails}
use token_22_cts.Proofs.Packing.{Packs, to_close, close-Packs}
use token_22_cts.Proofs.Trail.{Built, IsWrite}
use token_22_cts.Proofs.Tracking.{All-append, tried-Built}
use token_22_cts.Proofs.{Staged, ProofAccounts}

module _ {W : Type 0} (P : ProofInterface) (before : Log) (C : Cluster W) where
  -- After an error with this cause, exactly the accounts created since the first log were handed to
  -- `close`, and unless closing failed itself, each of them was closed, and nothing else was sent.
  abbrev pub Cleared : (Error → W × Log → Type 0) → Error → W × Log → Type 0
  Cleared Cause e v' =
      (u : W × Log) × (accounts : ProofAccounts) × Cause e u
      × Built P before u.1 accounts.contexts accounts.records
      × (v' ≡ (close P (recorded C) (record accounts { staged = [] }) u).1)
      × ((is_ok (close P (recorded C) (record accounts { staged = [] }) u).0 ≡ false)
          ⊎ Packs P (C.payer u.0) (to_close P (C.payer u.0) (record accounts { staged = [] })) u.1
              v'.1)

  -- An outcome that is not a success is a panic, or the error that caused it and leaves nothing open.
  abbrev pub Fails : {A : Type 0} → (Error → W × Log → Type 0) → Result A Error × (W × Log) → Type 0
  Fails Cause r =
      (is_ok r.0 ≡ false) × ((r.0 ≡ panicked) ⊎ ((e : Error) × (r.0 ≡ err e) × Cleared Cause e r.1))

  -- A weaker cause.
  pub Fails-weaken :
      (Cause Cause' : Error → W × Log → Type 0)
      → ((e : Error) (u : W × Log) → Cause e u → Cause' e u)
      → {A : Type 0} (r : Result A Error × (W × Log)) → Fails Cause r
      → Fails Cause' r
  Fails-weaken Cause Cause' weaker r (failed, inl panic) = (failed, inl panic)
  Fails-weaken Cause Cause' weaker r
        (failed, inr (e, same, (u, accounts, cause, built, same', rest))) =
      (failed, inr (e, same, (u, accounts, weaker e u cause, built, same', rest)))

  pub close_after-Fails :
      (A : Type 0) (Cause : Error → W × Log → Type 0) (accounts : ProofAccounts) (e : Error)
      (u : W × Log)
      → Cause e u
      → Built P before u.1 accounts.contexts accounts.records
      → Fails Cause (close_after P (recorded C) {A = A} accounts (err e) u)
  unfolding close_after
  close_after-Fails A Cause accounts e u cause b =
      let closed = close P (recorded C) (record accounts { staged = [] }) u in settled closed refl
    where
      settled :
          (c : Result (Unit {0}) Error × (W × Log))
          → close P (recorded C) (record accounts { staged = [] }) u ≡ c
          → Fails Cause (settle {A = A} c.0 (err e), c.1)
      settled (ok tt, w) run = (
        refl,
        inr (
          e,
          refl,
          (
            u,
            accounts,
            cause,
            b,
            sym (ap (λ r. r.1) run),
            inr (close-Packs P C (record accounts { staged = [] }) u w run),
          ),
        ),
      )
      settled (err e', w) run = (
        refl,
        inr (
          e,
          refl,
          (u, accounts, cause, b, sym (ap (λ r. r.1) run), inl (ap (λ r. is_ok r.0) run)),
        ),
      )
      settled (panicked, w) run = (refl, inl refl)

  module _ {contexts records : List Address} where
    -- Sending a write creates nothing.
    tail-Built :
        (i : Instruction) (landed : Bool) (v : W × Log)
        → IsWrite P (some i)
        → Built P before v.1 contexts records
        → Built P before
            (record { instructions = i ∷ []; signers = []; landed = landed } ∷ v.1)
            contexts
            records
    tail-Built i landed v (inl impossible) b = absurd cc
    tail-Built i landed v (inr (account, payer, offset, chunk, same)) b =
        subst
          (λ o.
            Built P before
              (record {
                instructions = elim o [ none ↦ [] | some j ↦ j ∷ [] ];
                signers = [];
                landed = landed;
              }
                ∷ v.1)
              contexts records)
          (sym same) (tried-Built P before landed b account payer offset chunk)

    pub send_tails-Built :
        (writes : List Instruction) (v : W × Log)
        → All (λ i. IsWrite P (some i)) writes
        → Built P before v.1 contexts records
        → Built P before (send_tails P (recorded C) writes v).1.1 contexts records
    unfolding send_tails
    send_tails-Built [] v h b = b
    send_tails-Built (tail ∷ rest) v (h, hs) b =
        let sent = (recorded C).send (tail ∷ []) [] v in
        let b' = tail-Built tail (is_ok sent.0) v h b in
        continue_rule (λ (u : W × Log). Built P before u.1 contexts records) sent.0
          (λ _. send_tails P (recorded C) rest) sent.1 (λ _. b')
          (λ _ _. send_tails-Built rest sent.1 hs b')

  kept-AreWrites :
      (tail : Option Instruction)
      → IsWrite P tail
      → All (λ i. IsWrite P (some i)) (elim tail [ none ↦ [] | some i ↦ i ∷ [] ])
  kept-AreWrites none h = tt
  kept-AreWrites (some i) h = (h, tt)

  pub tails-AreWrites :
      (staged : List Staged)
      → All (λ (t : Staged). IsWrite P t.tail_write) staged
      → All (λ i. IsWrite P (some i)) (tails staged)
  unfolding tails
  tails-AreWrites [] h = tt
  tails-AreWrites (s ∷ rest) (h, hs) =
      All-append _ (tail_of true s) (tails rest) (kept-AreWrites s.tail_write h)
        (tails-AreWrites rest hs)
