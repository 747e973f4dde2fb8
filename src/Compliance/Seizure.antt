-- ===== src/Compliance/Seizure.antt =====
-- remit/src/compliance.rs: the effect of a seizure on the account that it is made from.
use token_22_cts.Prelude.{
  ℕ, ◌≤◌, ◌≡◌, ◌≢◌, refl, sym, subst, Bool, true, false, [], ◌∷◌, if◌then◌else◌, arith,
}
use token_22_cts.Solana.{Address, Keypair, Instruction}
use token_22_cts.Error.{ok}
use token_22_cts.Cluster.{Cluster, Receipt, pure, ◌>>◌}
use token_22_cts.Cluster.Inversion.{continue-ok, from_program-ok}
use token_22_cts.Cluster.Ledger.{Ledger, Debited, run-cons}
use token_22_cts.Token22.{Token22, AccountState, uninitialized, initialized, frozen}
use token_22_cts.State.{AccountSnapshot, is_frozen_state, is_frozen, load_account, load_mint}
use token_22_cts.Transfer.{FeeTransfer, expected_fee}
use token_22_cts.Compliance.{send_refreezing, seize}

is_frozen_state-frozen : (s : AccountState) → is_frozen_state s ≡ true → s ≡ frozen
is_frozen_state-frozen frozen h = refl
is_frozen_state-frozen uninitialized h = cc
is_frozen_state-frozen initialized h = cc

module _ {W : Type 0} (T : Token22) (C : Cluster W) where
  -- From one world to the other the account lost the amount, which it held.
  abbrev pub Seized : Address → ℕ → W → W → Type 0
  Seized from amount w w' =
      (a : AccountSnapshot) × (a' : AccountSnapshot) × (load_account T C from w ≡ ok a)
      × (load_account T C from w' ≡ ok a')
      × (amount ≤ a.amount)
      × Debited a amount a'

module _ {W : Type 0} {T : Token22} {C : Cluster W} (L : Ledger T C) (from to mint : Address)
    (desk delegate : Keypair) (amount decimals fee : ℕ) (transfer : Instruction)
    (built : T.transfer_checked_with_fee T.id from mint to delegate.pubkey [] amount decimals fee
      ≡ ok transfer)
    (ne : from ≢ to) (w : W) (a : AccountSnapshot) (loaded : load_account T C from w ≡ ok a) where
  plain-Seized :
      (w' : W) (receipt : Receipt)
      → C.send (transfer ∷ []) (delegate ∷ []) w ≡ (ok receipt, w')
      → Seized T C from amount w w'
  plain-Seized w' receipt h =
      let ran = L.send_ok (transfer ∷ []) (delegate ∷ []) w (rw h refl) in
      let (v, moves, done) = run-cons L.execute transfer [] w ran in
      let (live, held, (a', after, debited)) =
        L.transfer_executes from mint to delegate.pubkey amount decimals fee transfer w v a built
          moves ne loaded in
      (
        a,
        a',
        loaded,
        subst (λ u. load_account T C from u ≡ ok a') (ground arith) after,
        held,
        debited,
      )

  refreezing-Seized :
      (w' : W) (receipt : Receipt)
      → a.state ≡ frozen
      → send_refreezing T C from mint desk delegate transfer w ≡ (ok receipt, w')
      → Seized T C from amount w w'
  unfolding send_refreezing
  refreezing-Seized w' receipt cold h =
      let (thaw, bt, h1) = continue-ok _ _ _ h in
      let (freeze, bf, h2) = continue-ok _ _ _ h1 in
      let is = thaw ∷ transfer ∷ freeze ∷ [] in
      let ran = L.send_ok is (desk ∷ delegate ∷ []) w (rw h2 refl) in
      let (v, thaws, ran1) = run-cons L.execute thaw (transfer ∷ freeze ∷ []) w ran in
      let (u, moves, ran2) = run-cons L.execute transfer (freeze ∷ []) v ran1 in
      let (z, freezes, done) = run-cons L.execute freeze [] u ran2 in
      let warm =
        L.thaw_executes from mint desk.pubkey thaw w v a (from_program-ok _ bt) thaws loaded in
      let (live, held, (b, after, debited)) =
        L.transfer_executes from mint to delegate.pubkey amount decimals fee transfer v u
          (record a { state = initialized }) built moves ne warm in
      let refrozen =
        L.freeze_executes from mint desk.pubkey freeze u z b (from_program-ok _ bf) freezes after in
      let same : z ≡ w' = ground arith in
      (
        a,
        record b { state = frozen },
        loaded,
        subst (λ x. load_account T C from x ≡ ok (record b { state = frozen })) same refrozen,
        held,
        (debited.0, sym cold, debited.2, debited.3, debited.4),
      )

  -- Either branch of `seize`.
  branch-Seized :
      (b : Bool) (t t' : FeeTransfer) (w' : W)
      → is_frozen a ≡ b
      → ((if b
              then send_refreezing T C from mint desk delegate transfer
              else C.send (transfer ∷ []) (delegate ∷ []))
            >> pure t)
          w
        ≡ (ok t', w')
      → Seized T C from amount w w'
  branch-Seized true t t' w' cold h =
      let r = send_refreezing T C from mint desk delegate transfer w in
      let (receipt, sent, e) = continue-ok r.0 (λ _. pure t) r.1 h in
      refreezing-Seized w' receipt (is_frozen_state-frozen a.state cold) (ground arith)
  branch-Seized false t t' w' warm h =
      let r = C.send (transfer ∷ []) (delegate ∷ []) w in
      let (receipt, sent, e) = continue-ok r.0 (λ _. pure t) r.1 h in
      plain-Seized w' receipt (ground arith)

module _ {W : Type 0} {T : Token22} {C : Cluster W} (L : Ledger T C) (from to : Address)
    (desk delegate : Keypair) (amount : ℕ) where
  -- On a chain that is a `Ledger`, a successful seizure into another account, frozen or not, debits exactly the amount, which the
  -- account held, and leaves the account in the state that it was in, frozen if it was frozen, and
  -- with the same owner, mint and extensions.
  pub seize-Seized :
      (w w' : W) (t : FeeTransfer)
      → from ≢ to
      → seize T C from to desk delegate amount w ≡ (ok t, w')
      → Seized T C from amount w w'
  unfolding seize
  seize-Seized w w' t ne h =
      let (a, loaded, h1) = continue-ok (load_account T C from w) _ w h in
      let (m, loaded', h2) = continue-ok (load_mint T C a.mint w) _ w h1 in
      let (fee, expected, h3) = continue-ok (expected_fee T m (C.epoch w) amount) _ w h2 in
      let (transfer, built, h4) = continue-ok _ _ _ h3 in
      branch-Seized L from to m.address desk delegate amount m.decimals fee transfer
        (from_program-ok _ built) ne w a loaded (is_frozen a) _ t w' refl h4
