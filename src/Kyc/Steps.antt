-- ===== src/Kyc/Steps.antt =====
-- remit/src/kyc.rs: the desk over time. Its operations are steps between worlds, and each of them is a
-- turn of a small machine on the state of every token account.
use token_22_cts.Prelude.{
  ◌≡◌, ◌≢◌, ◌⊎◌, inl, inr, sym, ap, subst, Bool, true, false, Bool-cases, some, List, [], ◌∷◌,
  bytes_eq, bytes_eq_refl, bytes_eq-eq, ◌∙◌, arith,
}
use token_22_cts.Solana.{Address, Keypair, Instruction}
use token_22_cts.Error.{ok}
use token_22_cts.Cluster.{Cluster}
use token_22_cts.Cluster.Inversion.{ok-injective}
use token_22_cts.Cluster.Recorded.{is_ok}
use token_22_cts.Cluster.Ledger.{Ledger}
use token_22_cts.Cluster.Frame.{Frame}
use token_22_cts.Token22.{Token22, AccountState, immutable_owner, initialized, frozen}
use token_22_cts.State.{AccountSnapshot, is_frozen, is_frozen_state, load_account}
use token_22_cts.Kyc.{contains, approve_kyc, revoke_kyc, set_default_account_state}

-- One call of the desk, whatever it returns.
pub data DeskStep {W : Type 0} (T : Token22) (C : Cluster W) : W → W → Type 0 where
  approving :
      (account : Address) (authority : Keypair) (w : W)
      → DeskStep T C w (approve_kyc T C account authority w).1
  revoking :
      (account : Address) (authority : Keypair) (w : W)
      → DeskStep T C w (revoke_kyc T C account authority w).1
  setting :
      (mint : Address) (authority : Keypair) (state : AccountState) (w : W)
      → DeskStep T C w (set_default_account_state T C mint authority state w).1

pub data DeskRun {W : Type 0} (T : Token22) (C : Cluster W) : W → W → Type 0 where
  idle : {w : W} → DeskRun T C w w
  then : {u v w : W} → DeskRun T C u v → DeskStep T C v w → DeskRun T C u w

-- The machine: an account stays as it is; a frozen one with a fixed owner is thawed; one that is not
-- frozen is frozen.
pub data Turn (fixed : Bool) : AccountState → AccountState → Type 0 where
  stays : {s : AccountState} → Turn fixed s s
  thaws : fixed ≡ true → Turn fixed frozen initialized
  freezes : {s : AccountState} → is_frozen_state s ≡ false → Turn fixed s frozen

module _ {W : Type 0} (T : Token22) (C : Cluster W) (address : Address) (desk : Keypair)
    (w : W) where
  -- The world is left alone, or handed one thaw of a frozen account with a fixed owner.
  approve_kyc-sent :
      ((approve_kyc T C address desk w).1 ≡ w)
      ⊎ ((a : AccountSnapshot) × (thaw : Instruction) × (load_account T C address w ≡ ok a)
          × (contains a.extensions immutable_owner ≡ true)
          × (a.state ≡ frozen)
          × (T.thaw_account T.id address a.mint desk.pubkey [] ≡ ok thaw)
          × ((approve_kyc T C address desk w).1 ≡ (C.send (thaw ∷ []) (desk ∷ []) w).1))
  unfolding approve_kyc
  approve_kyc-sent = ground arith

  revoke_kyc-sent :
      ((revoke_kyc T C address desk w).1 ≡ w)
      ⊎ ((a : AccountSnapshot) × (freeze : Instruction) × (load_account T C address w ≡ ok a)
          × (is_frozen a ≡ false)
          × (T.freeze_account T.id address a.mint desk.pubkey [] ≡ ok freeze)
          × ((revoke_kyc T C address desk w).1 ≡ (C.send (freeze ∷ []) (desk ∷ []) w).1))
  unfolding revoke_kyc
  revoke_kyc-sent = ground arith

  set_default_account_state-sent :
      (state : AccountState)
      → ((set_default_account_state T C address desk state w).1 ≡ w)
        ⊎ ((i : Instruction) × (T.update_default_account_state T.id address desk.pubkey [] state
              ≡ ok i)
            × ((set_default_account_state T C address desk state w).1
                ≡ (C.send (i ∷ []) (desk ∷ []) w).1))
  unfolding set_default_account_state
  set_default_account_state-sent state = ground arith

module _ {W : Type 0} {T : Token22} {C : Cluster W} {L : Ledger T C} (F : Frame L) where
  -- A transaction of one instruction has run it, or has left the account.
  sent-one :
      (i : Instruction) (keys : List Keypair) (w : W) (b : Address) (s : AccountSnapshot)
      → load_account T C b w ≡ ok s
      → (L.execute i w ≡ some (C.send (i ∷ []) keys w).1)
        ⊎ (load_account T C b (C.send (i ∷ []) keys w).1 ≡ ok s)
  sent-one i keys w b s h = elim (Bool-cases (is_ok (C.send (i ∷ []) keys w).0)) [
    | inl landed ↦ inl (ground (arith, L.send_ok (i ∷ []) keys w landed))
    | inr failed ↦ inr (F.send_failed (i ∷ []) keys w b s failed h)
  ]

  -- The account is the same but for its state, which has made a turn.
  abbrev pub Turns : Address → AccountSnapshot → W → Type 0
  Turns b s w' =
      (state : AccountState) × (load_account T C b w' ≡ ok (record s { state = state }))
      × Turn (contains s.extensions immutable_owner) s.state state

  unturned :
      (b : Address) (s : AccountSnapshot) (w' : W) → load_account T C b w' ≡ ok s → Turns b s w'
  unturned b s w' h = (s.state, h, stays)

  same_or_other : (b account : Address) → (b ≡ account) ⊎ (b ≢ account)
  same_or_other b account = elim (Bool-cases (bytes_eq b account)) [
    | inl e ↦ inl (bytes_eq-eq b account e)
    | inr e ↦ inr (λ same. ground (arith, bytes_eq_refl account, ap (λ x. bytes_eq x account) same))
  ]

  -- The thaw of a frozen account with a fixed owner, sent.
  thaw-Turns :
      (b account : Address) (desk : Keypair) (w : W) (s a : AccountSnapshot) (thaw : Instruction)
      → load_account T C b w ≡ ok s
      → load_account T C account w ≡ ok a
      → contains a.extensions immutable_owner ≡ true
      → a.state ≡ frozen
      → T.thaw_account T.id account a.mint desk.pubkey [] ≡ ok thaw
      → Turns b s (C.send (thaw ∷ []) (desk ∷ []) w).1
  thaw-Turns b account desk w s a thaw h la owner cold built =
      elim (sent-one thaw (desk ∷ []) w b s h) [
        | inr kept ↦ unturned b s _ kept
        | inl ran ↦ elim (same_or_other b account) [
          | inr other ↦
              unturned b s _
                (F.thaw_frames account a.mint desk.pubkey thaw w _ b s built ran other h)
          | inl same ↦
              let one = ok-injective (sym la ∙ ap (λ x. load_account T C x w) (sym same) ∙ h) in
              subst (λ x. Turns b x (C.send (thaw ∷ []) (desk ∷ []) w).1) one
                (
                  initialized,
                  ap (λ x. load_account T C x (C.send (thaw ∷ []) (desk ∷ []) w).1) same
                      ∙ L.thaw_executes account a.mint desk.pubkey thaw w _ a built ran la,
                  subst (λ x. Turn (contains a.extensions immutable_owner) x initialized) (sym cold)
                      (thaws owner),
                )
        ]
      ]

  -- The freeze of an account that was not frozen, sent.
  freeze-Turns :
      (b account : Address) (desk : Keypair) (w : W) (s a : AccountSnapshot) (freeze : Instruction)
      → load_account T C b w ≡ ok s
      → load_account T C account w ≡ ok a
      → is_frozen a ≡ false
      → T.freeze_account T.id account a.mint desk.pubkey [] ≡ ok freeze
      → Turns b s (C.send (freeze ∷ []) (desk ∷ []) w).1
  freeze-Turns b account desk w s a freeze h la warm built =
      elim (sent-one freeze (desk ∷ []) w b s h) [
        | inr kept ↦ unturned b s _ kept
        | inl ran ↦ elim (same_or_other b account) [
          | inr other ↦
              unturned b s _
                (F.freeze_frames account a.mint desk.pubkey freeze w _ b s built ran other h)
          | inl same ↦
              let one = ok-injective (sym la ∙ ap (λ x. load_account T C x w) (sym same) ∙ h) in
              subst (λ x. Turns b x (C.send (freeze ∷ []) (desk ∷ []) w).1) one
                (
                  frozen,
                  ap (λ x. load_account T C x (C.send (freeze ∷ []) (desk ∷ []) w).1) same
                      ∙ L.freeze_executes account a.mint desk.pubkey freeze w _ a built ran la,
                  freezes warm,
                )
        ]
      ]

  -- On a chain that is a `Ledger` with a `Frame`, every call of the desk, for any account or mint and
  -- whatever it returns, is a turn of the machine for every token account, and changes nothing but
  -- the account's state.
  pub step-Turns :
      (b : Address) (s : AccountSnapshot) {w w' : W}
      → DeskStep T C w w'
      → load_account T C b w ≡ ok s
      → Turns b s w'
  step-Turns b s (approving account desk w) h = elim (approve_kyc-sent T C account desk w) [
    | inl same ↦ unturned b s _ (ap (load_account T C b) same ∙ h)
    | inr (a, thaw, la, owner, cold, built, sent) ↦
        subst (Turns b s) (sym sent) (thaw-Turns b account desk w s a thaw h la owner cold built)
  ]
  step-Turns b s (revoking account desk w) h = elim (revoke_kyc-sent T C account desk w) [
    | inl same ↦ unturned b s _ (ap (load_account T C b) same ∙ h)
    | inr (a, freeze, la, warm, built, sent) ↦
        subst (Turns b s) (sym sent) (freeze-Turns b account desk w s a freeze h la warm built)
  ]
  step-Turns b s (setting mint desk state w) h =
      elim (set_default_account_state-sent T C mint desk w state) [
        | inl same ↦ unturned b s _ (ap (load_account T C b) same ∙ h)
        | inr (i, built, sent) ↦ unturned b s _ (
            ap (load_account T C b) sent ∙ elim (sent-one i (desk ∷ []) w b s h) [
              | inl ran ↦ F.update_default_frames mint desk.pubkey state i w _ b s built ran h
              | inr kept ↦ kept
            ])
      ]
