-- ===== src/Kyc/Lasting.antt =====
-- remit/src/kyc.rs: what no sequence of calls of the desk can change.
use token_22_cts.Prelude.{◌≡◌, refl, sym, ap, ◌∙◌, Bool, false}
use token_22_cts.Solana.{Address}
use token_22_cts.Error.{ok}
use token_22_cts.Cluster.{Cluster}
use token_22_cts.Cluster.Ledger.{Ledger}
use token_22_cts.Cluster.Frame.{Frame}
use token_22_cts.Token22.{Token22, AccountState, immutable_owner, frozen}
use token_22_cts.State.{AccountSnapshot, load_account}
use token_22_cts.Kyc.{contains}
use token_22_cts.Kyc.Steps.{DeskRun, idle, then, Turn, stays, thaws, freezes, step-Turns}

-- Turns of the machine, one after the other.
pub data Turned (fixed : Bool) : AccountState → AccountState → Type 0 where
  unmoved : {s : AccountState} → Turned fixed s s
  turned : {r s t : AccountState} → Turned fixed r s → Turn fixed s t → Turned fixed r t

unfixed_stays :
    (fixed : Bool) {s t : AccountState} → Turn fixed s t → fixed ≡ false → s ≡ frozen → t ≡ frozen
unfixed_stays fixed stays unfixed cold = cold
unfixed_stays fixed (thaws is_fixed) unfixed cold = absurd cc
unfixed_stays fixed (freezes warm) unfixed cold = refl

module _ {W : Type 0} {T : Token22} {C : Cluster W} {L : Ledger T C} (F : Frame L) (b : Address)
    (s : AccountSnapshot) where
  -- The account is the same but for its state, which the machine reaches.
  abbrev pub Follows : W → Type 0
  Follows w' =
      (state : AccountState) × (load_account T C b w' ≡ ok (record s { state = state }))
      × Turned (contains s.extensions immutable_owner) s.state state

  -- On a chain that is a `Ledger` with a `Frame`, after any sequence of calls of the desk every token
  -- account has the mint, the owner, the amount, the extensions and all else that it had, and a state
  -- that the machine reaches from the one it had.
  pub run-Follows : {w w' : W} → DeskRun T C w w' → load_account T C b w ≡ ok s → Follows w'
  run-Follows idle h = (s.state, h, unmoved)
  run-Follows (then run step) h =
      let (state, loaded, reached) = run-Follows run h in
      let (state', loaded', turn) = step-Turns F b (record s { state = state }) step loaded in
      (state', loaded', turned reached turn)

  -- On a chain that is a `Ledger` with a `Frame`, a frozen account without `ImmutableOwner` stays
  -- exactly as it is under every sequence of calls of the desk.
  pub run-locked :
      {w w' : W}
      → DeskRun T C w w'
      → load_account T C b w ≡ ok s
      → contains s.extensions immutable_owner ≡ false
      → s.state ≡ frozen
      → load_account T C b w' ≡ ok s
  run-locked idle h unfixed cold = h
  run-locked (then run step) h unfixed cold =
      let (state, loaded, turn) = step-Turns F b s step (run-locked run h unfixed cold) in
      let still = unfixed_stays (contains s.extensions immutable_owner) turn unfixed cold in
      loaded ∙ ap (λ x. ok (record s { state = x })) (still ∙ sym cold)
