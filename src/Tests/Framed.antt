-- ===== src/Tests/Framed.antt =====
-- The sample's chain has the frame that Cluster/Frame asks for, and the KYC desk's runs on it.
use token_22_cts.Prelude.{
  ◌≡◌, ◌≢◌, refl, sym, ap, ◌∙◌, true, false, Bool, Option, none, some, bytes_eq, bytes_eq-eq, inl,
  inr, Bool-cases, arith,
}
use token_22_cts.Solana.{Address}
use token_22_cts.Error.{ok}
use token_22_cts.Cluster.Inversion.{ok-injective}
use token_22_cts.Cluster.Recorded.{is_ok}
use token_22_cts.Cluster.Ledger.{run}
use token_22_cts.Cluster.Frame.{Frame}
use token_22_cts.Token22.{immutable_owner}
use token_22_cts.Kyc.{contains, approve_kyc, revoke_kyc}
use token_22_cts.Kyc.Steps.{approving, revoking, DeskRun, idle, then, Turns, step-Turns}
use token_22_cts.Kyc.Lasting.{Follows, run-Follows, run-locked}
use token_22_cts.State.{AccountSnapshot, fetch, decode_account, load_account}
use token_22_cts.Tests.Sample.{Cell, token, coin, Chain, put, toy, start, at, key}
use token_22_cts.Tests.Toy.{refreeze, landed_or_not, execute, cluster, ledger, shot, ledger-execute}

cells-load :
    (b : Address) (w w' : Chain) (s : AccountSnapshot)
    → w'.cells b ≡ w.cells b
    → load_account toy cluster b w ≡ ok s
    → load_account toy cluster b w' ≡ ok s
unfolding load_account fetch
cells-load b w w' s same h = rw same h

refreeze-keeps :
    (account b : Address) (flag : Bool) (w w' : Chain)
    → refreeze account flag w ≡ some w'
    → b ≢ account
    → w'.cells b ≡ w.cells b
refreeze-keeps account b flag w w' h ne = split (w.cells account) refl
  where
    apart : bytes_eq b account ≡ false
    apart = elim (Bool-cases (bytes_eq b account)) [
      | inl e ↦ absurd (ne (bytes_eq-eq b account e))
      | inr e ↦ e
    ]

    split : (o : Option Cell) → w.cells account ≡ o → w'.cells b ≡ w.cells b
    split none e = absurd (ground arith)
    split (some (coin d)) e = absurd (ground arith)
    split (some (token n old)) e =
        let moved : put account (token n flag) w ≡ w' = ground arith in
        ap (λ (c : Chain). c.cells b) (sym moved) ∙ rw apart

frame : Frame ledger
frame = record {
  send_failed = λ is keys w b s h loaded. unlanded (run execute is w) w b s h loaded;
  thaw_frames = λ account mint authority i w w' b s built ran ne loaded.
      cells-load b w w' s
        (refreeze-keeps account b false w w'
          (ap (λ j. execute j w) (ok-injective built) ∙ sym (ledger-execute i w) ∙ ran) ne)
        loaded;
  freeze_frames = λ account mint authority i w w' b s built ran ne loaded.
      cells-load b w w' s
        (refreeze-keeps account b true w w'
          (ap (λ j. execute j w) (ok-injective built) ∙ sym (ledger-execute i w) ∙ ran) ne)
        loaded;
  update_default_frames = λ mint authority state i w w' b s built ran loaded.
      cells-load b w w' s
        (ap (λ (o : Option Chain). elim o [ none ↦ w.cells b | some c ↦ c.cells b ])
          (sym (ap (λ j. execute j w) (ok-injective built) ∙ sym (ledger-execute i w) ∙ ran)))
        loaded;
}
  where
    unlanded :
        (o : Option Chain) (w : Chain) (b : Address) (s : AccountSnapshot)
        → is_ok (landed_or_not w o).0 ≡ false
        → load_account toy cluster b w ≡ ok s
        → load_account toy cluster b (landed_or_not w o).1 ≡ ok s
    unlanded none w b s h loaded = loaded
    unlanded (some w') w b s h loaded = absurd (ground arith)

-- The desk approves the first account, tries the fourth, which has no fixed owner, and revokes the
-- first again.
abbrev after_one : Chain
after_one = (approve_kyc toy cluster (at 1) (key 21) start).1

abbrev after_two : Chain
after_two = (approve_kyc toy cluster (at 4) (key 21) after_one).1

abbrev after_three : Chain
after_three = (revoke_kyc toy cluster (at 1) (key 21) after_two).1

abbrev day : DeskRun toy cluster start after_three
day =
    then (then (then idle (approving (at 1) (key 21) start)) (approving (at 4) (key 21) after_one))
      (revoking (at 1) (key 21) after_two)

first_loads : load_account toy cluster (at 1) start ≡ ok (shot (at 1) 5_000 true)
unfolding load_account fetch decode_account bytes_eq
first_loads = refl

fourth_loads : load_account toy cluster (at 4) start ≡ ok (shot (at 4) 700 true)
unfolding load_account fetch decode_account bytes_eq
fourth_loads = refl

not_fixed : contains (shot (at 4) 700 true).extensions immutable_owner ≡ false
unfolding contains bytes_eq
not_fixed = refl

step-Turns_example : Turns frame (at 1) (shot (at 1) 5_000 true) after_one
step-Turns_example =
    step-Turns frame (at 1) (shot (at 1) 5_000 true) (approving (at 1) (key 21) start) first_loads

run-Follows_example : Follows frame (at 1) (shot (at 1) 5_000 true) after_three
run-Follows_example = run-Follows frame (at 1) (shot (at 1) 5_000 true) day first_loads

run-locked_example : load_account toy cluster (at 4) after_three ≡ ok (shot (at 4) 700 true)
run-locked_example = run-locked frame (at 4) (shot (at 4) 700 true) day fourth_loads not_fixed refl
