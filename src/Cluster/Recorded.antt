-- ===== src/Cluster/Recorded.antt =====
-- A cluster that keeps a log of the transactions that are handed to it, newest first. It is how the
-- theorems speak of what a flow sends: they hold for every cluster, through its recorded version.
use token_22_cts.Prelude.{Bool, true, false, List, ◌∷◌}
use token_22_cts.Solana.{Keypair, Instruction}
use token_22_cts.Error.{Error, Result, ok, err, panicked}
use token_22_cts.Cluster.{Cluster}

pub record Sent : Type 0 where
  pub instructions : List Instruction
  pub signers : List Keypair
  pub landed : Bool

abbrev pub Log : Type 0
Log = List Sent

abbrev pub is_ok : {A E : Type 0} → Result A E → Bool
is_ok (ok a) = true
is_ok (err e) = false
is_ok panicked = false

abbrev pub recorded : {W : Type 0} → Cluster W → Cluster (W × Log)
recorded C = record {
  payer = λ v. C.payer v.0;
  account_data = λ a v. C.account_data a v.0;
  lamports = λ a v. C.lamports a v.0;
  epoch = λ v. C.epoch v.0;
  minimum_balance_for_rent_exemption = λ n v. C.minimum_balance_for_rent_exemption n v.0;
  send = λ instructions signers v.
      let (r, w) = C.send instructions signers v.0 in
      (r, (w, record { instructions = instructions; signers = signers; landed = is_ok r } ∷ v.1));
}

-- A flow's outcome on a recorded cluster.
abbrev pub Outcome : Type 0 → Type 0 → Type 0
Outcome W A = Result A Error × (W × Log)

-- The log after the flow.
abbrev pub log_of : {W A : Type 0} → Outcome W A → Log
log_of o = o.1.1
