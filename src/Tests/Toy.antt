-- ===== src/Tests/Toy.antt =====
-- The sample's chain: what its instructions do, and that it is a chain in the sense of
-- `Cluster/Ledger`.
use token_22_cts.Prelude.{
  ℕ, zero, suc, ◌+◌, ◌-◌, ◌≤◌, ◌≡◌, ◌≢◌, refl, sym, ap, ◌∙◌, subst, Bool, true, false, Option, none,
  some, List, [], ◌∷◌, map, leb, if◌then◌else◌, bytes_eq, bytes_eq_refl, bytes_eq-eq, arith,
  Bool-cases, inl, inr,
}
use token_22_cts.Solana.{Bytes, Address, AccountMeta, Instruction, TransactionError}
use token_22_cts.Error.{Error, Result, ok, err, transaction}
use token_22_cts.Cluster.{Cluster, Receipt}
use token_22_cts.Cluster.Inversion.{ok-injective}
use token_22_cts.Cluster.Recorded.{is_ok}
use token_22_cts.Cluster.Ledger.{run, Ledger, Debited}
use token_22_cts.Token22.{initialized, frozen}
use token_22_cts.State.{AccountSnapshot, fetch, decode_account, load_account}
use token_22_cts.Tests.Sample.{
  Cell, token, coin, Chain, encode, is_loose, extensions_of, put, at, coin_at, toy, hidden,
}

abbrev pub refreeze : Address → Bool → Chain → Option Chain
refreeze a flag w = elim (w.cells a) [
  | none ↦ none
  | some c ↦ elim c [ token amount old ↦ some (put a (token amount flag) w) | coin d ↦ none ]
]

abbrev credit : Address → ℕ → Chain → Option Chain
credit a amount w = elim (w.cells a) [
  | none ↦ none
  | some c ↦ elim c [
    | token held flag ↦ if flag then none else some (put a (token (held + amount) false) w)
    | coin d ↦ none
  ]
]

abbrev debit : Address → ℕ → Chain → Option Chain
debit a amount w = elim (w.cells a) [
  | none ↦ none
  | some c ↦ elim c [
    | token held flag ↦
        if flag
        then none
        else if leb amount held
        then some (put a (token (held - amount) false) w)
        else none
    | coin d ↦ none
  ]
]

abbrev move : Address → Address → ℕ → ℕ → Chain → Option Chain
move source destination amount fee w = elim (debit source amount w) [
  | none ↦ none
  | some w' ↦ credit destination (amount - fee) w'
]

abbrev perform : Bytes → List Address → Chain → Option Chain
perform (suc zero ∷ []) (a ∷ []) w = refreeze a false w
perform (suc (suc zero) ∷ []) (a ∷ []) w = refreeze a true w
perform (suc (suc (suc zero)) ∷ amount ∷ fee ∷ []) (s ∷ d ∷ []) w = move s d amount fee w
perform (suc (suc (suc (suc zero))) ∷ []) (a ∷ []) w = credit a 6 w
perform bytes accounts w = some w

abbrev pub execute : Instruction → Chain → Option Chain
execute i w = perform i.instruction_data (map (λ (m : AccountMeta). m.pubkey) i.accounts) w

abbrev pub receipt : Receipt
receipt = record { compute_units = 0; size = 0; logs = [] }

abbrev pub landed_or_not : Chain → Option Chain → Result Receipt Error × Chain
landed_or_not w none = (err (transaction (TransactionError.other 0) []), w)
landed_or_not w (some w') = (ok receipt, w')

abbrev pub cluster : Cluster Chain
cluster = record {
  payer = λ w. at 9;
  account_data = λ a w. elim (w.cells a) [ none ↦ none | some c ↦ some (encode (is_loose a) c) ];
  lamports = λ a w. 1;
  epoch = λ w. 4;
  minimum_balance_for_rent_exemption = λ n w. n + 10;
  send = λ is keys w. landed_or_not w (run execute is w);
}

abbrev pub shot : Address → ℕ → Bool → AccountSnapshot
shot address amount flag = record {
  address = address;
  mint = coin_at;
  owner = at 40;
  amount = amount;
  state = if flag then frozen else initialized;
  delegate = none;
  delegated_amount = 0;
  extensions = extensions_of (is_loose address);
  withheld_fee = some 0;
  cpi_guard = some false;
  confidential = some hidden;
  confidential_withheld = none;
  data_len = 3;
  lamports = 1;
}

cell-load :
    (a : Address) (w : Chain) (amount : ℕ) (flag : Bool)
    → w.cells a ≡ some (token amount flag)
    → load_account toy cluster a w ≡ ok (shot a amount flag)
unfolding load_account fetch decode_account
cell-load a w amount true h = elim (Bool-cases (is_loose a)) [
  | inl loose ↦ rw (h, loose) refl
  | inr fixed ↦ rw (h, fixed) refl
]
cell-load a w amount false h = elim (Bool-cases (is_loose a)) [
  | inl loose ↦ rw (h, loose) refl
  | inr fixed ↦ rw (h, fixed) refl
]

IsToken : Address → Chain → AccountSnapshot → Type 0
IsToken a w s =
    (amount : ℕ) × (flag : Bool) × (w.cells a ≡ some (token amount flag)) × (shot a amount flag ≡ s)

load-cell :
    (a : Address) (w : Chain) (s : AccountSnapshot)
    → load_account toy cluster a w ≡ ok s
    → IsToken a w s
unfolding load_account fetch decode_account IsToken
load-cell a w s h = split (w.cells a) refl
  where
    split : (o : Option Cell) → w.cells a ≡ o → IsToken a w s
    split none e = absurd (ground arith)
    split (some (coin d)) e = absurd (ground arith)
    split (some (token n true)) e = elim (Bool-cases (is_loose a)) [
      | inl loose ↦ (n, true, e, ground arith)
      | inr fixed ↦ (n, true, e, ground arith)
    ]
    split (some (token n false)) e = elim (Bool-cases (is_loose a)) [
      | inl loose ↦ (n, false, e, ground arith)
      | inr fixed ↦ (n, false, e, ground arith)
    ]

-- What follows a change of flag.
refreeze-loads :
    (a : Address) (flag : Bool) (w w' : Chain) (s : AccountSnapshot)
    → refreeze a flag w ≡ some w'
    → load_account toy cluster a w ≡ ok s
    → load_account toy cluster a w' ≡ ok (record s { state = if flag then frozen else initialized })
unfolding IsToken
refreeze-loads a flag w w' s h loaded =
    let (n, old, cell, same) = load-cell a w s loaded in
    let moved : w' ≡ put a (token n flag) w = ground arith in
    subst
      (λ u.
        load_account toy cluster a u
        ≡ ok (record s { state = if flag then frozen else initialized }))
      (sym moved)
      (cell-load a (put a (token n flag) w) n flag (rw (bytes_eq_refl a)) ∙ λ i.
        ok (record (same i) { state = if flag then frozen else initialized }))

Moved : Address → ℕ → Chain → Chain → AccountSnapshot → Type 0
Moved source amount w w' a =
    (a.state ≡ initialized)
    × (amount ≤ a.amount)
    × ((a' : AccountSnapshot) × (load_account toy cluster source w' ≡ ok a') × Debited a amount a')

credit-keeps :
    (destination source : Address) (k : ℕ) (u w : Chain)
    → credit destination k u ≡ some w
    → bytes_eq source destination ≡ false
    → w.cells source ≡ u.cells source
credit-keeps destination source k u w h apart = split (u.cells destination) refl
  where
    split : (o : Option Cell) → u.cells destination ≡ o → w.cells source ≡ u.cells source
    split none e = absurd (ground arith)
    split (some (coin d)) e = absurd (ground arith)
    split (some (token n true)) e = absurd (ground arith)
    split (some (token n false)) e =
        let moved : put destination (token (n + k) false) u ≡ w = ground arith in
        ap (λ (c : Chain). c.cells source) (sym moved) ∙ rw apart

move-steps :
    (source destination : Address) (amount fee : ℕ) (w w' : Chain)
    → move source destination amount fee w ≡ some w'
    → (u : Chain) × (debit source amount w ≡ some u)
      × (credit destination (amount - fee) u ≡ some w')
move-steps source destination amount fee w w' h = ground arith

debit-cell :
    (source : Address) (amount n : ℕ) (old : Bool) (w u : Chain)
    → w.cells source ≡ some (token n old)
    → debit source amount w ≡ some u
    → (old ≡ false) × (amount ≤ n) × (put source (token (n - amount) false) w ≡ u)
debit-cell source amount n old w u cell h = ground arith

move-loads :
    (source destination : Address) (amount fee : ℕ) (w w' : Chain) (s : AccountSnapshot)
    → move source destination amount fee w ≡ some w'
    → source ≢ destination
    → load_account toy cluster source w ≡ ok s
    → Moved source amount w w' s
unfolding Moved IsToken
move-loads source destination amount fee w w' s h ne loaded =
    let (n, old, cell, same) = load-cell source w s loaded in
    let (u, debited, credited) = move-steps source destination amount fee w w' h in
    let (live, held, put_back) = debit-cell source amount n old w u cell debited in
    let apart : bytes_eq source destination ≡ false =
      elim (Bool-cases (bytes_eq source destination)) [
        | inl e ↦ absurd (ne (bytes_eq-eq source destination e))
        | inr e ↦ e
      ] in
    let kept : w'.cells source ≡ some (token (n - amount) false) =
      credit-keeps destination source (amount - fee) u w' credited apart
      ∙ ap (λ (c : Chain). c.cells source) (sym put_back)
      ∙ rw (bytes_eq_refl source) in
    subst (λ t. Moved source amount w w' t) (ap (shot source n) (sym live) ∙ same)
      (
        refl,
        held,
        (
          shot source (n - amount) false,
          cell-load source w' (n - amount) false kept,
          (refl, refl, refl, refl, refl),
        ),
      )

pub ledger : Ledger toy cluster
unfolding Moved
ledger = record {
  execute = execute;
  send_ok = λ is keys w h. landed (run execute is w) w h;
  thaw_executes = λ account mint authority i w w' a built ran loaded.
      refreeze-loads account false w w' a (ap (λ j. execute j w) (ok-injective built) ∙ ran) loaded;
  freeze_executes = λ account mint authority i w w' a built ran loaded.
      refreeze-loads account true w w' a (ap (λ j. execute j w) (ok-injective built) ∙ ran) loaded;
  transfer_executes =
      λ source mint destination authority amount decimals fee i w w' a built ran ne loaded.
        move-loads source destination amount fee w w' a
          (ap (λ j. execute j w) (ok-injective built) ∙ ran) ne loaded;
}
  where
    landed :
        (o : Option Chain) (w : Chain)
        → is_ok (landed_or_not w o).0 ≡ true
        → o ≡ some (landed_or_not w o).1
    landed none w h = cc
    landed (some w') w h = refl

pub ledger-execute : (i : Instruction) (w : Chain) → ledger.execute i w ≡ execute i w
unfolding ledger
ledger-execute i w = refl
