-- ===== src/Cluster/Inversion.antt =====
-- remit/src/cluster.rs: how the `?` chains of the flows are taken apart. A chain that returned a value
-- has passed each of its steps.
use token_22_cts.Prelude.{
  ◌≡◌, refl, ◌⊎◌, inl, inr, Bool, true, false, if◌then◌else◌, Option, none, some, List,
}
use token_22_cts.Solana.{Keypair, Instruction, ProgramError}
use token_22_cts.Error.{Error, Result, ok, err, panicked, and_then, ok_or}
use token_22_cts.Cluster.{Cluster, Flow, Receipt, from_program, continue, ◌>>=◌}
use token_22_cts.Cluster.Recorded.{is_ok}

pub continue-ok :
    {W A B : Type 0} (r : Result A Error) (f : A → Flow W B) (v : W) {b : B} {w : W}
    → continue r f v ≡ (ok b, w)
    → (a : A) × (r ≡ ok a) × (f a v ≡ (ok b, w))
continue-ok (ok a) f v h = (a, refl, h)
continue-ok (err e) f v h = cc
continue-ok panicked f v h = cc

pub from_program-ok :
    {A : Type 0} (r : Result A ProgramError) {a : A} → from_program r ≡ ok a → r ≡ ok a
from_program-ok (ok a) h = cc
from_program-ok (err e) h = cc
from_program-ok panicked h = cc

pub and_then-ok :
    {A B E : Type 0} (r : Result A E) (f : A → Result B E) {b : B}
    → and_then r f ≡ ok b
    → (a : A) × (r ≡ ok a) × (f a ≡ ok b)
and_then-ok (ok a) f h = (a, refl, h)
and_then-ok (err e) f h = cc
and_then-ok panicked f h = cc

pub ok_or-ok : {A E : Type 0} (o : Option A) (e : E) {a : A} → ok_or o e ≡ ok a → o ≡ some a
ok_or-ok none e h = cc
ok_or-ok (some a) e h = cc

pub send-ok :
    {W B : Type 0} (C : Cluster W) (is : List Instruction) (keys : List Keypair)
    (f : Receipt → Flow W B) (v : W) {b : B} {w : W}
    → (C.send is keys >>= f) v ≡ (ok b, w)
    → (receipt : Receipt) × ((C.send is keys v).0 ≡ ok receipt)
      × (f receipt (C.send is keys v).1 ≡ (ok b, w))
send-ok C is keys f v h = continue-ok (C.send is keys v).0 f (C.send is keys v).1 h

pub ok-injective : {A E : Type 0} {a b : A} → ◌≡◌ {A = Result A E} (ok a) (ok b) → a ≡ b
ok-injective h = cc

pub Result-cases :
    {A E : Type 0} (r : Result A E)
    → ((a : A) × (r ≡ ok a)) ⊎ (((e : E) × (r ≡ err e)) ⊎ (r ≡ panicked))
Result-cases (ok a) = inl (a, refl)
Result-cases (err e) = inr (inl (e, refl))
Result-cases panicked = inr (inr refl)

pub test-ok :
    {A E : Type 0} (b : Bool) (r : Result A E) (e : E) {a : A}
    → (if b then r else err e) ≡ ok a
    → (b ≡ true) × (r ≡ ok a)
test-ok true r e h = (refl, h)
test-ok false r e h = cc

pub bind-ok :
    {W A B : Type 0} (m : Flow W A) (f : A → Flow W B) (v : W) {b : B} {w : W}
    → (m >>= f) v ≡ (ok b, w)
    → (a : A) × ((m v).0 ≡ ok a) × (f a (m v).1 ≡ (ok b, w))
bind-ok m f v h = continue-ok (m v).0 f (m v).1 h

-- What holds where a step has failed and where the steps after it have run holds at the end.
pub continue_rule :
    {V A B : Type 0} (Q : V → Type 0) (r : Result A Error) (f : A → Flow V B) (v : V)
    → (is_ok r ≡ false → Q v)
    → ((a : A) → r ≡ ok a → Q (f a v).1)
    → Q (continue r f v).1
continue_rule Q (ok a) f v h g = g a refl
continue_rule Q (err e) f v h g = h refl
continue_rule Q panicked f v h g = h refl
