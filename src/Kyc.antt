-- ===== src/Kyc.antt =====
-- remit/src/kyc.rs: the freeze and thaw desk.
pub mod Gate
pub mod Desk
pub mod Steps
pub mod Lasting
use mathlib.Core.Logic.{ite}
use native.Mathlib.Decide.{ℕ_discrete}
use token_22_cts.Prelude.{ℕ, Bool, true, false, not, List, [], ◌∷◌, if◌then◌else◌}
use token_22_cts.Solana.{Address, Keypair}
use token_22_cts.Error.{
  Error, invalid, lacks_immutable_owner, kyc_already_approved, already_frozen, Result, ok, err,
}
use token_22_cts.Cluster.{Cluster, Flow, pure, lift, asks, try, ◌>>=◌, ◌>>◌}
use token_22_cts.Token22.{Token22, AccountState, ExtensionType, immutable_owner}
use token_22_cts.State.{AccountSnapshot, is_frozen, load_account}

unfoldable pub ExtensionType-discrete : Discrete ExtensionType
ExtensionType-discrete = hlevel ℕ_discrete

-- `Vec::contains`
unfoldable pub contains : List ExtensionType → ExtensionType → Bool
contains [] e = false
contains (x ∷ xs) e = ite (ExtensionType-discrete x e) true (contains xs e)

-- `if test { return Err(e) }`
abbrev pub refuse_if : {W : Type 0} → Bool → Error → Flow W (Unit {0})
refuse_if test e = lift (if test then err e else ok tt)

module _ {W : Type 0} (T : Token22) (C : Cluster W) where
  unfoldable pub approve_kyc : Address → Keypair → Flow W (Unit {0})
  approve_kyc token_account freeze_authority = do
    account ← asks (load_account T C token_account)
    refuse_if (not (contains account.extensions immutable_owner))
        (invalid (lacks_immutable_owner token_account))
    refuse_if (not (is_frozen account)) (invalid (kyc_already_approved token_account))
    instruction ← try (T.thaw_account T.id token_account account.mint freeze_authority.pubkey [])
    C.send (instruction ∷ []) (freeze_authority ∷ [])
    pure tt

  unfoldable pub revoke_kyc : Address → Keypair → Flow W (Unit {0})
  revoke_kyc token_account freeze_authority = do
    account ← asks (load_account T C token_account)
    refuse_if (is_frozen account) (invalid (already_frozen token_account))
    instruction ← try (T.freeze_account T.id token_account account.mint freeze_authority.pubkey [])
    C.send (instruction ∷ []) (freeze_authority ∷ [])
    pure tt

  unfoldable pub set_default_account_state : Address → Keypair → AccountState → Flow W (Unit {0})
  set_default_account_state mint freeze_authority state = do
    instruction ← try (T.update_default_account_state T.id mint freeze_authority.pubkey [] state)
    C.send (instruction ∷ []) (freeze_authority ∷ [])
    pure tt
