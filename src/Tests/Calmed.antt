-- ===== src/Tests/Calmed.antt =====
-- The theorems on debits that do not panic, run with the cipher of Hidden.
use token_22_cts.Prelude.{List, ◌≢◌, [], ◌∷◌, zero, suc}
use token_22_cts.Error.{Result, ok, err, panicked}
use token_22_cts.Cluster.Recorded.{recorded}
use token_22_cts.Random.{recorded_random}
use token_22_cts.Cluster.Inversion.{ok-injective}
use token_22_cts.Token22.{ExtensionType, MintState, TokenAccountState}
use token_22_cts.Confidential.Interface.{recorded_confidential}
use token_22_cts.Confidential.Transfer.{transfer}
use token_22_cts.Confidential.Withdraw.{withdraw}
use token_22_cts.Confidential.Reading.{DecodesCalmly, ok-calm, err-calm}
use token_22_cts.Confidential.Calm.{transfer-calm}
use token_22_cts.Confidential.CalmWithdraw.{withdraw-calm}
use token_22_cts.Tests.Sample.{at, key, toy}
use token_22_cts.Tests.Toy.{cluster}
use token_22_cts.Tests.Staged.{random}
use token_22_cts.Tests.Spent.{never_panics}
use token_22_cts.Tests.Hidden.{cipher, keys, wide, log_start}
use token_22_cts.Solana.{Bytes, ProgramError}
use token_22_cts.Prelude.{◌≡◌, subst}

-- Neither a decoder nor the list of extensions of what it decodes panics.
abbrev Decodes :
    {S : Type 0} → (S → Result (List ExtensionType) ProgramError) → Result S ProgramError → Type 0
Decodes {S} types r = (r ≢ panicked) × ((s : S) → r ≡ ok s → types s ≢ panicked)

abbrev mint_types : MintState → Result (List ExtensionType) ProgramError
mint_types s = s.extension_types

abbrev account_types : TokenAccountState → Result (List ExtensionType) ProgramError
account_types s = s.extension_types

refused :
    {S : Type 0} {types : S → Result (List ExtensionType) ProgramError} {e : ProgramError}
    → Decodes types (err e)
refused = (err-calm, λ s h p. cc)

decoded :
    {S : Type 0} {types : S → Result (List ExtensionType) ProgramError} {s : S}
    → types s ≢ panicked
    → Decodes types (ok s)
decoded {types} h = (ok-calm, λ s same. subst (λ x. types x ≢ panicked) (ok-injective same) h)

mint_decodes : (bytes : Bytes) → Decodes mint_types (toy.unpack_mint bytes)
mint_decodes [] = refused
mint_decodes (zero ∷ rest) = refused
mint_decodes (suc tag ∷ []) = refused
mint_decodes (suc tag ∷ decimals ∷ []) = decoded ok-calm
mint_decodes (suc tag ∷ decimals ∷ more ∷ rest) = refused

account_decodes : (bytes : Bytes) → Decodes account_types (toy.unpack_account bytes)
account_decodes [] = refused
account_decodes (zero ∷ []) = refused
account_decodes (zero ∷ amount ∷ []) = refused
account_decodes (zero ∷ amount ∷ zero ∷ []) = decoded ok-calm
account_decodes (zero ∷ amount ∷ zero ∷ more ∷ rest) = refused
account_decodes (zero ∷ amount ∷ suc flag ∷ []) = decoded ok-calm
account_decodes (zero ∷ amount ∷ suc flag ∷ more ∷ rest) = refused
account_decodes (suc zero ∷ rest) = refused
account_decodes (suc (suc zero) ∷ []) = refused
account_decodes (suc (suc zero) ∷ amount ∷ []) = refused
account_decodes (suc (suc zero) ∷ amount ∷ zero ∷ []) = decoded ok-calm
account_decodes (suc (suc zero) ∷ amount ∷ zero ∷ more ∷ rest) = refused
account_decodes (suc (suc zero) ∷ amount ∷ suc flag ∷ []) = decoded ok-calm
account_decodes (suc (suc zero) ∷ amount ∷ suc flag ∷ more ∷ rest) = refused
account_decodes (suc (suc (suc tag)) ∷ rest) = refused

decodes : DecodesCalmly toy
decodes = (
  λ bytes. (mint_decodes bytes).0,
  λ bytes. (mint_decodes bytes).1,
  λ bytes. (account_decodes bytes).0,
  λ bytes. (account_decodes bytes).1,
)

transfer-calm_example :
    (transfer toy wide
      (recorded_confidential cipher)
      (recorded cluster)
      (recorded_random random)
      (at 2)
      (at 3)
      (key 40)
      keys
      90
      log_start).0
    ≢ panicked
transfer-calm_example =
    transfer-calm toy wide cipher cluster random never_panics decodes
      (λ ciphertext decryptable amount elgamal ae destination auditor withheld points maximum w.
        ok-calm)
      (λ id source mint destination balance lo hi owner p1 p2 p3 p4 p5. ok-calm) (at 2) (at 3)
      (key 40) keys 90 log_start

withdraw-calm_example :
    (withdraw toy wide
      (recorded_confidential cipher)
      (recorded cluster)
      (recorded_random random)
      (at 2)
      (key 40)
      keys
      90
      log_start).0
    ≢ panicked
withdraw-calm_example =
    withdraw-calm toy wide cipher cluster random never_panics decodes
      (
        λ ciphertext balance amount elgamal w. ok-calm,
        λ id account mint amount decimals balance owner p1 p2. ok-calm,
      )
      (at 2) (key 40) keys 90 log_start
