-- ===== src/Random.antt =====
-- The system's random source, from which `Keypair::new` and `ElGamalKeypair::new_rand` draw
-- (remit/src/mint.rs, remit/src/proofs.rs). It is a part of the world.
use token_22_cts.Solana.{Bytes, Keypair}

pub record ElGamalKeypair : Type 0 where
  pub pubkey : Bytes
  pub secret : Bytes

pub record Random (W : Type 0) : Type 0 where
  pub new_keypair : W → Keypair × W
  pub new_elgamal : W → ElGamalKeypair × W

-- Drawing on a recorded cluster leaves the log as it is.
abbrev pub recorded_random : {W L : Type 0} → Random W → Random (W × L)
recorded_random R = record {
  new_keypair = λ v. let (k, w) = R.new_keypair v.0 in (k, (w, v.1));
  new_elgamal = λ v. let (k, w) = R.new_elgamal v.0 in (k, (w, v.1));
}
