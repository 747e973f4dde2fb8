-- ===== src/Lib.antt =====
-- The library of rUSD, a Token-2022 stablecoin, and its two on-chain programs.
--
-- The client library (remit/src) drives a Solana cluster through one trait, `Cluster`: it reads
-- accounts, builds instructions of Token-2022 and of a few other programs, and sends transactions. The
-- programs are the agent that pays mandates (programs/remit-agent) and a probe for the tests
-- (programs/cpi-guard-probe).
--
-- How the code is modelled. The state of the world outside the library, the chain and the system's
-- random source, is a type `W`. A flow is a function `W → Result A Error × W`: a read through `&self`
-- leaves the world alone, `send` and the drawing of keys change it, and `?` ends the flow with the
-- world as it is. `Result` has a third case, `panicked`, for the overflow checks that the release
-- profile keeps. Numbers are unbounded with the bounds of `u64` and `u32` written out where the code
-- adds, subtracts or multiplies. A method on `&mut self` is a flow on the world and the object.
-- `Cluster/Recorded` keeps a log of the transactions that are sent, with their outcomes; theorems on
-- what a flow sends hold of every cluster through it. `Cluster/Ledger` and `Cluster/Frame` are the
-- documented behaviour of a chain that the KYC and seizure theorems rely on; `Tests/Toy` and
-- `Tests/Framed` have a chain that behaves so.
--
-- Files. Each names the source file that it is about.
--   Error, Error/Codes: remit/src/error.rs.
--   Cluster and below: remit/src/cluster.rs (the trait, the size of a transaction).
--   State, State/Decode: remit/src/state.rs (`decode_mint` is `MintSnapshot::decode`).
--   Transfer and below: remit/src/transfer.rs. Kyc and below: remit/src/kyc.rs; `Kyc/Steps` has the
--     desk's calls as steps between worlds, and the machine that they follow.
--   Compliance and below: remit/src/compliance.rs. Token: remit/src/token.rs.
--   Mint and below: remit/src/mint.rs (`generate_authorities` is `Authorities::generate`).
--   Proofs and below: remit/src/proofs.rs. `Record.fill` is the loop of `stage_from_record`,
--     `Chunk` the binary search `largest_chunk`, `Close` the packing of close instructions, `Consume`
--     the final transaction. `Trail` relates the log to the proof accounts that must be closed.
--   Confidential and below: remit/src/confidential.rs. `Debit` has what transfer and withdraw share,
--     `Closing` and `Withdrawing` how they end, with the proof accounts that they create, and
--     `Reading`, `Steady`, `Calm` and `CalmWithdraw` that none of their steps panics.
--   Operations: the operations of several files that send one transaction, against their plans.
--   Program: the on-chain runtime. Agent and below: programs/remit-agent/src/lib.rs. Probe and below:
--     programs/cpi-guard-probe/src/lib.rs.
--   Solana, Token22, Random and the modules named Interface: the external crates, as data and as
--     records of functions that the definitions take as parameters. Nothing is assumed of them but
--     where a theorem has a hypothesis.
--   Prelude: names of the library, lists measured by native numbers, little-endian words.
--   Tests: a sample chain and the theorems applied on it.
--
-- Loops. `search_chunk` runs on fuel, with the length of the data, and `fill` too, with the length of
-- the bytes: each round shrinks the interval, or writes at least one byte, so that much fuel is enough
-- (`Proofs/Rounds`). All other loops are structural.
--
-- Not modelled: the serialization of messages, cryptography, the interface crates' instruction bytes
-- and the programs they reach (all parameters), log messages, the texts of errors, and the tests.
pub mod Prelude
pub mod Solana
pub mod Error
pub mod Cluster
pub mod Token22
pub mod State
pub mod Transfer
pub mod Kyc
pub mod Compliance
pub mod Token
pub mod Random
pub mod Mint
pub mod Proofs
pub mod Confidential
pub mod Program
pub mod Operations
pub mod Agent
pub mod Probe
pub mod Tests
