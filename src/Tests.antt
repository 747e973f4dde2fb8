-- ===== src/Tests.antt =====
-- A sample chain and the theorems run on it.
pub mod Sample
pub mod Toy
pub mod Framed
pub mod Flows
pub mod Programs
pub mod Bound
pub mod Staged
mod Spent
pub mod Hidden
pub mod Settled
pub mod Calmed
pub mod Operated
pub mod Minted
