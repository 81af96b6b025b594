-- ===== src/Examples.antt =====
-- Concrete objects and worlds, and what the theorems say of them.
mod Worlds
mod SetWorlds
mod Small
mod Runners
mod Secrets
mod Sets
mod Histories
mod Hooks
mod Metrics
mod Clients
mod Rounds
mod Servers
mod Changes
mod Copies
mod OldCopies
mod Setups
