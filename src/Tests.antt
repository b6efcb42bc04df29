-- ===== src/Tests.antt =====
-- Concrete runs of the theorems, one module for each part of the program.
mod Toy
mod Broadcasts
mod Agreements
mod Decisions
mod Coins
mod Listeners
mod Blocks
mod Subsets
mod Proposals
mod Forwards
mod Rounds
mod Nodes
mod Configurations
mod Routes
