-- ===== src/Tests.antt =====
-- Tests of the models on concrete packets.
mod Toy
mod Windows
mod Tables
mod Outages
mod Replays
mod Freezes
mod Forwards
mod Loops
mod Held
mod Handovers
mod Registries
mod Starts
mod Tasks
mod Carries
