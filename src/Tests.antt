-- ===== src/Tests.antt =====
-- A small registry that satisfies what the proofs assume of Windows, and each theorem at work on a
-- concrete input.
mod Machine
mod Components
mod Optimizers
mod Life
mod Healing
mod Session
