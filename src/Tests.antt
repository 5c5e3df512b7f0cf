-- ===== src/Tests.antt =====
-- Runs of the model, and the theorems at inputs that meet their hypotheses.
mod Ipam
mod Registry
mod Service
mod Types
mod Lbm
mod Leader
mod Files
mod Watch
mod Texts
mod Start
mod Network
mod Entry
mod Race
mod Endless
mod Runs
mod Requested
mod Recover
mod Machine
mod Sweep
mod Groups
mod Leftover
