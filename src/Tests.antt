-- ===== src/Tests.antt =====
-- Runs at concrete inputs: each uses a theorem where its hypotheses hold.
mod Pure
mod Wire
mod Transfers
mod Loop
mod Sending
mod Entry
mod Running
mod Phases
mod Content
