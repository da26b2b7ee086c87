-- ===== src/Tests.antt =====
-- Runs of the definitions at concrete inputs, and each theorem with hypotheses at one.
mod Matching
mod Selecting
mod Quotas
mod Caching
mod Limiting
mod Bypassing
mod Admitting
mod Faking
mod Hopping
mod Ruling
mod Entering
mod Chaining
mod Framing
mod Registering
mod Naming
mod Sharing
mod Counting
mod Routes
