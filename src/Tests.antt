-- ===== src/Tests.antt =====
-- Runs of the model on concrete inputs.
mod Voting
mod Rules
mod Access
mod Members
mod Tokens
mod Quotas
mod Settling
mod Tasks
mod Canceling
mod Casting
mod Rotating
