-- ===== src/Examples.antt =====
-- Runs of the program at concrete inputs.
mod Patterns
mod Parsing
mod Accounts
mod Tables
mod Reviewing
mod Evaluation
mod Reports
mod Dco
mod Epochs
mod Webhooks
mod Cache
mod Queue
