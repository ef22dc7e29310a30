-- ===== src/Examples.antt =====
-- Concrete runs: the theorems at small inputs, and tests of the definitions.
mod Jobs
mod Indexing
mod Requests
mod Answers
mod Disk
mod Overview
mod Conversations
mod Records
