-- ===== src/Tests.antt =====
-- The theorems at concrete inputs, and runs of the definitions.
mod Dse
mod Datalog
mod Bags
mod Graphs
mod Names
mod Rules
mod Dependencies
mod Database
mod Builtins
mod References
mod Schemas
mod RuleSets
