-- ===== src/Datalog.antt =====
-- congress/datalog: the policy language's data structures.
pub mod FactSet
pub mod ModalIndex
pub mod Graph
pub mod BagGraph
pub mod Networks
pub mod Tablename
pub mod Schema
pub mod Formula
pub mod Builtins
pub mod Reorder
pub mod Consistency
pub mod Safety
pub mod References
pub mod Database
pub mod Dependencies
pub mod RuleSet
