-- ===== src/Witnesses.antt =====
-- Runs of the theorems at concrete inputs.
pub mod Streams
pub mod Store
pub mod EventLog
pub mod Operator
pub mod AgentLoop
pub mod Host
pub mod Connection
pub mod Requests
pub mod Installation
pub mod Install
pub mod Pki
pub mod Build
pub mod Targets
pub mod Routes
