-- ===== src/Examples.antt =====
-- The theorems at concrete inputs: one team's namespace, an active fact, and a proposal that replaces
-- it (the packages under internal/).
pub mod Sample
pub mod Approvals
pub mod Rules
pub mod Calls
pub mod Reads
pub mod Engines
pub mod Admin
pub mod Proposals
pub mod Histories
pub mod Entitled
pub mod Served
pub mod Tools
pub mod Clients
