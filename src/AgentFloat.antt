-- ===== src/AgentFloat.antt =====
-- Transfers of float between agents: backend/src/services/agentFloatService.ts.
-- Addresses and ids are only compared, so they are numbers; 0 stands for the empty string. Amounts
-- are whole stroops, which hold every amount of at most seven decimals exactly.
pub mod Store
pub mod Initiate
pub mod Approve
pub mod Listing
pub mod Ends
pub mod Signed
pub mod Preserve
pub mod Opening
pub mod Laws
pub mod Stuck
pub mod Refusals
mod Tests
