-- ===== src/Proposals.antt =====
-- openmls/openmls/src/messages/proposals.rs, framing/sender.rs and group/mls_group/proposal_store.rs:
-- the proposals that wait for a commit, and the queue of those that a commit covers.
pub mod Types
pub mod Queue
pub mod Entries
pub mod Committed
pub mod Valid
pub mod Accepts
pub mod Filter
pub mod Chosen
pub mod Members
pub mod Pool
pub mod Pooled
mod Tests
